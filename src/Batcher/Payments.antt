-- ===== src/Batcher/Payments.antt =====
-- src/batcher.rs: what the transactions of a run pay.
use mathlib.Core.List.{append-nil, append_assoc, map-append}
use faucet_api.Common.{ℕ, ◌≡◌, refl, sym, ap, ◌∙◌, some, List, [], ◌∷◌, ◌++◌, map, ok, arith}
use faucet_api.Batcher.{
  BatcherConfig, WalletApi, Broadcast, State, recipient, Event, tick, Turn, on_tick, on_request,
  on_broadcast, turn, run,
}
use faucet_api.Batcher.Ledger.{
  Requests, paid, gather, Sending, not_built, built, Ticked, idle, due, tick_queue-Ticked,
}
use faucet_api.Batcher.Runs.{run-cons, run-nil}

module _ (api : WalletApi) where
  open api use {Wallet, Script, Psbt, Tx, finish, sign, extract_tx}

  module _ (pays : Tx → List (Script × ℕ))
      (honest : (fee : ℕ) (rs : List (Script × ℕ)) (w : Wallet) (psbt signed : Psbt) (tx : Tx)
        → (finish fee rs w).0 ≡ ok psbt
        → sign psbt (finish fee rs w).1 ≡ ok signed
        → extract_tx signed ≡ ok tx
        → pays tx ≡ rs) where
    -- The outputs of the transactions that were handed to the network.
    abbrev pub outputs : List (Broadcast api) → List (Script × ℕ)
    outputs [] = []
    outputs (b ∷ bs) = pays b.tx ++ outputs bs

    outputs-append : (xs ys : List (Broadcast api)) → outputs (xs ++ ys) ≡ outputs xs ++ outputs ys
    outputs-append [] ys = refl
    outputs-append (x ∷ xs) ys =
        ap (◌++◌ (pays x.tx)) (outputs-append xs ys)
        ∙ sym (append_assoc (pays x.tx) (outputs xs) (outputs ys))

    abbrev Pays : State api → Event api → State api → Type 0
    Pays s e s' = outputs s'.spawned ≡ outputs s.spawned ++ map (recipient api) (paid api e)

    Sending-Pays :
        {fee : ℕ} {batch rest : Requests api} {s s' : State api} {e : Event api}
        → Sending api fee batch rest s e s'
        → Pays s e s'
    Sending-Pays (not_built p) = sym (append-nil _)
    Sending-Pays {fee} {batch} {rest} {s} (built total n {psbt} {signed} {tx} {w} p q r t) =
        outputs-append s.spawned _
        ∙ ap (◌++◌ (outputs s.spawned)) (
            append-nil (pays tx)
            ∙ honest fee (map (recipient api) batch) s.l1_wallet psbt signed tx p (rw q r) t)

    Ticked-Pays :
        {cfg : BatcherConfig} {fee : ℕ} {s s' : State api} {e : Event api} {queue : Requests api}
        → Ticked api cfg fee s queue e s'
        → Pays s e s'
    Ticked-Pays idle = sym (append-nil _)
    Ticked-Pays (due d) = Sending-Pays d

    pub turn-Pays :
        (cfg : BatcherConfig) (t : Turn api) (s s' : State api) (e : Event api)
        → turn api cfg t s ≡ some (e, s')
        → Pays s e s'
    unfolding turn tick
    turn-Pays cfg (on_tick fee) s s' e h =
        Ticked-Pays (tick_queue-Ticked api cfg fee s.l1_payout_queue s s' e h)
    turn-Pays cfg (on_request req) s s' e h =
        let (same, nothing) : (s'.spawned ≡ s.spawned) × (paid api e ≡ []) = ground arith in
        rw (same, nothing) (sym (append-nil _))
    turn-Pays cfg (on_broadcast b r) s s' e h =
        let (same, nothing) : (s'.spawned ≡ s.spawned) × (paid api e ≡ []) = ground arith in
        rw (same, nothing) (sym (append-nil _))

    -- With a wallet whose signed transactions pay the recipients that they were built for: in every
    -- run that meets no panic the transactions that were handed to the network pay, in order, just
    -- the requests of the batches that were sent, each its address and amount.
    pub run_pays :
        (cfg : BatcherConfig) (ts : List (Turn api)) (s s' : State api) (es : List (Event api))
        → run api cfg ts s ≡ some (es, s')
        → outputs s'.spawned ≡ outputs s.spawned ++ map (recipient api) (gather api (paid api) es)
    run_pays cfg [] s s' es h =
        let (a, b) = run-nil api cfg s s' es h in rw (a, b) (sym (append-nil _))
    run_pays cfg (t ∷ ts) s s' es h =
        let (e, s₁, es₁, p, q, a) = run-cons api cfg t ts s s' es h in
        rw (a, map-append)
          (run_pays cfg ts s₁ s' es₁ q
            ∙ ap (λ l. l ++ map (recipient api) (gather api (paid api) es₁))
                (turn-Pays cfg t s s₁ e p)
            ∙ append_assoc (outputs s.spawned) (map (recipient api) (paid api e)) _)
