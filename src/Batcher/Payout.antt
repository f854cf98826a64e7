-- ===== src/Batcher/Payout.antt =====
-- src/batcher.rs: a tick with a wallet that can pay what is in the queue.
use mathlib.Core.List.{append-nil, append_assoc, map-append}
use faucet_api.Common.{
  ℕ, min, take, length-take, Result, ◌^◌, ◌≤◌, ◌≡◌, refl, sym, ap, ◌∙◌, some, List, [], ◌∷◌, ◌++◌,
  map, ok, arith, length,
}
use faucet_api.Batcher.{
  BatcherConfig, WalletApi, L1PayoutRequest, State, recipient, Event, sent, send, tick, tick_queue,
  on_tick, turn,
}
use faucet_api.Batcher.Ledger.{Requests, batch_of, rest_of, turn-Keeps}
use faucet_api.Batcher.Payments.{outputs, turn-Pays}
use faucet_api.Batcher.Drain.{IsSmall, IsSmall-take, IsSmall-drop, total_from-some}

module _ (api : WalletApi) where
  open api use {Wallet, Script, Psbt, Tx, finish, sign, extract_tx}

  -- The wallet can pay for a queue at a fee rate: it builds, signs and extracts the transaction of each batch that the
  -- queue is cut into, one after the other.
  pub data CanPay (cfg : BatcherConfig) (fee : ℕ) : Requests api → Wallet → Type 0 where
    all_paid : {w : Wallet} → CanPay cfg fee [] w
    next_paid :
        {req : L1PayoutRequest api} {reqs : Requests api} {w : Wallet} {psbt signed : Psbt}
        {tx : Tx}
        → (finish fee (map (recipient api) (batch_of api cfg (req ∷ reqs))) w).0 ≡ ok psbt
        → sign psbt (finish fee (map (recipient api) (batch_of api cfg (req ∷ reqs))) w).1
          ≡ ok signed
        → extract_tx signed ≡ ok tx
        → CanPay cfg fee
            (rest_of api cfg (req ∷ reqs))
            (finish fee (map (recipient api) (batch_of api cfg (req ∷ reqs))) w).1
        → CanPay cfg fee (req ∷ reqs) w

  -- What a tick leaves that sends a batch.
  abbrev sends : ℕ → ℕ → Tx → Requests api → Wallet → State api → State api
  sends n total tx rest w s = record {
    l1_payout_queue = rest;
    l1_wallet = w;
    spawned = s.spawned ++ (record { tx = tx; total_sent = total; num_to_deque = n } ∷ []);
  }

  tick_queue-sends :
      (cfg : BatcherConfig) (fee : ℕ) (req : L1PayoutRequest api) (reqs : Requests api)
      (s : State api) {psbt signed : Psbt} {tx : Tx}
      → cfg.max_per_tx ≤ 10 ^ 10
      → IsSmall api (req ∷ reqs)
      → let queue : Requests api = req ∷ reqs in
        let built : Result Psbt (Unit {0}) × Wallet =
          finish fee (map (recipient api) (batch_of api cfg queue)) s.l1_wallet in
        built.0 ≡ ok psbt
        → sign psbt built.1 ≡ ok signed
        → extract_tx signed ≡ ok tx
        → (total : ℕ) × (tick_queue api cfg fee queue s
            ≡ some (
              sent (batch_of api cfg queue),
              sends (min cfg.max_per_tx (length queue)) total tx (rest_of api cfg queue) built.1 s,
            ))
  unfolding tick_queue send
  tick_queue-sends cfg fee req reqs s few small p q r =
      let queue : Requests api = req ∷ reqs in
      let n : ℕ = min cfg.max_per_tx (length queue) in
      let (total, t) =
        total_from-some api 0 (take n queue) (IsSmall-take api n queue small)
          (omega (arith, length-take n queue)) in
      (total, ground arith)

  module _ (pays : Tx → List (Script × ℕ))
      (honest : (fee : ℕ) (rs : List (Script × ℕ)) (w : Wallet) (psbt signed : Psbt) (tx : Tx)
        → (finish fee rs w).0 ≡ ok psbt
        → sign psbt (finish fee rs w).1 ≡ ok signed
        → extract_tx signed ≡ ok tx
        → pays tx ≡ rs) where
    -- What was paid and what waits, in order.
    abbrev pub owed : State api → List (Script × ℕ)
    owed s = outputs api pays honest s.spawned ++ map (recipient api) s.l1_payout_queue

    -- A tick that sends its batch keeps what is owed.
    tick-owed :
        (cfg : BatcherConfig) (fee : ℕ) (s s' : State api) (batch : Requests api)
        → tick api cfg fee s ≡ some (sent batch, s')
        → owed s' ≡ owed s
    unfolding turn tick
    tick-owed cfg fee s s' batch h =
        let front : batch ++ s'.l1_payout_queue ≡ s.l1_payout_queue =
          turn-Keeps api cfg (on_tick fee) s s' (sent batch) h ∙ append-nil s.l1_payout_queue in
        ap (λ l. l ++ map (recipient api) s'.l1_payout_queue)
          (turn-Pays api pays honest cfg (on_tick fee) s s' (sent batch) h)
        ∙ append_assoc (outputs api pays honest s.spawned) (map (recipient api) batch) _
        ∙ ap (◌++◌ (outputs api pays honest s.spawned)) (
            sym (map-append (recipient api) batch s'.l1_payout_queue)
            ∙ ap (map (recipient api)) front)

    -- Where the wallet can pay, a tick sends its batch and keeps what is owed.
    pub tick_pays :
        (cfg : BatcherConfig) (fee : ℕ) (s : State api) {req : L1PayoutRequest api}
        {reqs : Requests api} {w : Wallet} {psbt signed : Psbt} {tx : Tx}
        → cfg.max_per_tx ≤ 10 ^ 10
        → IsSmall api s.l1_payout_queue
        → s.l1_payout_queue ≡ req ∷ reqs
        → s.l1_wallet ≡ w
        → let batch : List (Script × ℕ) = map (recipient api) (batch_of api cfg (req ∷ reqs)) in
          (finish fee batch w).0 ≡ ok psbt
          → sign psbt (finish fee batch w).1 ≡ ok signed
          → extract_tx signed ≡ ok tx
          → (e : Event api) × (s' : State api) × (tick api cfg fee s ≡ some (e, s'))
            × (owed s' ≡ owed s)
            × (s'.l1_payout_queue ≡ rest_of api cfg (req ∷ reqs))
            × (s'.l1_wallet ≡ (finish fee batch w).1)
            × IsSmall api s'.l1_payout_queue
    unfolding tick
    tick_pays cfg fee s {req} {reqs} {w} {psbt} {signed} {tx} few small queue wallet p q r =
        let all : Requests api = req ∷ reqs in
        let n : ℕ = min cfg.max_per_tx (length all) in
        let small' : IsSmall api all = rw queue at small in
        let batch : List (Script × ℕ) = map (recipient api) (batch_of api cfg all) in
        let p' : (finish fee batch s.l1_wallet).0 ≡ ok psbt = rw wallet p in
        let q' : sign psbt (finish fee batch s.l1_wallet).1 ≡ ok signed = rw wallet q in
        let (total, ran) = tick_queue-sends cfg fee req reqs s few small' p' q' r in
        let run : tick api cfg fee s
            ≡ some (sent (batch_of api cfg all), sends n total tx (rest_of api cfg all) _ s) =
          ap (λ u. tick_queue api cfg fee u s) queue ∙ ran in
        (
          sent (batch_of api cfg all),
          sends n total tx (rest_of api cfg all) _ s,
          run,
          tick-owed cfg fee s _ (batch_of api cfg all) run,
          refl,
          ap (λ v. (finish fee (map (recipient api) (batch_of api cfg all)) v).1) wallet,
          IsSmall-drop api n all small',
        )
