-- ===== src/Batcher/Ledger.antt =====
-- src/batcher.rs: what one turn of the task takes off the queue, pays, and puts on it.
use mathlib.Core.List.{append-nil}
use faucet_api.Common.{
  ℕ, ◌≡◌, refl, sym, ap, ◌∙◌, inl, inr, some, List, [], ◌∷◌, ◌++◌, map, ok, arith, min, length,
  take, drop, take-append-drop, Option-cases, Result-cases, Bool-cases, ltb,
}
use faucet_api.Batcher.{
  BatcherConfig, WalletApi, L1PayoutRequest, State, recipient, total_from, Event, nothing_due, sent,
  failed, queued, dropped, send, tick, tick_queue, finish_broadcast, Turn, on_tick, on_request,
  on_broadcast, turn,
}

module _ (api : WalletApi) where
  open api use {Wallet, Script, Psbt, Tx, finish, sign, extract_tx}

  abbrev pub Requests : Type 0
  Requests = List (L1PayoutRequest api)

  -- The requests that an event took off the queue, paid, and put on it.
  abbrev pub settled : Event api → Requests
  settled (sent batch) = batch
  settled (failed batch) = batch
  settled _ = []

  abbrev pub paid : Event api → Requests
  paid (sent batch) = batch
  paid _ = []

  abbrev pub accepted : Event api → Requests
  accepted (queued req) = req ∷ []
  accepted _ = []

  abbrev pub gather : (Event api → Requests) → List (Event api) → Requests
  gather f [] = []
  gather f (e ∷ es) = f e ++ gather f es

  -- How a batch was handled.
  pub data Sending (fee : ℕ) (batch rest : Requests) (s : State api)
      : Event api → State api → Type 0 where
    not_built :
        {w : Wallet}
        → (finish fee (map (recipient api) batch) s.l1_wallet).1 ≡ w
        → Sending fee batch rest s
            (failed batch)
            (record s { l1_payout_queue = rest; l1_wallet = w })
    built :
        (total n : ℕ) {psbt signed : Psbt} {tx : Tx} {w : Wallet}
        → (finish fee (map (recipient api) batch) s.l1_wallet).0 ≡ ok psbt
        → (finish fee (map (recipient api) batch) s.l1_wallet).1 ≡ w
        → sign psbt w ≡ ok signed
        → extract_tx signed ≡ ok tx
        → Sending fee batch rest s (sent batch) (record {
          l1_payout_queue = rest;
          l1_wallet = w;
          spawned = s.spawned ++ (record { tx = tx; total_sent = total; num_to_deque = n } ∷ []);
        })

  send-Sending :
      (fee n total : ℕ) (batch rest : Requests) (s s' : State api) (e : Event api)
      → send api fee n total batch rest s ≡ some (e, s')
      → Sending fee batch rest s e s'
  unfolding send
  send-Sending fee n total batch rest s s' e h =
      let (result, w) = finish fee (map (recipient api) batch) s.l1_wallet in
      elim (Result-cases result) [
        | inr (x, p) ↦
            let (a, b) : (failed batch ≡ e)
                × (record s { l1_payout_queue = rest; l1_wallet = w } ≡ s') =
              ground arith in
            rw (← a, ← b) (not_built refl)
        | inl (psbt, p) ↦ elim (Result-cases (sign psbt w)) [
          | inr (x, q) ↦ absurd (ground arith)
          | inl (signed, q) ↦ elim (Result-cases (extract_tx signed)) [
            | inr (x, r) ↦ absurd (ground arith)
            | inl (tx, r) ↦
                let (a, b) : (sent batch ≡ e)
                    × (record {
                      l1_payout_queue = rest;
                      l1_wallet = w;
                      spawned =
                          s.spawned
                          ++ (record { tx = tx; total_sent = total; num_to_deque = n } ∷ []);
                    }
                        ≡ s') =
                  ground arith in
                rw (← a, ← b) (built total n p refl q r)
          ]
        ]
      ]

  -- The batch of a tick, and what it leaves.
  abbrev pub batch_of : BatcherConfig → Requests → Requests
  batch_of cfg queue = take (min cfg.max_per_tx (length queue)) queue

  abbrev pub rest_of : BatcherConfig → Requests → Requests
  rest_of cfg queue = drop (min cfg.max_per_tx (length queue)) queue

  -- A tick leaves an empty queue alone, and sends the front of any other.
  pub data Ticked (cfg : BatcherConfig) (fee : ℕ) (s : State api)
      : Requests → Event api → State api → Type 0 where
    idle : Ticked cfg fee s [] nothing_due s
    due :
        {req : L1PayoutRequest api} {reqs : Requests} {e : Event api} {s' : State api}
        → Sending fee (batch_of cfg (req ∷ reqs)) (rest_of cfg (req ∷ reqs)) s e s'
        → Ticked cfg fee s (req ∷ reqs) e s'

  pub tick_queue-Ticked :
      (cfg : BatcherConfig) (fee : ℕ) (queue : Requests) (s s' : State api) (e : Event api)
      → tick_queue api cfg fee queue s ≡ some (e, s')
      → Ticked cfg fee s queue e s'
  unfolding tick_queue
  tick_queue-Ticked cfg fee [] s s' e h =
      let (a, b) : (nothing_due ≡ e) × (s ≡ s') = ground arith in rw (← a, ← b) idle
  tick_queue-Ticked cfg fee (req ∷ reqs) s s' e h =
      let queue : Requests = req ∷ reqs in
      elim (Option-cases (total_from api 0 (batch_of cfg queue))) [
        | inl p ↦ absurd (ground arith)
        | inr (total, p) ↦ due (
            send-Sending fee (min cfg.max_per_tx (length queue)) total (batch_of cfg queue)
              (rest_of cfg queue) s s' e (rw (p, tick_queue) at h))
      ]

  -- One turn keeps the order: what it settles was at the front, what it accepts goes to the end.
  Sending-Keeps :
      {fee : ℕ} {batch rest : Requests} {s s' : State api} {e : Event api}
      → Sending fee batch rest s e s'
      → settled e ++ s'.l1_payout_queue ≡ (batch ++ rest) ++ accepted e
  Sending-Keeps (not_built p) = sym (append-nil _)
  Sending-Keeps (built total n p q r t) = sym (append-nil _)

  Ticked-Keeps :
      {cfg : BatcherConfig} {fee : ℕ} {s s' : State api} {e : Event api} {queue : Requests}
      → s.l1_payout_queue ≡ queue
      → Ticked cfg fee s queue e s'
      → settled e ++ s'.l1_payout_queue ≡ queue ++ accepted e
  Ticked-Keeps p idle = p
  Ticked-Keeps {cfg} {e} p (due {req} {reqs} d) =
      Sending-Keeps d
      ∙ ap (λ l. l ++ accepted e)
          (take-append-drop (min cfg.max_per_tx (length (req ∷ reqs))) (req ∷ reqs))

  pub turn-Keeps :
      (cfg : BatcherConfig) (t : Turn api) (s s' : State api) (e : Event api)
      → turn api cfg t s ≡ some (e, s')
      → settled e ++ s'.l1_payout_queue ≡ s.l1_payout_queue ++ accepted e
  unfolding turn tick
  turn-Keeps cfg (on_tick fee) s s' e h =
      Ticked-Keeps refl (tick_queue-Ticked cfg fee s.l1_payout_queue s s' e h)
  turn-Keeps cfg (on_request req) s s' e h =
      elim (Bool-cases (ltb (length s.l1_payout_queue) cfg.max_in_flight)) [
        | inl t ↦ ground arith
        | inr f ↦
            let (a, b) : (dropped req ≡ e) × (s ≡ s') = ground arith in
            rw (← a, ← b) (sym (append-nil _))
      ]
  turn-Keeps cfg (on_broadcast b r) s s' e h =
      let (a, c) : (nothing_due ≡ e) × (finish_broadcast api b r s ≡ s') = ground arith in
      rw (← a, ← c) (sym (append-nil _))
