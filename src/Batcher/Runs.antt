-- ===== src/Batcher/Runs.antt =====
-- src/batcher.rs: a whole run of the task, from what its turns did.
use mathlib.Core.List.{append-nil, append_assoc}
use faucet_api.Common.{
  ℕ, ◌-◌, ◌≤◌, ◌≡◌, refl, sym, ap, ◌∙◌, inl, inr, some, List, [], ◌∷◌, ◌++◌, arith, min, length,
  All, length-take, length-drop, length-append, Option-cases,
}
use faucet_api.Batcher.{
  BatcherConfig, WalletApi, State, Event, tick, Turn, on_tick, on_request, on_broadcast, turn, run,
}
use faucet_api.Batcher.Ledger.{
  Requests, settled, accepted, gather, Sending, not_built, built, Ticked, idle, due,
  tick_queue-Ticked, turn-Keeps,
}

module _ (api : WalletApi) where
  open api use {Wallet, Script, Psbt, Tx, finish, sign, extract_tx}

  -- The first turn of a run that ends well, and the run that follows.
  pub run-cons :
      (cfg : BatcherConfig) (t : Turn api) (ts : List (Turn api)) (s s' : State api)
      (es : List (Event api))
      → run api cfg (t ∷ ts) s ≡ some (es, s')
      → (e : Event api) × (s₁ : State api) × (es₁ : List (Event api)) × (turn api cfg t s
          ≡ some (e, s₁))
        × (run api cfg ts s₁ ≡ some (es₁, s'))
        × (es ≡ e ∷ es₁)
  unfolding run
  run-cons cfg t ts s s' es h = elim (Option-cases (turn api cfg t s)) [
    | inl p ↦ absurd (ground arith)
    | inr ((e, s₁), p) ↦ elim (Option-cases (run api cfg ts s₁)) [
      | inl q ↦ absurd (ground arith)
      | inr ((es₁, s₂), q) ↦
          let (a, b) : (e ∷ es₁ ≡ es) × (s₂ ≡ s') = ground arith in
          (e, s₁, es₁, p, rw (← b) q, sym a)
    ]
  ]

  pub run-nil :
      (cfg : BatcherConfig) (s s' : State api) (es : List (Event api))
      → run api cfg [] s ≡ some (es, s')
      → (es ≡ []) × (s' ≡ s)
  unfolding run
  run-nil cfg s s' es h = ground arith

  -- For every run that meets no panic: the requests that it settled, in a transaction or by one
  -- that could not be built, and then those still queued, are those that were queued at first and
  -- then those that it accepted, in that order.
  pub run_in_order :
      (cfg : BatcherConfig) (ts : List (Turn api)) (s s' : State api) (es : List (Event api))
      → run api cfg ts s ≡ some (es, s')
      → gather api (settled api) es ++ s'.l1_payout_queue
        ≡ s.l1_payout_queue ++ gather api (accepted api) es
  run_in_order cfg [] s s' es h =
      let (a, b) = run-nil cfg s s' es h in rw (a, b) (sym (append-nil _))
  run_in_order cfg (t ∷ ts) s s' es h =
      let (e, s₁, es₁, p, q, a) = run-cons cfg t ts s s' es h in
      let later = run_in_order cfg ts s₁ s' es₁ q in
      let now = turn-Keeps api cfg t s s₁ e p in
      rw a (
        append_assoc (settled api e) (gather api (settled api) es₁) s'.l1_payout_queue
        ∙ ap (◌++◌ (settled api e)) later
        ∙ sym (append_assoc (settled api e) s₁.l1_payout_queue (gather api (accepted api) es₁))
        ∙ ap (λ l. l ++ gather api (accepted api) es₁) now
        ∙ append_assoc s.l1_payout_queue (accepted api e) (gather api (accepted api) es₁))

  -- Nothing waits beyond `max_in_flight`, and no transaction has more than `max_per_tx` recipients.
  abbrev pub IsBounded : BatcherConfig → List (Event api) → State api → Type 0
  IsBounded cfg es s =
      (length s.l1_payout_queue ≤ cfg.max_in_flight)
      × All (λ e. length (settled api e) ≤ cfg.max_per_tx) es

  Sending-bounds :
      {fee : ℕ} {batch rest : Requests api} {s s' : State api} {e : Event api}
      → Sending api fee batch rest s e s'
      → (length (settled api e) ≡ length batch) × (s'.l1_payout_queue ≡ rest)
  Sending-bounds (not_built p) = (refl, refl)
  Sending-bounds (built total n p q r t) = (refl, refl)

  pub Ticked-bounds :
      (cfg : BatcherConfig) {fee : ℕ} {s s' : State api} {e : Event api} {queue : Requests api}
      → s.l1_payout_queue ≡ queue
      → Ticked api cfg fee s queue e s'
      → (length (settled api e) ≤ cfg.max_per_tx)
        × (length s'.l1_payout_queue ≡ length queue - cfg.max_per_tx)
  Ticked-bounds cfg p idle = (omega arith, omega (arith, ap length p))
  Ticked-bounds cfg p (due {req} {reqs} d) =
      let n : ℕ = min cfg.max_per_tx (length (req ∷ reqs)) in
      let (size, rest) = Sending-bounds d in
      (
        omega (arith, size, length-take n (req ∷ reqs)),
        omega (arith, ap length rest, length-drop n (req ∷ reqs)),
      )

  turn-bounds :
      (cfg : BatcherConfig) (t : Turn api) (s s' : State api) (e : Event api)
      → length s.l1_payout_queue ≤ cfg.max_in_flight
      → turn api cfg t s ≡ some (e, s')
      → (length (settled api e) ≤ cfg.max_per_tx) × (length s'.l1_payout_queue ≤ cfg.max_in_flight)
  unfolding turn tick
  turn-bounds cfg (on_tick fee) s s' e m h =
      let (small, left) =
        Ticked-bounds cfg refl (tick_queue-Ticked api cfg fee s.l1_payout_queue s s' e h) in
      (small, omega arith)
  turn-bounds cfg (on_request req) s s' e m h =
      ground (arith, length-append s.l1_payout_queue (req ∷ []))
  turn-bounds cfg (on_broadcast b r) s s' e m h = ground arith

  -- In every run that meets no panic and starts with at most `max_in_flight` requests queued, the
  -- queue stays within `max_in_flight` and each batch within `max_per_tx`.
  pub run-IsBounded :
      (cfg : BatcherConfig) (ts : List (Turn api)) (s s' : State api) (es : List (Event api))
      → length s.l1_payout_queue ≤ cfg.max_in_flight
      → run api cfg ts s ≡ some (es, s')
      → IsBounded cfg es s'
  run-IsBounded cfg [] s s' es m h = let (a, b) = run-nil cfg s s' es h in rw (a, b) (m, tt)
  run-IsBounded cfg (t ∷ ts) s s' es m h =
      let (e, s₁, es₁, p, q, a) = run-cons cfg t ts s s' es h in
      let (small, room) = turn-bounds cfg t s s₁ e m p in
      let (m', rest) = run-IsBounded cfg ts s₁ s' es₁ room q in rw a (m', (small, rest))
