-- ===== src/Service/Funds.antt =====
-- src/batcher.rs: the sats that its task has sent or still holds in its queue, over one turn.
use faucet_api.Common.{
  ℕ, ◌+◌, ◌≤◌, ◌≡◌, refl, ap, inl, inr, some, List, [], ◌∷◌, map, ok, arith, ltb, length,
  Bool-cases, total, total-append,
}
use faucet_api.Batcher.{
  BatcherConfig, WalletApi, L1PayoutRequest, State, recipient, Event, sent, tick, receive, turn,
  on_tick,
}
use faucet_api.Batcher.Ledger.{
  Requests, settled, paid, accepted, Sending, not_built, built, Ticked, idle, due, turn-Keeps,
  tick_queue-Ticked,
}
use faucet_api.Batcher.Payments.{outputs, turn-Pays}
use faucet_api.Service.Effect.{amount_of}

module _ (api : WalletApi) where
  open api use {Wallet, Script, Psbt, Tx, finish, sign, extract_tx}

  abbrev pub worth : Requests api → ℕ
  worth = total (λ req. req.amount)

  worth-recipients : (rs : Requests api) → total amount_of (map (recipient api) rs) ≡ worth rs
  worth-recipients [] = refl
  worth-recipients (r ∷ rs) = omega (arith, worth-recipients rs)

  paid-settled : (e : Event api) → worth (paid api e) ≤ worth (settled api e)
  paid-settled (sent batch) = omega arith
  paid-settled _ = omega arith

  Sending-accepted :
      {fee : ℕ} {batch rest : Requests api} {s s' : State api} {e : Event api}
      → Sending api fee batch rest s e s'
      → accepted api e ≡ []
  Sending-accepted (not_built p) = refl
  Sending-accepted (built total n p q r t) = refl

  Ticked-accepted :
      {cfg : BatcherConfig} {fee : ℕ} {queue : Requests api} {s s' : State api} {e : Event api}
      → Ticked api cfg fee s queue e s'
      → accepted api e ≡ []
  Ticked-accepted idle = refl
  Ticked-accepted (due d) = Sending-accepted d

  module _ (pays : Tx → List (Script × ℕ))
      (honest : (fee : ℕ) (rs : List (Script × ℕ)) (w : Wallet) (psbt signed : Psbt) (tx : Tx)
        → (finish fee rs w).0 ≡ ok psbt
        → sign psbt (finish fee rs w).1 ≡ ok signed
        → extract_tx signed ≡ ok tx
        → pays tx ≡ rs) where
    -- What the transactions that were handed to the network pay, in sats.
    abbrev pub paid_out : State api → ℕ
    paid_out s = total amount_of (outputs api pays honest s.spawned)

    -- With what is queued.
    abbrev pub held : State api → ℕ
    held s = paid_out s + worth s.l1_payout_queue

    turn-held :
        (cfg : BatcherConfig) (t : _) (s s' : State api) (e : Event api)
        → turn api cfg t s ≡ some (e, s')
        → held s' ≤ held s + worth (accepted api e)
    turn-held cfg t s s' e h =
        let keeps = ap worth (turn-Keeps api cfg t s s' e h) in
        let pays_now = ap (total amount_of) (turn-Pays api pays honest cfg t s s' e h) in
        let split =
          total-append amount_of (outputs api pays honest s.spawned)
            (map (recipient api) (paid api e)) in
        omega (
          arith,
          keeps,
          pays_now,
          split,
          worth-recipients (paid api e),
          paid-settled e,
          total-append (λ (req : L1PayoutRequest api). req.amount) (settled api e)
              s'.l1_payout_queue,
          total-append (λ (req : L1PayoutRequest api). req.amount) s.l1_payout_queue
              (accepted api e),
        )

    -- A tick makes nothing of nothing.
    pub tick-held :
        (cfg : BatcherConfig) (fee : ℕ) (s s' : State api) (e : Event api)
        → tick api cfg fee s ≡ some (e, s')
        → held s' ≤ held s
    unfolding tick turn
    tick-held cfg fee s s' e h = omega (
      arith,
      turn-held cfg (on_tick fee) s s' e h,
      ap worth (Ticked-accepted (tick_queue-Ticked api cfg fee s.l1_payout_queue s s' e h)),
    )

    -- A request adds its amount, or nothing when the queue is full.
    pub receive-held :
        (cfg : BatcherConfig) (req : L1PayoutRequest api) (s : State api)
        → held (receive api cfg req s).1 ≤ held s + req.amount
    unfolding receive
    receive-held cfg req s = elim (Bool-cases (ltb (length s.l1_payout_queue) cfg.max_in_flight)) [
      | inl p ↦ simp p (
          omega (
            arith,
            total-append (λ (req : L1PayoutRequest api). req.amount) s.l1_payout_queue (req ∷ []),
          ))
      | inr p ↦ simp p (omega arith)
    ]
