-- ===== src/Batcher/Refinement.antt =====
-- src/batcher.rs: the task against a ledger that knows nothing of wallets and transactions.
use mathlib.Core.List.{map-append}
use faucet_api.Common.{
  ℕ, ◌≤◌, ◌<◌, ◌≡◌, refl, sym, ap, ◌∙◌, inl, inr, some, List, [], ◌∷◌, ◌++◌, map, ok, arith, min,
  ltb, ltb→lt, not-ltb→le, length, length-map, length-take, take-append-drop, Bool-cases,
}
use faucet_api.Batcher.{
  BatcherConfig, WalletApi, State, Event, recipient, tick, receive, finish_broadcast, Turn, on_tick,
  on_request, on_broadcast, turn, run,
}
use faucet_api.Batcher.Ledger.{
  Requests, paid, Sending, not_built, built, Ticked, idle, due, batch_of, rest_of,
  tick_queue-Ticked,
}
use faucet_api.Batcher.Payments.{outputs, turn-Pays}
use faucet_api.Batcher.Runs.{run-cons, run-nil}

-- What a client may know: the payouts that wait, in their order, and those that were made.
pub record Book (Payout : Type 0) : Type 0 where
  pub queue : List Payout
  pub made : List Payout

-- The front of the queue that is due at a tick.
pub record IsFront {Payout : Type 0} (cfg : BatcherConfig) (queue front rest : List Payout)
    : Type 0 where
  pub cut : queue ≡ front ++ rest
  pub size : length front ≡ min cfg.max_per_tx (length queue)

-- What happens to the batcher, as a client sees it.
pub data Input (Payout : Type 0) : Type 0 where
  arrives : Payout → Input Payout
  is_due : Input Payout
  another : Input Payout

-- A payout that arrives is put last, or refused when as many as allowed wait. When the time has come the front
-- of the queue is paid, or lost as a whole when no transaction can be built.
pub data Move {Payout : Type 0} (cfg : BatcherConfig) (b : Book Payout)
    : Input Payout → Book Payout → Type 0 where
  submits :
      (payout : Payout)
      → length b.queue < cfg.max_in_flight
      → Move cfg b (arrives payout) (record b { queue = b.queue ++ (payout ∷ []) })
  refuses : (payout : Payout) → cfg.max_in_flight ≤ length b.queue → Move cfg b (arrives payout) b
  waits : b.queue ≡ [] → Move cfg b is_due b
  pays :
      {front rest : List Payout}
      → IsFront cfg b.queue front rest
      → Move cfg b is_due (record { queue = rest; made = b.made ++ front })
  loses :
      {front rest : List Payout}
      → IsFront cfg b.queue front rest
      → Move cfg b is_due (record b { queue = rest })
  rests : Move cfg b another b

pub data Moves {Payout : Type 0} (cfg : BatcherConfig)
    : Book Payout → List (Input Payout) → Book Payout → Type 0 where
  done : {b : Book Payout} → Moves cfg b [] b
  then :
      {b b' b'' : Book Payout} {i : Input Payout} {is : List (Input Payout)}
      → Move cfg b i b'
      → Moves cfg b' is b''
      → Moves cfg b (i ∷ is) b''

module _ (api : WalletApi) where
  open api use {Wallet, Script, Psbt, Tx, finish, sign, extract_tx}

  module _ (pays_to : Tx → List (Script × ℕ))
      (honest : (fee : ℕ) (rs : List (Script × ℕ)) (w : Wallet) (psbt signed : Psbt) (tx : Tx)
        → (finish fee rs w).0 ≡ ok psbt
        → sign psbt (finish fee rs w).1 ≡ ok signed
        → extract_tx signed ≡ ok tx
        → pays_to tx ≡ rs) where
    abbrev payouts : Requests api → List (Script × ℕ)
    payouts = map (recipient api)

    -- The book that a state of the task stands for.
    abbrev pub book : State api → Book (Script × ℕ)
    book s = record {
      queue = payouts s.l1_payout_queue;
      made = outputs api pays_to honest s.spawned;
    }

    batch_of-IsFront :
        (cfg : BatcherConfig) (queue : Requests api)
        → IsFront cfg
            (payouts queue)
            (payouts (batch_of api cfg queue))
            (payouts (rest_of api cfg queue))
    batch_of-IsFront cfg queue = record {
      cut =
          ap payouts (sym (take-append-drop (min cfg.max_per_tx (length queue)) queue))
          ∙ map-append (recipient api) _ _;
      size = omega (
        arith,
        length-map (recipient api) (batch_of api cfg queue),
        length-map (recipient api) queue,
        length-take (min cfg.max_per_tx (length queue)) queue,
      );
    }

    -- What a turn leaves in the book, by what it left in the state.
    Sending-Move :
        {cfg : BatcherConfig} {fee : ℕ} {queue : Requests api} {s s' : State api} {e : Event api}
        → s.l1_payout_queue ≡ queue
        → Sending api fee (batch_of api cfg queue) (rest_of api cfg queue) s e s'
        → outputs api pays_to honest s'.spawned
          ≡ outputs api pays_to honest s.spawned ++ payouts (paid api e)
        → Move cfg (book s) is_due (book s')
    Sending-Move {cfg} {queue} {s} same (not_built p) made =
        let front : IsFront cfg (payouts s.l1_payout_queue) (payouts (batch_of api cfg queue))
            (payouts (rest_of api cfg queue)) =
          rw same (batch_of-IsFront cfg queue) in
        loses front
    Sending-Move {cfg} {queue} {s} same (built total n p q r t) made =
        let front : IsFront cfg (payouts s.l1_payout_queue) (payouts (batch_of api cfg queue))
            (payouts (rest_of api cfg queue)) =
          rw same (batch_of-IsFront cfg queue) in
        rw made (pays front)

    Ticked-Move :
        {cfg : BatcherConfig} {fee : ℕ} {queue : Requests api} {s s' : State api} {e : Event api}
        → s.l1_payout_queue ≡ queue
        → Ticked api cfg fee s queue e s'
        → outputs api pays_to honest s'.spawned
          ≡ outputs api pays_to honest s.spawned ++ payouts (paid api e)
        → Move cfg (book s) is_due (book s')
    Ticked-Move same idle made = waits (ap payouts same)
    Ticked-Move same (due d) made = Sending-Move same d made

    -- The input that a turn is.
    abbrev pub input_of : Turn api → Input (Script × ℕ)
    input_of (on_tick fee) = is_due
    input_of (on_request req) = arrives (recipient api req)
    input_of (on_broadcast b result) = another

    turn-Move :
        (cfg : BatcherConfig) (t : Turn api) (s s' : State api) (e : Event api)
        → turn api cfg t s ≡ some (e, s')
        → Move cfg (book s) (input_of t) (book s')
    unfolding turn tick receive finish_broadcast
    turn-Move cfg (on_tick fee) s s' e h =
        Ticked-Move refl (tick_queue-Ticked api cfg fee s.l1_payout_queue s s' e h)
          (turn-Pays api pays_to honest cfg (on_tick fee) s s' e h)
    turn-Move cfg (on_request req) s s' e h =
        elim (Bool-cases (ltb (length s.l1_payout_queue) cfg.max_in_flight)) [
          | inl p ↦
              let same : record s { l1_payout_queue = s.l1_payout_queue ++ (req ∷ []) } ≡ s' =
                ground arith in
              rw (← same, map-append)
                (submits (recipient api req)
                  (omega (arith, ltb→lt _ _ p, length-map (recipient api) s.l1_payout_queue)))
          | inr p ↦
              let same : s ≡ s' = ground arith in
              rw (← same) (
                refuses (recipient api req)
                  (omega (arith, not-ltb→le _ _ p, length-map (recipient api) s.l1_payout_queue)))
        ]
    turn-Move cfg (on_broadcast b result) s s' e h =
        let same : finish_broadcast api b result s ≡ s' = ground arith in rw (← same) rests

    -- With a wallet whose signed transactions pay the recipients that they were built for, every run of the task
    -- that meets no panic does to the book what the ledger allows: payouts that arrive are put last, or refused
    -- exactly when `max_in_flight` wait, and on each tick the first `max_per_tx` that wait are paid in their
    -- order, or lost together.
    pub run-Moves :
        (cfg : BatcherConfig) (ts : List (Turn api)) (s s' : State api) (es : List (Event api))
        → run api cfg ts s ≡ some (es, s')
        → Moves cfg (book s) (map input_of ts) (book s')
    run-Moves cfg [] s s' es h = let (a, b) = run-nil api cfg s s' es h in rw b done
    run-Moves cfg (t ∷ ts) s s' es h =
        let (e, s₁, es₁, p, q, a) = run-cons api cfg t ts s s' es h in
        then (turn-Move cfg t s s₁ e p) (run-Moves cfg ts s₁ s' es₁ q)
