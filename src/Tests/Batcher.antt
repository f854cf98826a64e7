-- ===== src/Tests/Batcher.antt =====
-- src/batcher.rs at concrete inputs, with a wallet that counts what it has spent.
use faucet_api.Common.{
  ℕ, ◌+◌, ◌-◌, ◌*◌, ◌≡◌, ◌⊎◌, refl, none, some, List, [], ◌∷◌, ◌++◌, map, Result, ok, err, arith,
  length, sum, leb, if◌then◌else◌,
}
use faucet_api.Batcher.{
  BatcherConfig, WalletApi, L1PayoutRequest, State, Event, nothing_due, sent, failed, queued,
  dropped, Turn, on_tick, on_request, on_broadcast, run, turn,
}
use faucet_api.Batcher.Ledger.{batch_of, gather, settled, accepted}
use faucet_api.Batcher.Runs.{run_in_order, IsBounded, run-IsBounded}
use faucet_api.Batcher.Payments.{outputs, run_pays}
use faucet_api.Batcher.Refinement.{Moves, book, input_of, run-Moves}
use faucet_api.Batcher.Drain.{Unsigned, ticks, ticks_drain}

-- A transaction is its list of recipients; one over 1000 sats is not built.
abbrev toy_finish : ℕ → List (ℕ × ℕ) → ℕ → Result (List (ℕ × ℕ)) (Unit {0}) × ℕ
toy_finish fee rs w = (if leb (sum (map (λ r. r.1) rs)) 1000 then ok rs else err tt, w)

abbrev pub toy_api : WalletApi
toy_api = record {
  Wallet = ℕ;
  Address = ℕ;
  Script = ℕ;
  Psbt = List (ℕ × ℕ);
  Tx = List (ℕ × ℕ);
  script_pubkey = λ a. a;
  finish = toy_finish;
  sign = λ psbt w. ok psbt;
  extract_tx = λ psbt. ok psbt;
  apply_unconfirmed = λ tx w. w + length tx;
}

pub toy_honest :
    (fee : ℕ) (rs : List (ℕ × ℕ)) (w : ℕ) (psbt signed tx : List (ℕ × ℕ))
    → (toy_finish fee rs w).0 ≡ ok psbt
    → toy_api.sign psbt w ≡ ok signed
    → toy_api.extract_tx signed ≡ ok tx
    → tx ≡ rs
toy_honest fee rs w psbt signed tx p q r = ground arith

abbrev pub two_per_tx : BatcherConfig
two_per_tx = record { period = 1_000_000_000; max_per_tx = 2; max_in_flight = 3 }

abbrev request : ℕ → L1PayoutRequest toy_api
request n = record { address = n; amount = 100 * n }

abbrev pub idle_state : State toy_api
idle_state = record { l1_payout_queue = []; l1_wallet = 0; spawned = [] }

-- Four requests, of which the last finds the queue full; two ticks; the first broadcast fails.
abbrev turns : List (Turn toy_api)
turns =
    on_request (request 1)
    ∷ on_request (request 9)
    ∷ on_request (request 3)
    ∷ on_request (request 4)
    ∷ on_tick 250
    ∷ on_broadcast (record { tx = (1, 100) ∷ (9, 900) ∷ []; total_sent = 1000; num_to_deque = 2 })
        (err tt)
    ∷ on_tick 300
    ∷ []

abbrev turn_events : List (Event toy_api)
turn_events =
    queued (request 1)
    ∷ queued (request 9)
    ∷ queued (request 3)
    ∷ dropped (request 4)
    ∷ sent (request 1 ∷ request 9 ∷ [])
    ∷ nothing_due
    ∷ sent (request 3 ∷ [])
    ∷ []

abbrev last_state : State toy_api
last_state = record {
  l1_payout_queue = [];
  l1_wallet = 2;
  spawned =
      record { tx = (1, 100) ∷ (9, 900) ∷ []; total_sent = 1000; num_to_deque = 2 }
      ∷ record { tx = (3, 300) ∷ []; total_sent = 300; num_to_deque = 1 }
      ∷ [];
}

turns-run : run toy_api two_per_tx turns idle_state ≡ some (turn_events, last_state)
unfolding run turn
turns-run = refl

-- A batch that the wallet cannot build is lost: its requests leave the queue and no transaction pays them.
failed_batch_is_lost :
    run toy_api two_per_tx
      (on_request (request 9) ∷ on_request (request 8) ∷ on_tick 250 ∷ [])
      idle_state
    ≡ some (
      queued (request 9) ∷ queued (request 8) ∷ failed (request 9 ∷ request 8 ∷ []) ∷ [],
      idle_state,
    )
unfolding run turn
failed_batch_is_lost = refl

run_in_order_example :
    gather toy_api (settled toy_api) turn_events ++ last_state.l1_payout_queue
    ≡ idle_state.l1_payout_queue ++ gather toy_api (accepted toy_api) turn_events
run_in_order_example =
    run_in_order toy_api two_per_tx turns idle_state last_state turn_events turns-run

run-IsBounded_example : IsBounded toy_api two_per_tx turn_events last_state
run-IsBounded_example =
    run-IsBounded toy_api two_per_tx turns idle_state last_state turn_events (omega arith) turns-run

run_pays_example :
    outputs toy_api (λ tx. tx) toy_honest last_state.spawned ≡ (1, 100) ∷ (9, 900) ∷ (3, 300) ∷ []
run_pays_example =
    run_pays toy_api (λ tx. tx) toy_honest two_per_tx turns idle_state last_state turn_events
      turns-run

-- The first batch is over 1000 sats: it is not built, and leaves the queue all the same.
abbrev three_queued : State toy_api
three_queued = record idle_state { l1_payout_queue = request 9 ∷ request 8 ∷ request 3 ∷ [] }

ticks_drain_example :
    ((es : List (Event toy_api)) × (s' : State toy_api) × (run toy_api two_per_tx
          (ticks toy_api (250 ∷ 300 ∷ []))
          three_queued
        ≡ some (es, s'))
      × (length s'.l1_payout_queue ≡ 0))
    ⊎ ((run toy_api two_per_tx (ticks toy_api (250 ∷ 300 ∷ [])) three_queued ≡ none)
        × (before : List ℕ) × (fee : ℕ) × (after : List ℕ) × (◌≡◌ {A = List ℕ}
            (250 ∷ 300 ∷ [])
            (before ++ (fee ∷ after)))
        × (es : List (Event toy_api)) × (s' : State toy_api) × (run toy_api two_per_tx
              (ticks toy_api before)
              three_queued
            ≡ some (es, s'))
        × (length s'.l1_payout_queue ≡ 3 - length before * 2)
        × Unsigned toy_api fee (batch_of toy_api two_per_tx s'.l1_payout_queue) s'.l1_wallet)
ticks_drain_example =
    ticks_drain toy_api two_per_tx (250 ∷ 300 ∷ []) three_queued (omega arith)
      (omega arith, (omega arith, (omega arith, tt)))

run-Moves_example :
    Moves two_per_tx
      (book toy_api (λ tx. tx) toy_honest idle_state)
      (map (input_of toy_api (λ tx. tx) toy_honest) turns)
      (book toy_api (λ tx. tx) toy_honest last_state)
run-Moves_example =
    run-Moves toy_api (λ tx. tx) toy_honest two_per_tx turns idle_state last_state turn_events
      turns-run
