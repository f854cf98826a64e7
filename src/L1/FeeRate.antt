-- ===== src/L1/FeeRate.antt =====
-- src/l1.rs: the rate that `fee_rate` reads.
use faucet_api.Common.{
  ℕ, ◌*◌, ◌^◌, ◌≤◌, ◌<◌, ◌≡◌, refl, ap, ◌∙◌, true, false, Option, none, some, List, [], ◌∷◌, ◌++◌,
  Result, ok, err, arith, All,
}
use faucet_api.L1.{FeeTask, update_fee_rate, run_fee_task}

module _ (F64 : Type 0) (as_u64 : F64 → ℕ) where
  -- The rate after a list of answers: 250 times the last estimate that was given.
  abbrev pub latest : ℕ → List (Result (Option F64) (Unit {0})) → ℕ
  latest rate [] = rate
  latest rate (ok (some fr) ∷ rs) = latest (as_u64 fr * 250) rs
  latest rate (ok none ∷ rs) = latest rate rs
  latest rate (err e ∷ rs) = latest rate rs

  -- An answer whose rate in sat/kwu fits a `u64`, or no rate.
  abbrev pub Fits : Result (Option F64) (Unit {0}) → Type 0
  Fits (ok (some fr)) = as_u64 fr * 250 < 2 ^ 64
  Fits _ = Unit

  update_fits :
      (fr : F64) (t : FeeTask)
      → as_u64 fr * 250 < 2 ^ 64
      → update_fee_rate F64 as_u64 (ok (some fr)) t ≡ record t { fee_rate = as_u64 fr * 250 }
  unfolding update_fee_rate
  update_fits fr t h = ground arith

  update_too_big :
      (fr : F64) (t : FeeTask)
      → 2 ^ 64 ≤ as_u64 fr * 250
      → update_fee_rate F64 as_u64 (ok (some fr)) t ≡ record t { running = false }
  unfolding update_fee_rate
  update_too_big fr t h = ground arith

  run_fee_task-latest :
      (rs : List (Result (Option F64) (Unit {0}))) (rate : ℕ)
      → All Fits rs
      → run_fee_task F64 as_u64 rs (record { fee_rate = rate; running = true })
        ≡ record { fee_rate = latest rate rs; running = true }
  unfolding run_fee_task
  run_fee_task-latest [] rate h = refl
  run_fee_task-latest (ok (some fr) ∷ rs) rate (h, hs) =
      ap (run_fee_task F64 as_u64 rs)
        (update_fits fr (record { fee_rate = rate; running = true }) h)
      ∙ run_fee_task-latest rs (as_u64 fr * 250) hs
  run_fee_task-latest (ok none ∷ rs) rate (h, hs) = run_fee_task-latest rs rate hs
  run_fee_task-latest (err e ∷ rs) rate (h, hs) = run_fee_task-latest rs rate hs

  stopped :
      (rs : List (Result (Option F64) (Unit {0}))) (rate : ℕ)
      → run_fee_task F64 as_u64 rs (record { fee_rate = rate; running = false })
        ≡ record { fee_rate = rate; running = false }
  unfolding run_fee_task
  stopped [] rate = refl
  stopped (r ∷ rs) rate = stopped rs rate

  run_fee_task_stops :
      (fr : F64) (rs : List (Result (Option F64) (Unit {0}))) (rate : ℕ)
      → 2 ^ 64 ≤ as_u64 fr * 250
      → run_fee_task F64 as_u64 (ok (some fr) ∷ rs) (record { fee_rate = rate; running = true })
        ≡ record { fee_rate = rate; running = false }
  unfolding run_fee_task
  run_fee_task_stops fr rs rate h =
      ap (run_fee_task F64 as_u64 rs)
        (update_too_big fr (record { fee_rate = rate; running = true }) h)
      ∙ stopped rs rate

  run_fee_task-append :
      (rs rs' : List (Result (Option F64) (Unit {0}))) (t : FeeTask)
      → run_fee_task F64 as_u64 (rs ++ rs') t
        ≡ run_fee_task F64 as_u64 rs' (run_fee_task F64 as_u64 rs t)
  unfolding run_fee_task
  run_fee_task-append [] rs' t = refl
  run_fee_task-append (r ∷ rs) rs' t = run_fee_task-append rs rs' _

  -- While the estimates fit a `u64` in sat/kwu the task runs on, with the rate of the last one, or the old one if none
  -- was given; missing answers and errors change nothing. The first that does not fit ends it: the rate stays what it
  -- was, whatever the later answers are.
  pub run_fee_task_lem :
      (rs rs' : List (Result (Option F64) (Unit {0}))) (fr : F64) (rate : ℕ)
      → All Fits rs
      → 2 ^ 64 ≤ as_u64 fr * 250
      → (run_fee_task F64 as_u64 rs (record { fee_rate = rate; running = true })
          ≡ record { fee_rate = latest rate rs; running = true })
        × (run_fee_task F64 as_u64
              (rs ++ (ok (some fr) ∷ rs'))
              (record { fee_rate = rate; running = true })
            ≡ record { fee_rate = latest rate rs; running = false })
  run_fee_task_lem rs rs' fr rate fits too_big =
      let runs = run_fee_task-latest rs rate fits in
      (
        runs,
        run_fee_task-append rs (ok (some fr) ∷ rs') (record { fee_rate = rate; running = true })
            ∙ ap (run_fee_task F64 as_u64 (ok (some fr) ∷ rs')) runs
            ∙ run_fee_task_stops fr rs' (latest rate rs) too_big,
      )
