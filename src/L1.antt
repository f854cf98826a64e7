-- ===== src/L1.antt =====
-- src/l1.rs: the fee rate task. Estimates are an `f64` of the crate
-- `esplora_client`'s answer: a parameter with its truncating cast.
pub mod FeeRate
pub mod Persister
pub mod Syncer
pub mod Wallet
use faucet_api.Common.{
  ℕ, ◌*◌, ◌/◌, ◌^◌, Bool, true, false, Option, none, some, List, [], ◌∷◌, Result, ok, err, ltb,
  if◌then◌else◌,
}

-- sat/kwu, before the first estimate
abbrev pub initial_fee_rate : ℕ
initial_fee_rate = 250

-- `checked_mul` of a `u64`
unfoldable pub checked_mul : ℕ → ℕ → Option ℕ
checked_mul a b = if ltb (a * b) (2 ^ 64) then some (a * b) else none

-- The state of the task: the shared rate, and whether the loop still runs.
pub record FeeTask : Type 0 where
  pub fee_rate : ℕ
  pub running : Bool

module _ (F64 : Type 0) (as_u64 : F64 → ℕ) where
  -- One round of the loop: what `get_fee_estimates` gave for the next block.
  unfoldable pub update_fee_rate : Result (Option F64) (Unit {0}) → FeeTask → FeeTask
  unfolding checked_mul
  update_fee_rate (ok (some fr)) task = elim (checked_mul (as_u64 fr) (1000 / 4)) [
    | none ↦ record task { running = false }
    | some new ↦ record task { fee_rate = new }
  ]
  update_fee_rate (ok none) task = task
  update_fee_rate (err e) task = task

  -- The loop: after a `return` the task does nothing.
  unfoldable pub run_fee_task : List (Result (Option F64) (Unit {0})) → FeeTask → FeeTask
  unfolding update_fee_rate
  run_fee_task [] task = task
  run_fee_task (r ∷ rs) task =
      run_fee_task rs (if task.running then update_fee_rate r task else task)
