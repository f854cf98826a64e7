-- ===== src/Pow/Difficulty.antt =====
-- `DifficultyConfig` and `calculate_difficulty` of src/pow.rs. An `Amount` is a number of sats below
-- 2^64, a difficulty a `u8`.
pub mod Checks
pub mod Steps
pub mod Shape
pub mod Arms
pub mod Accepts
pub mod Line
pub mod Range
pub mod Accepted
pub mod Slope
pub mod Closeness
pub mod Documented
use Prim.Native.String.{String}
use faucet_api.Common.{ℕ, false, Result, ok, err, ◌>>=◌, ltb, ◌==◌, if◌then◌else◌}
use faucet_api.Float
use faucet_api.Float.{F32, finite}

pub record DifficultyConfig : Type 0 where
  pub big_m : ℕ
  pub m : ℕ
  pub b : F32
  pub min_diff_start : F32
  pub precompute_big_a : F32
  pub precompute_big_b : F32

pub data DifficultyConfigError : Type 0 where
  max_diff_must_be_greater_than_min_diff : DifficultyConfigError
  per_claim_must_be_greater_than_zero : DifficultyConfigError
  difficulty_increase_coefficient_must_be_greater_than_zero : DifficultyConfigError
  arithmetic_overflow : DifficultyConfigError
  invalid_calculation : DifficultyConfigError

-- `Display for DifficultyConfigError`
unfoldable pub fmt : DifficultyConfigError → String
fmt max_diff_must_be_greater_than_min_diff =
    "Maximum difficulty must be greater than minimum difficulty"
fmt per_claim_must_be_greater_than_zero = "Per claim amount must be greater than zero"
fmt difficulty_increase_coefficient_must_be_greater_than_zero =
    "Difficulty increase coefficient must be greater than zero"
fmt arithmetic_overflow = "Arithmetic overflow occurred during difficulty configuration calculation"
fmt invalid_calculation =
    "Invalid calculation parameters resulted in division by zero or near-zero values"

-- `if !x.is_finite() { return Err(ArithmeticOverflow) }`
unfoldable pub finite_or_overflow : F32 → Result F32 DifficultyConfigError
unfolding Float.is_finite
finite_or_overflow x = if Float.is_finite x then ok x else err arithmetic_overflow

-- The part of `new` that computes, after the checks of the arguments.
unfoldable pub precompute : ℕ → ℕ → ℕ → ℕ → F32 → Result DifficultyConfig DifficultyConfigError
unfolding finite_or_overflow Float.mul Float.add Float.lt Float.abs Float.div Float.sub Float.of_nat
precompute max_diff min_diff min_balance per_claim difficulty_increase_coeff = do
  let big_m = Float.of_nat max_diff
  let m = Float.of_nat min_diff
  let b = Float.of_nat min_balance
  let q = Float.of_nat per_claim
  let big_l = difficulty_increase_coeff
  lq_product ← finite_or_overflow (Float.mul big_l q)
  min_diff_start ← finite_or_overflow (Float.add b lq_product)
  if Float.lt (Float.abs lq_product) Float.epsilon then err invalid_calculation else do
    let numerator = Float.sub m big_m
    precompute_big_a ← finite_or_overflow (Float.div numerator lq_product)
    ab_product ← finite_or_overflow (Float.mul precompute_big_a b)
    precompute_big_b ← finite_or_overflow (Float.sub big_m ab_product)
    ok (record {
      big_m = max_diff;
      m = min_diff;
      b = b;
      min_diff_start = min_diff_start;
      precompute_big_a = precompute_big_a;
      precompute_big_b = precompute_big_b;
    })

-- `DifficultyConfig::new`
unfoldable pub new : ℕ → ℕ → ℕ → ℕ → F32 → Result DifficultyConfig DifficultyConfigError
unfolding precompute Float.le
new max_diff min_diff min_balance per_claim difficulty_increase_coeff =
    if ltb max_diff min_diff
    then err max_diff_must_be_greater_than_min_diff
    else if per_claim == 0
    then err per_claim_must_be_greater_than_zero
    else if Float.le difficulty_increase_coeff (finite false 0)
    then err difficulty_increase_coefficient_must_be_greater_than_zero
    else precompute max_diff min_diff min_balance per_claim difficulty_increase_coeff

unfoldable pub calculate_difficulty : DifficultyConfig → ℕ → ℕ
unfolding Float.of_nat Float.le Float.mul Float.add Float.round Float.as_u8
calculate_difficulty config balance =
    let x = Float.of_nat balance in
    if Float.le config.min_diff_start x
    then config.m
    else if Float.le x config.b
    then config.big_m
    else Float.as_u8
        (Float.round (Float.add (Float.mul config.precompute_big_a x) config.precompute_big_b))
