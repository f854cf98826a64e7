-- ===== src/Tests/Unit.antt =====
-- The unit tests of src/pow.rs, each with its assertions in order; a panic fails a test.
use faucet_api.Common.{
  ℕ, ◌-◌, ◌*◌, ◌^◌, Bool, true, false, ◌&&◌, ◌≡◌, refl, Result, ok, err, ltb, ◌==◌,
}
use faucet_api.Float
use faucet_api.Float.{F32, finite, one, overflow, nearest}
use faucet_api.Pow.Difficulty.{
  DifficultyConfig, DifficultyConfigError, max_diff_must_be_greater_than_min_diff,
  per_claim_must_be_greater_than_zero, difficulty_increase_coefficient_must_be_greater_than_zero,
  arithmetic_overflow, invalid_calculation, new, calculate_difficulty,
}

-- `unwrap`, and the rest of a test.
abbrev unwrap : Result DifficultyConfig DifficultyConfigError → (DifficultyConfig → Bool) → Bool
unwrap (ok config) test = test config
unwrap (err _) test = false

abbrev discriminant : DifficultyConfigError → ℕ
discriminant max_diff_must_be_greater_than_min_diff = 0
discriminant per_claim_must_be_greater_than_zero = 1
discriminant difficulty_increase_coefficient_must_be_greater_than_zero = 2
discriminant arithmetic_overflow = 3
discriminant invalid_calculation = 4

-- `assert!(matches!(result, Err(e)))`
abbrev matches : DifficultyConfigError → Result DifficultyConfig DifficultyConfigError → Bool
matches e (ok _) = false
matches e (err e') = discriminant e == discriminant e'

-- `==` on `f32`
abbrev f32_eq : F32 → F32 → Bool
f32_eq x y = Float.le x y && Float.le y x

abbrev f32_max : F32
f32_max = finite false (overflow - 2 ^ 253)

abbrev u64_max : ℕ
u64_max = 2 ^ 64 - 1

abbrev whole : ℕ → F32
whole n = finite false (n * one)

-- The configuration that most tests start from.
abbrev common : Result DifficultyConfig DifficultyConfigError
common = new 255 20 0 10_000 (whole 10)

abbrev test_new_config_valid : Bool
test_new_config_valid = unwrap common λ config.
    let expected_a =
      Float.div (Float.sub (whole 20) (whole 255)) (Float.mul (whole 10) (whole 10_000)) in
    let expected_b = Float.sub (whole 255) (Float.mul expected_a (whole 0)) in
    config.big_m == 255
    && config.m == 20
    && f32_eq config.b (whole 0)
    && f32_eq config.min_diff_start (whole 100_000)
    && f32_eq config.precompute_big_a expected_a
    && f32_eq config.precompute_big_b expected_b

abbrev test_new_config_invalid : Bool
test_new_config_invalid =
    matches max_diff_must_be_greater_than_min_diff (new 10 20 0 10_000 (whole 10))

abbrev test_calculate_difficulty_high_balance : Bool
test_calculate_difficulty_high_balance = unwrap common λ config.
    calculate_difficulty config 100_000 == 20
    && calculate_difficulty config 150_000 == 20
    && calculate_difficulty config 1_000_000 == 20

abbrev test_calculate_difficulty_low_balance : Bool
test_calculate_difficulty_low_balance = unwrap common λ config. calculate_difficulty config 0 == 255

abbrev test_calculate_difficulty_with_min_balance : Bool
test_calculate_difficulty_with_min_balance = unwrap (new 255 20 5000 10_000 (whole 10)) λ config.
    calculate_difficulty config 0 == 255
    && calculate_difficulty config 5000 == 255
    && calculate_difficulty config 4999 == 255

abbrev test_arithmetic_overflow_error : Bool
test_arithmetic_overflow_error = matches arithmetic_overflow (new 255 20 u64_max u64_max f32_max)

abbrev test_invalid_calculation_error : Bool
test_invalid_calculation_error =
    matches invalid_calculation (new 255 20 0 1 (Float.div Float.epsilon (whole 10)))

abbrev test_per_claim_zero_error : Bool
test_per_claim_zero_error = matches per_claim_must_be_greater_than_zero (new 255 20 0 0 (whole 10))

abbrev test_negative_difficulty_coeff_error : Bool
test_negative_difficulty_coeff_error =
    matches difficulty_increase_coefficient_must_be_greater_than_zero
      (new 255 20 0 10_000 (Float.neg (whole 1)))

abbrev test_calculate_difficulty_linear_region : Bool
test_calculate_difficulty_linear_region = unwrap common λ config.
    let mid_diff = calculate_difficulty config 50_000 in
    let diff_25k = calculate_difficulty config 25_000 in
    let diff_75k = calculate_difficulty config 75_000 in
    (ltb 20 mid_diff && ltb mid_diff 255) && ltb mid_diff diff_25k && ltb diff_75k mid_diff

abbrev test_boundary_conditions : Bool
test_boundary_conditions = unwrap common λ config.
    let just_above_min = calculate_difficulty config 1 in
    calculate_difficulty config 100_000 == 20
    && calculate_difficulty config 99_999 == 20
    && ltb 20 just_above_min

abbrev test_different_parameters : Bool
test_different_parameters = unwrap (new 255 17 0 5000 (whole 25)) λ config.
    f32_eq config.min_diff_start (whole 125_000)
    && calculate_difficulty config 200_000 == 17
    && calculate_difficulty config 0 == 255

abbrev test_exact_linear_calculation : Bool
test_exact_linear_calculation = unwrap common λ config.
    let expected =
      Float.add (Float.mul config.precompute_big_a (whole 50_000)) config.precompute_big_b in
    calculate_difficulty config 50_000 == Float.as_u8 (Float.round expected)

abbrev test_edge_case_equal_difficulties : Bool
test_edge_case_equal_difficulties = unwrap (new 100 100 0 10_000 (whole 10)) λ config.
    calculate_difficulty config 0 == 100
    && calculate_difficulty config 50_000 == 100
    && calculate_difficulty config 100_000 == 100

abbrev test_large_values : Bool
test_large_values = unwrap (new 255 20 1_000_000 100_000 (whole 50)) λ config.
    let diff = calculate_difficulty config 3_500_000 in
    calculate_difficulty config 10_000_000 == 20
    && calculate_difficulty config 500_000 == 255
    && (ltb 20 diff && ltb diff 255)

-- They pass.
configuration_tests :
    (test_new_config_valid && test_new_config_invalid && test_arithmetic_overflow_error
      && test_invalid_calculation_error && test_per_claim_zero_error
      && test_negative_difficulty_coeff_error)
    ≡ true
unfolding new calculate_difficulty Float.neg
configuration_tests = refl

balance_tests :
    (test_calculate_difficulty_high_balance && test_calculate_difficulty_low_balance
      && test_calculate_difficulty_with_min_balance && test_edge_case_equal_difficulties
      && test_different_parameters)
    ≡ true
unfolding new calculate_difficulty
balance_tests = refl

linear_tests :
    (test_calculate_difficulty_linear_region && test_boundary_conditions
      && test_exact_linear_calculation && test_large_values)
    ≡ true
unfolding new calculate_difficulty
linear_tests = refl
