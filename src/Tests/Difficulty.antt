-- ===== src/Tests/Difficulty.antt =====
-- The unit tests of src/pow.rs on the difficulty.
use faucet_api.Common.{
  true, ℕ, ◌≤◌, ◌<◌, ◌^◌, inr, arith, ◌*◌, ◌≡◌, refl, false, Result, ok, ◌>>=◌, List, [], ◌∷◌, map,
}
use faucet_api.Float
use faucet_api.Float.{F32, finite}
use faucet_api.Pow.Difficulty.Range.{difficulty_in_range, difficulty_antitone}
use faucet_api.Pow.Difficulty.Documented.{IsDocumented, calculate_difficulty-IsDocumented}
use faucet_api.Pow.Difficulty.{DifficultyConfig, DifficultyConfigError, new, calculate_difficulty}

abbrev ten : F32
ten = finite false (10 * Float.one)

difficulties : ℕ → ℕ → ℕ → ℕ → F32 → List ℕ → Result (List ℕ) DifficultyConfigError
unfolding new calculate_difficulty
difficulties big_m m b q l xs = new big_m m b q l >>= λ c. ok (map (calculate_difficulty c) xs)

test_linear :
    difficulties 255 20 0 10_000 ten
      (0 ∷ 1 ∷ 25_000 ∷ 50_000 ∷ 75_000 ∷ 99_999 ∷ 100_000 ∷ 1_000_000 ∷ [])
    ≡ ok (255 ∷ 255 ∷ 196 ∷ 138 ∷ 79 ∷ 20 ∷ 20 ∷ 20 ∷ [])
unfolding difficulties
test_linear = refl

-- The range of docs/pow.md is left for these: 16 is below the minimum of 17, 32 above the maximum of 30.
below_m : difficulties 40 17 7_500_000_000 1000 ten (7_500_009_810 ∷ []) ≡ ok (16 ∷ [])
unfolding difficulties
below_m = refl

above_big_m : difficulties 30 20 3_400_000_000 100 ten (3_400_000_176 ∷ []) ≡ ok (32 ∷ [])
unfolding difficulties
above_big_m = refl

-- The first configuration with a minimum balance.
abbrev minimum_config : DifficultyConfig
minimum_config = record {
  big_m = 255;
  m = 20;
  b = finite false (50_000 * Float.one);
  min_diff_start = finite false (150_000 * Float.one);
  precompute_big_a = Float.div (finite true (235 * Float.one)) (finite false (100_000 * Float.one));
  precompute_big_b = finite false (745 * 2 ^ 148);
}

minimum_accepted : new 255 20 50_000 10_000 ten ≡ ok minimum_config
unfolding new Float.div
minimum_accepted = refl

below_255 : 50_000 * Float.one < 255 * (10 * Float.one * 10_000)
below_255 = omega arith

difficulty_in_range_example :
    (20 ≤ calculate_difficulty minimum_config 100_000)
    × (calculate_difficulty minimum_config 100_000 ≤ 255)
difficulty_in_range_example =
    difficulty_in_range 255 20 50_000 10_000 (10 * Float.one) minimum_config 100_000 (omega arith)
      (omega arith) (omega arith) (omega arith) (inr (omega arith, below_255)) minimum_accepted

difficulty_antitone_example :
    calculate_difficulty minimum_config 100_000 ≤ calculate_difficulty minimum_config 75_000
difficulty_antitone_example =
    difficulty_antitone 255 20 50_000 10_000 (10 * Float.one) minimum_config 75_000 100_000
      (omega arith) (omega arith) (omega arith) (omega arith) (inr (omega arith, below_255))
      minimum_accepted (omega arith)

calculate_difficulty-IsDocumented_example :
    IsDocumented 255 20 50_000
      (10 * Float.one * 10_000)
      100_000
      (calculate_difficulty minimum_config 100_000)
calculate_difficulty-IsDocumented_example =
    calculate_difficulty-IsDocumented 255 20 50_000 10_000 (10 * Float.one) minimum_config 100_000
      (omega arith) (omega arith) (omega arith) (omega arith) (omega arith) minimum_accepted
