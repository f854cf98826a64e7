-- ===== src/Pow/Difficulty/Range.antt =====
-- `calculate_difficulty` of src/pow.rs over all balances.
use native.Mathlib.Nat.{mul-le-mul_left}
use faucet_api.Common.{ℕ, false, ◌+◌, ◌-◌, ◌*◌, ◌^◌, ◌≤◌, ◌<◌, ◌≡◌, ◌⊎◌, inl, inr, arith, ok}
use faucet_api.Float.{F32, finite, one}
use faucet_api.Float.Rounding.Bounds.{round_ratio_mono}
use faucet_api.Float.Exact.{of_nat-sats}
use faucet_api.Pow.Difficulty.{DifficultyConfig, new, calculate_difficulty}
use faucet_api.Pow.Difficulty.Shape.{IsLinear, new-IsLinear}
use faucet_api.Pow.Difficulty.Accepts.{IsLinear-Arm, IsLinear-Arm_zero}
use faucet_api.Pow.Difficulty.Documented.{IsDocumented-range, calculate_difficulty-IsDocumented}
use faucet_api.Pow.Difficulty.Line.{fall-le, on_line-le, le-on_line, on_line-antitone}
use faucet_api.Pow.Difficulty.Arms.{units, fall_at, Arm, at_minimum, at_maximum, between}

IsLinear-fall :
    (big_m m q : ℕ) (big_l : F32) (c : DifficultyConfig)
    → (lin : IsLinear big_m m 0 q big_l c) (balance : ℕ) → big_m ≤ 255
    → balance < 2 ^ 64
    → units balance < lin.span
    → fall_at lin.gradient balance ≤ ((big_m - m) * 2 ^ 15 + 1) * 2 ^ 134
IsLinear-fall big_m m q big_l c lin balance small sats before = rw lin.gradient_def (
    fall-le (big_m - m) lin.span (units balance) (omega arith) (omega (arith, lin.span_large))
      before (of_nat-sats balance sats).1)

Arm-range :
    {big_m m start gradient balance d : ℕ}
    → big_m ≤ 255
    → m ≤ big_m
    → (units balance < start → fall_at gradient balance ≤ ((big_m - m) * 2 ^ 15 + 1) * 2 ^ 134)
    → Arm big_m m 0 start (big_m * one) gradient balance d
    → (m ≤ d) × (d ≤ big_m)
Arm-range small h fall (at_minimum p) = (omega arith, h)
Arm-range small h fall (at_maximum p q) = (h, omega arith)
Arm-range {big_m} {m} {start} {gradient} {balance} small h fall (between p q) = (
  le-on_line big_m m (fall_at gradient balance) small h (fall p),
  on_line-le big_m (fall_at gradient balance) small,
)

Arm-antitone :
    {big_m m floor start top gradient balance balance' d d' : ℕ}
    → units balance ≤ units balance'
    → Arm big_m m floor start top gradient balance d
    → Arm big_m m floor start top gradient balance' d'
    → (m ≤ d) × (d ≤ big_m)
    → (m ≤ d') × (d' ≤ big_m)
    → d' ≤ d
Arm-antitone h (at_minimum p) (at_minimum p') r r' = omega arith
Arm-antitone h (at_minimum p) (at_maximum p' z) r r' = absurd (omega arith)
Arm-antitone h (at_minimum p) (between p' z) r r' = absurd (omega arith)
Arm-antitone h (at_maximum p z) a r r' = r'.1
Arm-antitone h (between p z) (at_minimum p') r r' = r.0
Arm-antitone h (between p z) (at_maximum p' z') r r' = absurd (omega arith)
Arm-antitone {big_m} {m} {floor} {start} {top} {gradient} {balance} {balance'} h (between p z)
      (between p' z') r r' =
    on_line-antitone top (fall_at gradient balance) (fall_at gradient balance') (
      round_ratio_mono (gradient * units balance) (gradient * units balance') one (omega arith)
        (mul-le-mul_left gradient h))

-- With no minimum balance, whatever the coefficient.
pub in_range_zero :
    (big_m m q : ℕ) (big_l : F32) (c : DifficultyConfig) (balance : ℕ)
    → big_m ≤ 255
    → balance < 2 ^ 64
    → new big_m m 0 q big_l ≡ ok c
    → (m ≤ calculate_difficulty c balance) × (calculate_difficulty c balance ≤ big_m)
in_range_zero big_m m q big_l c balance small sats h =
    let lin = new-IsLinear big_m m 0 q big_l c small (omega arith) h in
    Arm-range small lin.ordered
      (λ before. IsLinear-fall big_m m q big_l c lin balance small sats before)
      (IsLinear-Arm_zero big_m m q big_l c lin balance small sats)

in_range_near :
    (big_m m b q u : ℕ) (c : DifficultyConfig) (balance : ℕ)
    → big_m ≤ 255
    → b < 2 ^ 64
    → q < 2 ^ 64
    → balance < 2 ^ 64
    → u * q ≤ 2 ^ 274
    → b * one < 255 * (u * q)
    → new big_m m b q (finite false u) ≡ ok c
    → (m ≤ calculate_difficulty c balance) × (calculate_difficulty c balance ≤ big_m)
in_range_near big_m m b q u c balance small b_sats q_sats sats few near h =
    let lin = new-IsLinear big_m m b q (finite false u) c small b_sats h in
    IsDocumented-range big_m m b (u * q) balance (calculate_difficulty c balance) lin.ordered near
      (calculate_difficulty-IsDocumented big_m m b q u c balance small b_sats q_sats few sats h)

-- Let `new` accept a configuration whose coefficient L is `u` units of 2^-149, with a maximum that is a `u8` and a
-- minimum balance that is zero, or below 255 L q where L q is at most 2^125. At every balance that is a `u64` the
-- difficulty is between the minimum and the maximum, all rounding of the `f32` arithmetic included.
pub difficulty_in_range :
    (big_m m b q u : ℕ) (c : DifficultyConfig) (balance : ℕ)
    → big_m ≤ 255
    → b < 2 ^ 64
    → q < 2 ^ 64
    → balance < 2 ^ 64
    → (b ≡ 0) ⊎ ((u * q ≤ 2 ^ 274) × (b * one < 255 * (u * q)))
    → new big_m m b q (finite false u) ≡ ok c
    → (m ≤ calculate_difficulty c balance) × (calculate_difficulty c balance ≤ big_m)
difficulty_in_range big_m m b q u c balance small b_sats q_sats sats near h = elim near [
  | inl e ↦ in_range_zero big_m m q (finite false u) c balance small sats (rw e at h)
  | inr (few, n) ↦ in_range_near big_m m b q u c balance small b_sats q_sats sats few n h
]

-- Let `new` accept a configuration whose coefficient L is `u` units of 2^-149, with a maximum that is a `u8` and a
-- minimum balance that is zero, or below 255 L q where L q is at most 2^125. A higher balance, up to a `u64`, never
-- gets a higher difficulty, all rounding of the `f32` arithmetic included.
pub difficulty_antitone :
    (big_m m b q u : ℕ) (c : DifficultyConfig) (balance balance' : ℕ)
    → big_m ≤ 255
    → b < 2 ^ 64
    → q < 2 ^ 64
    → balance' < 2 ^ 64
    → (b ≡ 0) ⊎ ((u * q ≤ 2 ^ 274) × (b * one < 255 * (u * q)))
    → new big_m m b q (finite false u) ≡ ok c
    → balance ≤ balance'
    → calculate_difficulty c balance' ≤ calculate_difficulty c balance
difficulty_antitone big_m m b q u c balance balance' small b_sats q_sats sats near h le =
    let lin = new-IsLinear big_m m b q (finite false u) c small b_sats h in
    let sats' : balance < 2 ^ 64 = omega arith in
    Arm-antitone (round_ratio_mono (balance * one) (balance' * one) 1 (omega arith) (omega arith))
      (IsLinear-Arm big_m m b q (finite false u) c lin balance small b_sats sats')
      (IsLinear-Arm big_m m b q (finite false u) c lin balance' small b_sats sats)
      (difficulty_in_range big_m m b q u c balance small b_sats q_sats sats' near h)
      (difficulty_in_range big_m m b q u c balance' small b_sats q_sats sats near h)
