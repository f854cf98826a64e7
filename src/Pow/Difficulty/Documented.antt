-- ===== src/Pow/Difficulty/Documented.antt =====
-- `calculate_difficulty` of src/pow.rs against the line of docs/pow.md.
use native.Mathlib.Nat.{mul-le-mul_left, mul-le-mul_right, mul-le-mul, le_of_lt}
use mathlib.Core.Path.{subst}
use faucet_api.Common.{ℕ, ◌+◌, ◌-◌, ◌*◌, ◌^◌, ◌≤◌, ◌<◌, ◌≡◌, ap, inl, inr, false, ok, arith, min}
use faucet_api.Float.{finite, one}
use faucet_api.Float.Rounding.{round_ratio}
use faucet_api.Float.Rounding.Bounds.{lt-eq-gt}
use faucet_api.Float.Rounding.Near.{Near}
use faucet_api.Pow.Difficulty.{DifficultyConfig, new, calculate_difficulty}
use faucet_api.Pow.Difficulty.Shape.{new-IsLinear, start_of, top_of}
use faucet_api.Pow.Difficulty.Line.{on_line}
use faucet_api.Pow.Difficulty.Arms.{units, fall_at, Arm, at_minimum, at_maximum, between}
use faucet_api.Pow.Difficulty.Accepts.{IsLinear-Arm}
use faucet_api.Pow.Difficulty.Slope.{
  span_def, span-Near, start-Near, product-Near, before-end, past-end, before-start, past-start,
}
use faucet_api.Pow.Difficulty.Closeness.{
  IsWithin, fall-close, fall-bound, top-close, on_line-close, clamped, sum-close, rest-cases,
  sum-ends,
}

-- The documented difficulty at a balance `x` is a number of parts of the range of the line `d`; what it is compared with
-- is within half a part and 2^-9 of the balance at the end of the line, in the same parts.
abbrev pub IsDocumented : (big_m m b d x difficulty : ℕ) → Type 0
IsDocumented big_m m b d x difficulty =
    IsWithin (big_m * d) (difficulty * d + (big_m - m) * min ((x - b) * one) d) d (d + b * one)

between-IsDocumented :
    (big_m m b d gradient x : ℕ)
    → big_m ≤ 255
    → m ≤ big_m
    → b ≤ x
    → Near 11 (gradient * units x * d) ((big_m - m) * one * one * (x * one))
    → Near 11 (gradient * units b * d) ((big_m - m) * one * one * (b * one))
    → x * one * 2 ^ 23 ≤ (d + b * one) * (2 ^ 23 + 11)
    → IsDocumented big_m m b d x (on_line (top_of big_m gradient b) (fall_at gradient x))
between-IsDocumented big_m m b d gradient x small ordered after near_x near_b within =
    let k : ℕ = big_m - m in
    let e : ℕ = d + b * one in
    let f : ℕ = fall_at gradient x in
    let h : ℕ = fall_at gradient b in
    let top : ℕ = top_of big_m gradient b in
    let k_small : k ≤ 255 = omega arith in
    let (f_above, f_below) =
      fall-close k d e (gradient * units x) x k_small (omega arith) near_x within in
    let (h_above, h_below) =
      fall-close k d e (gradient * units b) b k_small (omega arith) near_b (omega arith) in
    let few = fall-bound k e b (h * d) k_small (omega arith) h_above in
    let (i_above, i_below, i_few) = top-close big_m h d e small (omega arith) few in
    let (high, low) = on_line-close top f d e (omega arith) i_few in
    let (t_low, t_high) = clamped k d b x k_small after within in
    let (reaches, stays) = rest-cases top f d in
    let under : k * min ((x - b) * one) d ≤ big_m * d = mul-le-mul (omega arith) (omega arith) in
    let line : ℕ = on_line top f in
    sum-close (big_m * d) (top * d) (f * d) (h * d) ((top - f) * d) (line * d) (k * (x * one))
      (k * (b * one)) (k * min ((x - b) * one) d) d e high
      (elim low [ inl c ↦ inl (mul-le-mul_right d (omega (arith, c))) | inr l ↦ inr l ]) i_above
      i_below f_above f_below h_above h_below t_low t_high under reaches stays

minimum-IsDocumented :
    (big_m m b d x : ℕ)
    → big_m ≤ 255
    → m ≤ big_m
    → (d + b * one) * 2 ^ 23 ≤ x * one * (2 ^ 23 + 11)
    → IsDocumented big_m m b d x m
minimum-IsDocumented big_m m b d x small ordered past =
    let k : ℕ = big_m - m in
    let e : ℕ = d + b * one in
    let t : ℕ = min ((x - b) * one) d in
    let rest : d * 2 ^ 23 ≤ t * 2 ^ 23 + 11 * e = omega arith in
    let few : k * e ≤ 255 * e = mul-le-mul_right e (omega arith) in
    let low : k * t ≤ k * d = mul-le-mul_left k (omega arith) in
    let high : k * (d * 2 ^ 23) ≤ k * (t * 2 ^ 23 + 11 * e) = mul-le-mul_left k rest in
    let whole : (k + m) * d ≡ big_m * d = ap (λ n. n * d) (omega arith) in
    sum-ends (big_m * d) (m * d) (k * d) (k * t) d e (omega (arith, whole)) low
      (omega (arith, high, few))

maximum-IsDocumented :
    (big_m m b d x : ℕ)
    → big_m ≤ 255
    → x * one * 2 ^ 23 ≤ b * one * (2 ^ 23 + 5)
    → IsDocumented big_m m b d x big_m
maximum-IsDocumented big_m m b d x small before =
    let k : ℕ = big_m - m in
    let t : ℕ = min ((x - b) * one) d in
    let rest : t * 2 ^ 23 ≤ 5 * (d + b * one) = omega arith in
    let high : k * (t * 2 ^ 23) ≤ k * (5 * (d + b * one)) = mul-le-mul_left k rest in
    let few : k * (d + b * one) ≤ 255 * (d + b * one) =
      mul-le-mul_right (d + b * one) (omega arith) in
    (omega (arith, high, few), omega arith)

Arm-IsDocumented :
    {big_m m : ℕ} (b span d : ℕ) {balance difficulty : ℕ}
    → big_m ≤ 255
    → m ≤ big_m
    → 2 ^ 126 ≤ span
    → d ≤ 2 ^ 274
    → Near 5 span d
    → let gradient : ℕ = round_ratio ((big_m - m) * one * one) span in
      Arm big_m m (units b) (start_of b span) (top_of big_m gradient b) gradient balance difficulty
      → IsDocumented big_m m b d balance difficulty
Arm-IsDocumented {big_m} {m} b span d {balance} small ordered large few near (at_minimum past) =
    minimum-IsDocumented big_m m b d balance small ordered
      (past-end balance (d + b * one) (start_of b span) (start-Near b span d large near) past)
Arm-IsDocumented {big_m} {m} b span d {balance} small ordered large few near
      (at_maximum before none) =
    maximum-IsDocumented big_m m b d balance small (before-start balance b none)
Arm-IsDocumented {big_m} {m} b span d {balance} small ordered large few near
      (between before some_left) =
    let k_small : big_m - m ≤ 255 = omega arith in
    between-IsDocumented big_m m b d (round_ratio ((big_m - m) * one * one) span) balance small
      ordered (le_of_lt (past-start balance b some_left))
      (product-Near (big_m - m) d span balance k_small (omega arith) few near)
      (product-Near (big_m - m) d span b k_small (omega arith) few near)
      (before-end balance (d + b * one) (start_of b span) (start-Near b span d large near)
        (le_of_lt before))

-- The formula of docs/pow.md, max(m, min(M, M - (M - m) (x - b) / (L q))), against the code: for a configuration that
-- `new` accepts, where the coefficient L is `u` units of 2^-149 and L q is at most 2^125, the difficulty at a `u64`
-- balance differs from the formula's value by at most 1/2 + (1 + b / (L q)) / 512, all rounding of the `f32`
-- arithmetic included.
pub calculate_difficulty-IsDocumented :
    (big_m m b q u : ℕ) (c : DifficultyConfig) (balance : ℕ)
    → big_m ≤ 255
    → b < 2 ^ 64
    → q < 2 ^ 64
    → u * q ≤ 2 ^ 274
    → balance < 2 ^ 64
    → new big_m m b q (finite false u) ≡ ok c
    → IsDocumented big_m m b (u * q) balance (calculate_difficulty c balance)
calculate_difficulty-IsDocumented big_m m b q u c balance small b_sats sats few balance_sats h =
    let lin = new-IsLinear big_m m b q (finite false u) c small b_sats h in
    let span = span_def big_m m b q u c sats lin in
    let near : Near 5 lin.span (u * q) = rw span (span-Near u q (rw span at lin.span_large)) in
    Arm-IsDocumented b lin.span (u * q) small lin.ordered lin.span_large few near (
      subst
        (λ g.
          Arm big_m m (units b) (start_of b lin.span) (top_of big_m g b) g balance
            (calculate_difficulty c balance))
        lin.gradient_def
        (IsLinear-Arm big_m m b q (finite false u) c lin balance small b_sats balance_sats))

in_parts : (n k d e : ℕ) → 2 ^ 9 * (n * d) ≤ 2 ^ 9 * (k * d) + 2 ^ 8 * d + e → e < 2 ^ 8 * d → n ≤ k
in_parts n k d e h few = elim (lt-eq-gt n k) [
  | inl l ↦ le_of_lt l
  | inr (inl e) ↦ omega arith
  | inr (inr g) ↦ absurd (omega (arith, mul-le-mul_right d g, h, few))
]

-- Near the formula's value by less than one, a difficulty is in its range.
pub IsDocumented-range :
    (big_m m b d x difficulty : ℕ)
    → m ≤ big_m
    → b * one < 255 * d
    → IsDocumented big_m m b d x difficulty
    → (m ≤ difficulty) × (difficulty ≤ big_m)
IsDocumented-range big_m m b d x difficulty ordered few (high, low) =
    let t : ℕ = min ((x - b) * one) d in
    let fall : (big_m - m) * t ≤ (big_m - m) * d = mul-le-mul_left (big_m - m) (omega arith) in
    let whole : (big_m - m + m) * d ≡ big_m * d = ap (λ n. n * d) (omega arith) in
    (
      in_parts m difficulty d (d + b * one) (omega (arith, low, fall, whole)) (omega arith),
      in_parts difficulty big_m d (d + b * one) (omega (arith, high)) (omega arith),
    )
