-- ===== src/Pow/Difficulty/Closeness.antt =====
-- The line of docs/pow.md and `calculate_difficulty` of src/pow.rs in whole numbers, all of them products with the
-- range of the line.
use native.Mathlib.Nat.{mul-le-mul_left, mul-le-mul_right, le_of_lt}
use faucet_api.Common.{ℕ, ◌+◌, ◌-◌, ◌*◌, ◌/◌, ◌^◌, ◌≤◌, ◌≡◌, ◌⊎◌, ap, inl, inr, arith, min}
use faucet_api.Float.{one}
use faucet_api.Float.Rounding.{round_ratio}
use faucet_api.Float.Rounding.Bounds.{lt-eq-gt}
use faucet_api.Float.Rounding.Near.{Near}
use faucet_api.Float.Exact.{round_ratio-error, round_ratio-error_below}
use faucet_api.Pow.Difficulty.Line.{on_line}

-- The fall below the maximum, times the range of the line `d`, against the exact one; `e` is the balance at its end.
pub fall-close :
    (k d e w x : ℕ)
    → k ≤ 255
    → d ≤ e
    → Near 11 (w * d) (k * one * one * (x * one))
    → x * one * 2 ^ 23 ≤ e * (2 ^ 23 + 11)
    → (2 ^ 11 * (round_ratio w one * d) ≤ 2 ^ 11 * (k * (x * one) * one) + e * one)
      × (2 ^ 11 * (k * (x * one) * one) ≤ 2 ^ 11 * (round_ratio w one * d) + e * one)
fall-close k d e w x small part near within =
    let above = mul-le-mul_right d (round_ratio-error w one (omega arith)) in
    let below = mul-le-mul_right d (round_ratio-error_below w one (omega arith)) in
    let most : k * (x * one * 2 ^ 23) ≤ k * (e * (2 ^ 23 + 11)) = mul-le-mul_left k within in
    let range : k * e ≤ 255 * e = mul-le-mul_right e small in
    let near_above : w * d * 2 ^ 23 ≤ k * (x * one) * (one * one) * (2 ^ 23 + 11) =
      omega (arith, near.above) in
    let near_below : k * (x * one) * (one * one) * 2 ^ 23 ≤ w * d * (2 ^ 23 + 11) =
      omega (arith, near.below) in
    (omega (arith, above, near_above, most, range), omega (arith, below, near_below, most, range))

-- A product with a range of at most 255 has a bound in `e`.
pub fall-bound :
    (k e x f_d : ℕ)
    → k ≤ 255
    → x * one * 2 ^ 23 ≤ e * (2 ^ 23 + 11)
    → 2 ^ 11 * f_d ≤ 2 ^ 11 * (k * (x * one) * one) + e * one
    → f_d ≤ 256 * (e * one)
fall-bound k e x f_d small within above =
    let most : k * (x * one * 2 ^ 23) ≤ k * (e * (2 ^ 23 + 11)) = mul-le-mul_left k within in
    let range : k * e ≤ 255 * e = mul-le-mul_right e small in omega (arith, most, range)

-- The intercept, times `d`.
pub top-close :
    (big_m h d e : ℕ)
    → big_m ≤ 255
    → d ≤ e
    → h * d ≤ 256 * (e * one)
    → let top : ℕ = round_ratio (big_m * one + h) 1 in
      (2 ^ 14 * (top * d) ≤ 2 ^ 14 * (big_m * d * one + h * d) + e * one)
      × (2 ^ 14 * (big_m * d * one + h * d) ≤ 2 ^ 14 * (top * d) + e * one)
      × (top * d ≤ 512 * (e * one))
top-close big_m h d e small part few =
    let above = mul-le-mul_right d (round_ratio-error (big_m * one + h) 1 (omega arith)) in
    let below = mul-le-mul_right d (round_ratio-error_below (big_m * one + h) 1 (omega arith)) in
    let range : big_m * d ≤ 255 * d = mul-le-mul_right d small in
    (omega (arith, above, range), omega (arith, below, range), omega (arith, above, range))

-- The last rounding, times `d`.
pub on_line-close :
    (top f d e : ℕ)
    → d ≤ e
    → top * d ≤ 512 * (e * one)
    → (2 ^ 14 * (on_line top f * d * one) ≤ 2 ^ 14 * ((top - f) * d + 2 ^ 148 * d) + e * one)
      × ((on_line top f ≡ 255)
          ⊎ (2 ^ 14 * ((top - f) * d) ≤ 2 ^ 14 * (on_line top f * d * one + 2 ^ 148 * d) + e * one))
unfolding on_line
on_line-close top f d e part few =
    let v : ℕ = round_ratio (top - f) 1 in
    let above = mul-le-mul_right d (round_ratio-error (top - f) 1 (omega arith)) in
    let below = mul-le-mul_right d (round_ratio-error_below (top - f) 1 (omega arith)) in
    let rest : (top - f) * d ≤ top * d = mul-le-mul_right d (omega arith) in
    let line : ℕ = min ((v + 2 ^ 148) / one) 255 in
    let high : line * one * d ≤ (v + 2 ^ 148) * d = mul-le-mul_right d (omega arith) in
    let low : (line ≡ 255) ⊎ (v ≤ line * one + 2 ^ 148) = omega arith in
    (
      omega (arith, above, rest, high),
      elim low [ inl c ↦ inl c | inr l ↦ inr (omega (arith, below, rest, mul-le-mul_right d l)) ],
    )

-- A balance that is at most a little past the end of the line counts as one on it.
pub clamped :
    (k d b x : ℕ)
    → k ≤ 255
    → b ≤ x
    → x * one * 2 ^ 23 ≤ (d + b * one) * (2 ^ 23 + 11)
    → (k * min ((x - b) * one) d + k * (b * one) ≤ k * (x * one))
      × (k * (x * one) * 2 ^ 23
          ≤ (k * min ((x - b) * one) d + k * (b * one)) * 2 ^ 23 + 11 * 255 * (d + b * one))
clamped k d b x small after within =
    let t : ℕ = min ((x - b) * one) d in
    let lower : t + b * one ≤ x * one = omega arith in
    let upper : x * one * 2 ^ 23 ≤ (t + b * one) * 2 ^ 23 + 11 * (d + b * one) = omega arith in
    (
      omega (arith, mul-le-mul_left k lower),
      omega (arith, mul-le-mul_left k upper, mul-le-mul_right (d + b * one) small),
    )

-- Two numbers, times `d`, that differ by at most half of `d` and 2^-9 of `e`.
abbrev pub IsWithin : ℕ → ℕ → ℕ → ℕ → Type 0
IsWithin exact computed d e =
    (2 ^ 9 * computed ≤ 2 ^ 9 * exact + 2 ^ 8 * d + e)
    × (2 ^ 9 * exact ≤ 2 ^ 9 * computed + 2 ^ 8 * d + e)

-- The sum of the bounds, in products with `d`.
pub sum-close :
    (exact intercept fall start rest line far floor near_by d e : ℕ)
    → 2 ^ 14 * (line * one) ≤ 2 ^ 14 * (rest + 2 ^ 148 * d) + e * one
    → (exact ≤ line) ⊎ (2 ^ 14 * rest ≤ 2 ^ 14 * (line * one + 2 ^ 148 * d) + e * one)
    → 2 ^ 14 * intercept ≤ 2 ^ 14 * (exact * one + start) + e * one
    → 2 ^ 14 * (exact * one + start) ≤ 2 ^ 14 * intercept + e * one
    → 2 ^ 11 * fall ≤ 2 ^ 11 * (far * one) + e * one
    → 2 ^ 11 * (far * one) ≤ 2 ^ 11 * fall + e * one
    → 2 ^ 11 * start ≤ 2 ^ 11 * (floor * one) + e * one
    → 2 ^ 11 * (floor * one) ≤ 2 ^ 11 * start + e * one
    → near_by + floor ≤ far
    → far * 2 ^ 23 ≤ (near_by + floor) * 2 ^ 23 + 11 * 255 * e
    → near_by ≤ exact
    → intercept ≤ rest + fall
    → (rest + fall ≤ intercept) ⊎ (rest ≡ 0)
    → IsWithin exact (line + near_by) d e
sum-close exact intercept fall start rest line far floor near_by d e high low i_above i_below
      f_above f_below s_above s_below nearer within under reaches stays =
    (
      elim stays [ inl h ↦ omega arith | inr z ↦ omega arith ],
      elim low [ inl h ↦ omega arith | inr l ↦ omega arith ],
    )

-- What is left below the maximum, times `d`.
pub rest-cases :
    (top f d : ℕ)
    → (top * d ≤ (top - f) * d + f * d) × (((top - f) * d + f * d ≤ top * d) ⊎ ((top - f) * d ≡ 0))
rest-cases top f d = elim (lt-eq-gt f top) [
  | inl l ↦
      let e : top - f + f ≡ top = omega arith in
      let e_d = ap (λ t. t * d) e in (omega (arith, e_d), inl (omega (arith, e_d)))
  | inr (inl e) ↦
      let z : top - f ≡ 0 = omega arith in
      let z_d = ap (λ t. t * d) z in
      let e_d = ap (λ t. t * d) e in (omega (arith, e_d), inr (omega (arith, z_d)))
  | inr (inr g) ↦
      let z : top - f ≡ 0 = omega arith in
      let z_d = ap (λ t. t * d) z in
      let g_d = mul-le-mul_right d (le_of_lt g) in (omega (arith, g_d), inr (omega (arith, z_d)))
]

pub sum-ends :
    (exact bottom range near_by d e : ℕ)
    → range + bottom ≡ exact
    → near_by ≤ range
    → range * 2 ^ 23 ≤ near_by * 2 ^ 23 + 11 * 255 * e
    → IsWithin exact (bottom + near_by) d e
sum-ends exact bottom range near_by d e whole low high = (omega arith, omega arith)
