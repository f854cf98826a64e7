-- ===== src/Pow/Difficulty/Line.antt =====
-- The linear part of `calculate_difficulty` of src/pow.rs in numbers: `round` of the maximum less a product
-- with the gradient, as a `u8`.
use native.Mathlib.Nat.{
  le_of_mul-le-mul_left, mul-le-mul_left, mul-le-mul_right, mul-div_cancel, le_of_lt,
}
use faucet_api.Common.{
  ℕ, zero, suc, ◌+◌, ◌-◌, ◌*◌, ◌/◌, ◌^◌, ◌≤◌, ◌<◌, ◌≡◌, ◌⊎◌, refl, sym, ap, ◌∙◌, inl, inr, Bool,
  true, false, arith, min,
}
use faucet_api.Float
use faucet_api.Float.{F32, finite, inf, one, nearest, overflow, round, as_u8}
use faucet_api.Float.Rounding.{round_ratio}
use faucet_api.Float.Rounding.Bounds.{
  round_ratio-le, le-round_ratio, round_ratio_mono, div-le-div, lt-eq-gt,
}
use faucet_api.Float.Exact.{round_ratio-error, nearest-finite}
use faucet_api.Float.Operations.{add-same, add-less, add-more, add_cancel, nearest-cases, xor-not}

-- The difficulty at a point that is `p` units below `top`.
unfoldable pub on_line : ℕ → ℕ → ℕ
on_line top p = min ((round_ratio (top - p) 1 + 2 ^ 148) / one) 255

-- What the gradient takes off before the start of the minimum: no more than the whole fall and a little.
pub fall-le :
    (k start x : ℕ)
    → k ≤ 255
    → 0 < start
    → x < start
    → x ≤ 2 ^ 213
    → round_ratio (round_ratio (k * one * one) start * x) one ≤ (k * 2 ^ 15 + 1) * 2 ^ 134
fall-le k start x small p before few =
    let a : ℕ = round_ratio (k * one * one) start in
    let error = round_ratio-error (k * one * one) start p in
    let scaled : start * (2 ^ 24 * (a * x))
        ≤ start * (2 ^ 24 * (k * one * one) + k * one * one + 2 ^ 23 * x) =
      omega (arith, mul-le-mul_right x error, mul-le-mul_left k (le_of_lt before)) in
    let product : 2 ^ 24 * (a * x) ≤ 2 ^ 24 * (k * one * one) + k * one * one + 2 ^ 23 * x =
      le_of_mul-le-mul_left scaled p in
    round_ratio-le (a * x) one (k * 2 ^ 15 + 1) 134 (omega arith) (omega arith) (omega arith)

pub on_line-le : (big_m p : ℕ) → big_m ≤ 255 → on_line (big_m * one) p ≤ big_m
unfolding on_line
on_line-le big_m p small =
    let top : round_ratio (big_m * one - p) 1 ≤ big_m * 2 ^ 149 =
      round_ratio-le (big_m * one - p) 1 big_m 149 (omega arith) (omega arith) (omega arith) in
    omega arith

pub le-on_line :
    (big_m m p : ℕ)
    → big_m ≤ 255
    → m ≤ big_m
    → p ≤ ((big_m - m) * 2 ^ 15 + 1) * 2 ^ 134
    → m ≤ on_line (big_m * one) p
unfolding on_line
le-on_line big_m zero p small h fall = omega arith
le-on_line big_m (suc m) p small h fall =
    let bottom : (m * 2 ^ 15 + (2 ^ 15 - 1)) * 2 ^ 134 ≤ round_ratio (big_m * one - p) 1 =
      le-round_ratio (big_m * one - p) 1 (m * 2 ^ 15 + (2 ^ 15 - 1)) 134 (omega arith) (omega arith)
        (omega arith) in
    omega arith

pub on_line-antitone : (top p p' : ℕ) → p ≤ p' → on_line top p' ≤ on_line top p
unfolding on_line
on_line-antitone top p p' h =
    let r = round_ratio_mono (top - p') (top - p) 1 (omega arith) (omega arith) in
    let d =
      div-le-div (round_ratio (top - p') 1 + 2 ^ 148) (round_ratio (top - p) 1 + 2 ^ 148) one
        (omega arith) (omega arith) in
    omega arith

round-as_u8 : (n : ℕ) → as_u8 (round (finite false n)) ≡ min ((n + 2 ^ 148) / one) 255
unfolding round as_u8
round-as_u8 n = ap (λ t. min t 255) (mul-div_cancel ((n + 2 ^ 148) / one) (omega arith))

negative-as_u8 : (x : F32) → ((n : ℕ) × (x ≡ finite true n)) ⊎ (x ≡ inf true) → as_u8 (round x) ≡ 0
unfolding round as_u8
negative-as_u8 x (inl (n, e)) = rw e refl
negative-as_u8 x (inr e) = rw e refl

below :
    {x : F32} {n : ℕ}
    → (x ≡ inf true) ⊎ (x ≡ finite true n)
    → ((n : ℕ) × (x ≡ finite true n)) ⊎ (x ≡ inf true)
below (inl e) = inr e
below {x} {n} (inr e) = inl (n, e)

positive-sum :
    (top p : ℕ)
    → round_ratio top 1 < overflow
    → as_u8 (round (nearest false (top - p) 1)) ≡ on_line top p
unfolding on_line
positive-sum top p room =
    let smaller = round_ratio_mono (top - p) top 1 (omega arith) (omega arith) in
    ap (λ x. as_u8 (round x)) (nearest-finite false (top - p) 1 (omega arith))
    ∙ round-as_u8 (round_ratio (top - p) 1)

on_line-end : (top p : ℕ) → top ≤ p → on_line top p ≡ 0
unfolding on_line
on_line-end top p h =
    let none : round_ratio (top - p) 1 ≤ 0 * 2 ^ 0 =
      round_ratio-le (top - p) 1 0 0 (omega arith) (omega arith) (omega arith) in
    omega arith

-- The sum of the product and the intercept, rounded and cast, is the point of the line.
pub sum-on_line :
    (negative : Bool) (top p : ℕ)
    → round_ratio top 1 < overflow
    → (negative ≡ true) ⊎ (p ≡ 0)
    → as_u8 (round (Float.add (finite negative p) (finite false top))) ≡ on_line top p
sum-on_line false top p room (inl e) = absurd (ground arith)
sum-on_line false top p room (inr e) =
    ap (λ x. as_u8 (round x)) (add-same false p top ∙ ap (λ t. nearest false t 1) (omega arith))
    ∙ positive-sum top p room
sum-on_line true top p room sign = elim (lt-eq-gt p top) [
  | inl l ↦
      ap (λ x. as_u8 (round x)) (add-less true false p top (xor-not true) l)
      ∙ positive-sum top p room
  | inr (inl e) ↦
      ap (λ t. as_u8 (round (Float.add (finite true p) (finite false t)))) (sym e)
      ∙ ap (λ x. as_u8 (round x)) (add_cancel true false p (xor-not true))
      ∙ round-as_u8 0
      ∙ sym (on_line-end top p (omega arith))
  | inr (inr g) ↦
      ap (λ x. as_u8 (round x)) (add-more true false p top (xor-not true) g)
      ∙ negative-as_u8 (nearest true (p - top) 1) (below (nearest-cases true (p - top) 1))
      ∙ sym (on_line-end top p (omega arith))
]
