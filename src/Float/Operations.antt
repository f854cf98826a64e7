-- ===== src/Float/Operations.antt =====
-- The operations of `f32` that src/pow.rs uses, on finite values and at zero.
use native.Mathlib.Nat.{mul-zero}
use mathlib.Core.Bool.{xor}
use faucet_api.Common.{
  ℕ, suc, zero, ◌+◌, ◌-◌, ◌*◌, ◌^◌, ◌≤◌, ◌<◌, ◌≡◌, ◌⊎◌, refl, sym, ap, ◌∙◌, inl, inr, Bool, true,
  false, not, arith,
}
use faucet_api.Float.{
  F32, finite, inf, nan, nearest, of_nat, one, add, sub, mul, div, le, lt, abs, epsilon, is_finite,
}
use faucet_api.Float.Rounding.{round_ratio}
use faucet_api.Float.Exact.{nearest-finite, round_ratio-exact, of_nat_def}

-- A rounded value is infinite or finite, with the sign that it was given.
pub nearest-cases :
    (s : Bool) (num den : ℕ)
    → (nearest s num den ≡ inf s) ⊎ (nearest s num den ≡ finite s (round_ratio num den))
unfolding nearest
nearest-cases s num den = ground arith

pub nearest-is_finite :
    (s : Bool) (num den : ℕ)
    → is_finite (nearest s num den) ≡ true
    → nearest s num den ≡ finite s (round_ratio num den)
unfolding is_finite
nearest-is_finite s num den h = elim (nearest-cases s num den) [
  | inl i ↦ absurd (ground arith)
  | inr f ↦ f
]

pub xor-false : (s : Bool) → xor s false ≡ s
unfolding xor
xor-false true = refl
xor-false false = refl

pub xor-not : (s : Bool) → xor s (not s) ≡ true
unfolding xor
xor-not true = refl
xor-not false = refl

pub mul_def : (s t : Bool) (a b : ℕ) → mul (finite s a) (finite t b) ≡ nearest (xor s t) (a * b) one
unfolding mul
mul_def s t a b = refl

pub div_def :
    (s t : Bool) (a b : ℕ) → 0 < b → div (finite s a) (finite t b) ≡ nearest (xor s t) (a * one) b
unfolding div
div_def s t a zero p = absurd (omega arith)
div_def s t a (suc b) p = ground arith

pub sub_def : (x : F32) (t : Bool) (b : ℕ) → sub x (finite t b) ≡ add x (finite (not t) b)
unfolding sub
sub_def x t b = refl

pub add-same : (s : Bool) (a b : ℕ) → add (finite s a) (finite s b) ≡ nearest s (a + b) 1
unfolding add
add-same true a b = refl
add-same false a b = refl

-- Opposite signs: the larger one's sign remains.
pub add-less :
    (s t : Bool) (a b : ℕ)
    → xor s t ≡ true
    → a < b
    → add (finite s a) (finite t b) ≡ nearest t (b - a) 1
unfolding add
add-less s t a b x h = rw x (ground arith)

pub add-more :
    (s t : Bool) (a b : ℕ)
    → xor s t ≡ true
    → b < a
    → add (finite s a) (finite t b) ≡ nearest s (a - b) 1
unfolding add
add-more s t a b x h = rw x (ground arith)

pub add_cancel :
    (s t : Bool) (a : ℕ) → xor s t ≡ true → add (finite s a) (finite t a) ≡ finite false 0
unfolding add
add_cancel s t a x = rw x (ground arith)

mul-inf : (s : Bool) (a : ℕ) → is_finite (mul (finite s a) (inf false)) ≡ false
unfolding mul is_finite
mul-inf s a = ground arith

inf-mul : (s : Bool) (y : F32) → is_finite (mul (inf s) y) ≡ false
unfolding mul is_finite
inf-mul s (finite t b) = ground arith
inf-mul s (inf t) = refl
inf-mul s nan = refl

nan-mul : (y : F32) → is_finite (mul nan y) ≡ false
unfolding mul is_finite
nan-mul y = refl

negative-le : (a : ℕ) → le (finite true a) (finite false 0) ≡ true
unfolding le
negative-le a = refl

-- A product with a positive factor that is finite and not below zero is positive.
pub mul-positive :
    (x : F32) (q : ℕ)
    → le x (finite false 0) ≡ false
    → is_finite (mul x (of_nat q)) ≡ true
    → (num : ℕ) × (mul x (of_nat q) ≡ finite false (round_ratio num one))
mul-positive (finite true a) q positive h = absurd (ground (arith, negative-le a))
mul-positive (inf s) q positive h = absurd (ground (arith, inf-mul s (of_nat q)))
mul-positive nan q positive h = absurd (ground (arith, nan-mul (of_nat q)))
mul-positive (finite false a) q positive h = elim (nearest-cases false (q * one) 1) [
  | inl i ↦
      let at_inf = ap (mul (finite false a)) (of_nat_def q ∙ i) in
      absurd (ground (arith, mul-inf false a, at_inf))
  | inr f ↦
      let product =
        ap (mul (finite false a)) (of_nat_def q ∙ f)
        ∙ mul_def false false a _
        ∙ ap (λ s. nearest s (a * round_ratio (q * one) 1) one) (xor-false false) in
      (
        a * round_ratio (q * one) 1,
        product ∙ nearest-is_finite false _ one (ap is_finite (sym product) ∙ h),
      )
]

pub mul_zero : (s : Bool) (a : ℕ) → mul (finite s a) (finite false 0) ≡ finite s 0
mul_zero s a =
    mul_def s false a 0
    ∙ rw (xor-false s, mul-zero a)
        (nearest-finite s 0 one (omega (arith, none)) ∙ ap (finite s) none)
  where
    none : round_ratio 0 one ≡ 0
    none = round_ratio-exact 0 0 one (omega arith) (omega arith)

-- What passed the test against `f32::EPSILON`.
pub not-lt-epsilon : (d : ℕ) → lt (abs (finite false d)) epsilon ≡ false → 2 ^ 126 ≤ d
unfolding lt abs
not-lt-epsilon d h = ground arith
