-- ===== src/Pow/Difficulty/Steps.antt =====
-- The computed steps of `DifficultyConfig::new` of src/pow.rs, one by one, as numbers of units.
use faucet_api.Common.{
  ℕ, zero, suc, ◌+◌, ◌-◌, ◌*◌, ◌≤◌, ◌<◌, ◌≡◌, ◌⊎◌, refl, sym, ap, ◌∙◌, inl, inr, Bool, true, false,
  arith,
}
use faucet_api.Float
use native.Mathlib.Nat.{eq-or-lt_of_le}
use faucet_api.Float.Exact.{of_nat-byte, nearest-byte}
use faucet_api.Float.Operations.{
  nearest-is_finite, mul_def, xor-false, xor-not, div_def, sub_def, add-same, add-less, add-more,
  add_cancel,
}
use faucet_api.Float.{F32, finite, one, nearest}
use faucet_api.Float.Rounding.{round_ratio}

-- The numerator of the gradient, from values that are exact.
pub numerator :
    (big_m m : ℕ)
    → m ≤ big_m
    → big_m ≤ 255
    → (negative : Bool) × (Float.sub (Float.of_nat m) (Float.of_nat big_m)
        ≡ finite negative ((big_m - m) * one))
      × ((negative ≡ true) ⊎ (big_m ≡ m))
numerator big_m m h small =
    rw
      (
        of_nat-byte big_m small,
        of_nat-byte m (omega arith),
        sub_def (finite false (m * one)) false (big_m * one),
      )
      (elim (eq-or-lt_of_le h) [
        | inl e ↦ (
          false,
          ap (λ t. Float.add (finite false (t * one)) (finite true (big_m * one))) e
              ∙ add_cancel false true (big_m * one) (xor-not false)
              ∙ ap (finite false) (omega arith),
          inr (sym e),
        )
        | inr l ↦ (
          true,
          add-less false true (m * one) (big_m * one) (xor-not false) (omega arith)
              ∙ ap (λ t. nearest true t 1) (omega arith)
              ∙ nearest-byte true (big_m - m) (omega arith),
          inl refl,
        )
      ])

pub quotient :
    (s : Bool) (n d : ℕ)
    → 0 < d
    → Float.is_finite (Float.div (finite s n) (finite false d)) ≡ true
    → Float.div (finite s n) (finite false d) ≡ finite s (round_ratio (n * one) d)
quotient s n d p h =
    let e = div_def s false n d p ∙ ap (λ t. nearest t (n * one) d) (xor-false s) in
    e ∙ nearest-is_finite s (n * one) d (ap Float.is_finite (sym e) ∙ h)

pub add-zero-byte :
    (t : Bool) (n : ℕ)
    → n ≤ 255
    → Float.add (finite false (n * one)) (finite t 0) ≡ finite false (n * one)
add-zero-byte false n h =
    add-same false (n * one) 0 ∙ ap (λ t. nearest false t 1) (omega arith) ∙ nearest-byte false n h
add-zero-byte true zero h = add_cancel false true 0 (xor-not false)
add-zero-byte true (suc n) h =
    add-more false true (suc n * one) 0 (xor-not false) (omega arith)
    ∙ ap (λ t. nearest false t 1) (omega arith)
    ∙ nearest-byte false (suc n) h

pub start-sum :
    (floor span : ℕ)
    → Float.is_finite (Float.add (finite false floor) (finite false span)) ≡ true
    → Float.add (finite false floor) (finite false span)
      ≡ finite false (round_ratio (floor + span) 1)
start-sum floor span h =
    let sum = add-same false floor span in
    sum ∙ nearest-is_finite false (floor + span) 1 (ap Float.is_finite (sym sum) ∙ h)

pub fall-product :
    (s : Bool) (gradient floor : ℕ)
    → Float.is_finite (Float.mul (finite s gradient) (finite false floor)) ≡ true
    → Float.mul (finite s gradient) (finite false floor)
      ≡ finite s (round_ratio (gradient * floor) one)
fall-product s gradient floor h =
    let e =
      mul_def s false gradient floor ∙ ap (λ t. nearest t (gradient * floor) one) (xor-false s) in
    e ∙ nearest-is_finite s (gradient * floor) one (ap Float.is_finite (sym e) ∙ h)

top-nearest :
    (s : Bool) (big_m fall : ℕ)
    → big_m ≤ 255
    → (s ≡ true) ⊎ (fall ≡ 0)
    → Float.sub (finite false (big_m * one)) (finite s fall) ≡ nearest false (big_m * one + fall) 1
top-nearest true big_m fall small sign =
    sub_def (finite false (big_m * one)) true fall ∙ add-same false (big_m * one) fall
top-nearest false big_m fall small (inl e) = absurd (ground arith)
top-nearest false big_m fall small (inr e) =
    sub_def (finite false (big_m * one)) false fall
    ∙ ap (λ t. Float.add (finite false (big_m * one)) (finite true t)) e
    ∙ add-zero-byte true big_m small
    ∙ sym (nearest-byte false big_m small)
    ∙ ap (λ t. nearest false t 1) (omega arith)

pub top-sum :
    (s : Bool) (big_m fall : ℕ)
    → big_m ≤ 255
    → (s ≡ true) ⊎ (fall ≡ 0)
    → Float.is_finite (Float.sub (finite false (big_m * one)) (finite s fall)) ≡ true
    → Float.sub (finite false (big_m * one)) (finite s fall)
      ≡ finite false (round_ratio (big_m * one + fall) 1)
top-sum s big_m fall small sign h =
    let e = top-nearest s big_m fall small sign in
    e ∙ nearest-is_finite false (big_m * one + fall) 1 (ap Float.is_finite (sym e) ∙ h)
