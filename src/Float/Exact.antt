-- ===== src/Float/Exact.antt =====
-- The `f32` arithmetic of src/pow.rs: which values are exact, and how far the others are off.
use native.Mathlib.Nat.{
  le_antisymm, div-add-mod, mod-lt, pow-suc, mul-one, le-div_iff_mul-le, div-lt_iff_lt-mul,
}
use faucet_api.Common.{
  ℕ, suc, ◌+◌, ◌*◌, ◌/◌, ◌%◌, ◌^◌, ◌≤◌, ◌<◌, ◌≡◌, ◌⊎◌, refl, sym, ap, ◌∙◌, inl, inr, Bool, false,
  arith, ltb, ltb→lt, Bool-cases,
}
use faucet_api.Float.{finite, nearest, of_nat, one, overflow}
use faucet_api.Float.Rounding.{round_to, round_ratio}
use faucet_api.Float.Rounding.Bounds.{
  cut, unit_of, unit-pos, round_ratio_def, round_ratio-le, le-round_ratio, excess_lem, round_to-le,
}

pub nearest-finite :
    (s : Bool) (num den : ℕ)
    → round_ratio num den < overflow
    → nearest s num den ≡ finite s (round_ratio num den)
unfolding nearest
nearest-finite s num den h = ground arith

-- A value with 24 digits is kept.
pub round_ratio-exact :
    (k j den : ℕ) → 0 < den → k < 2 ^ 24 → round_ratio (k * 2 ^ j * den) den ≡ k * 2 ^ j
round_ratio-exact k j den p small =
    le_antisymm (round_ratio-le (k * 2 ^ j * den) den k j p small (omega arith))
      (le-round_ratio (k * 2 ^ j * den) den k j p small (omega arith))

-- What is rounded has 24 digits, so that rounding it again keeps it.
top : {r : ℕ} → ltb r (2 ^ 24) ≡ false → r ≤ 2 ^ 24 → r ≡ 2 ^ 24
top f h = ground arith

representable :
    (num den : ℕ) → 0 < den → (k : ℕ) × (j : ℕ) × (k < 2 ^ 24) × (round_ratio num den ≡ k * 2 ^ j)
representable num den p =
    let e : ℕ = cut num den in
    let (high, _) = excess_lem (num / den) (num / den) (omega arith) in
    let r : round_to num (unit_of num den) ≤ 2 ^ 24 =
      round_to-le num (unit_of num den) (2 ^ 24) (unit-pos num den p)
        (omega (arith, (div-lt_iff_lt-mul p).0 high)) in
    elim (Bool-cases (ltb (round_to num (unit_of num den)) (2 ^ 24))) [
      | inl t ↦ (round_to num (unit_of num den), e, ltb→lt _ _ t, round_ratio_def num den)
      | inr f ↦ (
        2 ^ 23,
        suc e,
        omega arith,
        round_ratio_def num den ∙ omega (arith, pow-suc 2 e, ap (λ t. t * 2 ^ e) (top f r)),
      )
    ]

pub round_ratio-again :
    (num den : ℕ) → 0 < den → round_ratio (round_ratio num den) 1 ≡ round_ratio num den
round_ratio-again num den p =
    let (k, j, small, e) = representable num den p in
    rw e (
      ap (λ n. round_ratio n 1) (sym (mul-one (k * 2 ^ j)))
      ∙ round_ratio-exact k j 1 (omega arith) small)

pub of_nat_def : (n : ℕ) → of_nat n ≡ nearest false (n * one) 1
unfolding of_nat
of_nat_def n = refl

-- `u8` and, rounded, `u64` values are finite.
pub nearest-byte : (s : Bool) (n : ℕ) → n ≤ 255 → nearest s (n * one) 1 ≡ finite s (n * one)
nearest-byte s n h =
    let exact : round_ratio (n * one) 1 ≡ n * one =
      ap (λ t. round_ratio t 1) (sym (mul-one (n * one)))
      ∙ round_ratio-exact n 149 1 (omega arith) (omega arith) in
    nearest-finite s (n * one) 1 (omega (arith, exact)) ∙ ap (finite s) exact

pub of_nat-byte : (n : ℕ) → n ≤ 255 → of_nat n ≡ finite false (n * one)
of_nat-byte n h = of_nat_def n ∙ nearest-byte false n h

pub of_nat-sats :
    (n : ℕ)
    → n < 2 ^ 64
    → (of_nat n ≡ finite false (round_ratio (n * one) 1)) × (round_ratio (n * one) 1 ≤ 2 ^ 213)
of_nat-sats n h =
    let small : round_ratio (n * one) 1 ≤ 1 * 2 ^ 213 =
      round_ratio-le (n * one) 1 1 213 (omega arith) (omega arith) (omega arith) in
    (of_nat_def n ∙ nearest-finite false (n * one) 1 (omega arith), omega arith)

round_to-cases :
    (num unit : ℕ)
    → (round_to num unit ≡ num / unit)
      ⊎ ((round_to num unit ≡ num / unit + 1) × (unit ≤ 2 * (num % unit)))
unfolding round_to
round_to-cases num unit = ground arith

round_to-cases_below :
    (num unit : ℕ)
    → 0 < unit
    → ((round_to num unit ≡ num / unit) × (2 * (num % unit) ≤ unit))
      ⊎ ((round_to num unit ≡ num / unit + 1) × (num % unit < unit))
unfolding round_to
round_to-cases_below num unit p = ground (arith, mod-lt num p)

-- The error: half a unit in the last place.
pub round_to-error : (num unit : ℕ) → 2 * (round_to num unit * unit) ≤ 2 * num + unit
round_to-error num unit = elim (round_to-cases num unit) [
  | inl e ↦ omega (arith, div-add-mod num unit, ap (λ t. t * unit) e)
  | inr (e, h) ↦ omega (arith, div-add-mod num unit, ap (λ t. t * unit) e)
]

pub round_ratio-error :
    (num den : ℕ)
    → 0 < den
    → 2 ^ 24 * (round_ratio num den * den) ≤ 2 ^ 24 * num + num + 2 ^ 23 * den
round_ratio-error num den p =
    let e : ℕ = cut num den in
    let (_, low) = excess_lem (num / den) (num / den) (omega arith) in
    let half = round_to-error num (unit_of num den) in
    rw (round_ratio_def num den) (elim low [
      | inl z ↦ omega (arith, ap (λ t. den * 2 ^ t) z)
      | inr l ↦ omega (arith, (le-div_iff_mul-le p).0 l)
    ])

round_to-error_below : (num unit : ℕ) → 0 < unit → 2 * num ≤ 2 * (round_to num unit * unit) + unit
round_to-error_below num unit p = elim (round_to-cases_below num unit p) [
  | inl (e, h) ↦ omega (arith, div-add-mod num unit, ap (λ t. t * unit) e)
  | inr (e, h) ↦ omega (arith, div-add-mod num unit, ap (λ t. t * unit) e)
]

pub round_ratio-error_below :
    (num den : ℕ)
    → 0 < den
    → 2 ^ 24 * num ≤ 2 ^ 24 * (round_ratio num den * den) + num + 2 ^ 23 * den
round_ratio-error_below num den p =
    let e : ℕ = cut num den in
    let (_, low) = excess_lem (num / den) (num / den) (omega arith) in
    let half = round_to-error_below num (unit_of num den) (unit-pos num den p) in
    rw (round_ratio_def num den) (elim low [
      | inl z ↦ omega (arith, ap (λ t. den * 2 ^ t) z)
      | inr l ↦ omega (arith, (le-div_iff_mul-le p).0 l)
    ])
