-- ===== src/Float/Rounding/Bounds.antt =====
-- Rounding of src/pow.rs's `f32` arithmetic: a value that is representable bounds what rounds to it.
use native.Mathlib.Nat.{
  one-le-pow, pow-suc, mul-le-mul_right, pow-le-pow_right, le-div_iff_mul-le, div-le_of_le-mul,
  div-add-mod, eq-or-lt_of_le, mul_comm, zero-add, suc-add, one-mul, one-le-mul, div-mul-le_self,
  div-lt_iff_lt-mul,
}
use faucet_api.Common.{
  ℕ, zero, suc, ◌+◌, ◌-◌, ◌*◌, ◌/◌, ◌%◌, ◌^◌, ◌≤◌, ◌<◌, ◌≡◌, ◌⊎◌, refl, ap, ◌∙◌, inl, inr, arith,
  Bool-cases, ltb, leb, ltb→lt, leb→le, not-leb→lt,
}
use faucet_api.Float.Rounding.{excess, round_to, round_ratio}

excess-zero : (q : ℕ) → excess zero q ≡ 0
unfolding excess
excess-zero q = refl

excess-small : (fuel q : ℕ) → q < 2 ^ 24 → excess (suc fuel) q ≡ 0
unfolding excess
excess-small fuel q h = ground arith

excess-big : (fuel q : ℕ) → 2 ^ 24 ≤ q → excess (suc fuel) q ≡ suc (excess fuel (q / 2))
unfolding excess
excess-big fuel q h = ground arith

-- Enough halvings are made, and none too many.
pub excess_lem :
    (fuel q : ℕ)
    → q ≤ fuel
    → (q < 2 ^ 24 * 2 ^ excess fuel q) × ((excess fuel q ≡ 0) ⊎ (2 ^ 23 * 2 ^ excess fuel q ≤ q))
excess_lem zero q h = rw (excess-zero q) (omega arith, inl refl)
excess_lem (suc fuel) q h = elim (Bool-cases (ltb q (2 ^ 24))) [
  | inl small ↦ rw (excess-small fuel q (ltb→lt _ _ small)) (ltb→lt _ _ small, inl refl)
  | inr big ↦
      let (high, low) = excess_lem fuel (q / 2) (omega arith) in
      rw (excess-big fuel q (ground arith)) (
        omega (arith, pow-suc),
        inr (elim low [ inl z ↦ rw z (ground arith) | inr l ↦ omega (arith, pow-suc) ]),
      )
]

pub div-le-div : (num num' den : ℕ) → 0 < den → num ≤ num' → num / den ≤ num' / den
div-le-div num num' den p h = (le-div_iff_mul-le p).1 (omega (arith, div-mul-le_self num den))

pub lt-eq-gt : (a b : ℕ) → (a < b) ⊎ ((a ≡ b) ⊎ (b < a))
lt-eq-gt a b = omega arith

-- The nearest multiple is no further than any multiple.
pub round_to-le : (num unit c : ℕ) → 0 < unit → num ≤ c * unit → round_to num unit ≤ c
unfolding round_to
round_to-le num unit c p h =
    let q≤c : num / unit ≤ c = div-le_of_le-mul unit (rw (mul_comm unit c) h) in
    elim (eq-or-lt_of_le q≤c) [
      | inl e ↦
          let r0 : num % unit ≡ 0 =
            omega (arith, div-add-mod num unit, ap (λ q. unit * q) e, mul_comm unit c) in
          ground (arith)
      | inr l ↦ ground arith
    ]

pub le-round_to : (num unit c : ℕ) → 0 < unit → c * unit ≤ num → c ≤ round_to num unit
unfolding round_to
le-round_to num unit c p h = let c≤q : c ≤ num / unit = (le-div_iff_mul-le p).1 h in ground arith

pow-add : (i j : ℕ) → 2 ^ (i + j) ≡ 2 ^ i * 2 ^ j
pow-add zero j = rw (zero-add j) (omega (arith, one-mul (2 ^ j)))
pow-add (suc i) j = rw (suc-add i j, pow-suc 2 (i + j), pow-suc 2 i, pow-add i j) (omega arith)

pow-split : (i j : ℕ) → i ≤ j → 2 ^ j ≡ 2 ^ (j - i) * 2 ^ i
pow-split i j h = ap (λ n. 2 ^ n) (omega arith) ∙ pow-add (j - i) i

-- The digits that rounding cuts off, and the unit that it rounds to.
abbrev pub cut : ℕ → ℕ → ℕ
cut num den = excess (num / den) (num / den)

abbrev pub unit_of : ℕ → ℕ → ℕ
unit_of num den = den * 2 ^ cut num den

pub round_ratio_def :
    (num den : ℕ) → round_ratio num den ≡ round_to num (unit_of num den) * 2 ^ cut num den
unfolding round_ratio
round_ratio_def num den = refl

pub unit-pos : (num den : ℕ) → 0 < den → 0 < unit_of num den
unit-pos num den p = one-le-mul p (one-le-pow (cut num den) 2 (omega arith))

-- A representable upper bound of a ratio is one of the rounded ratio.
pub round_ratio-le :
    (num den k j : ℕ)
    → 0 < den
    → k < 2 ^ 24
    → num ≤ k * 2 ^ j * den
    → round_ratio num den ≤ k * 2 ^ j
round_ratio-le num den k j p small h =
    let e : ℕ = cut num den in
    let (high, low) = excess_lem (num / den) (num / den) (omega arith) in
    rw (round_ratio_def num den) (elim (Bool-cases (leb e j)) [
      | inl t ↦
          let split : 2 ^ j ≡ 2 ^ (j - e) * 2 ^ e = pow-split e j (leb→le e j t) in
          let r : round_to num (unit_of num den) ≤ k * 2 ^ (j - e) =
            round_to-le num (unit_of num den) (k * 2 ^ (j - e)) (unit-pos num den p)
              (omega (arith, ap (λ t. k * t * den) split)) in
          let scaled = mul-le-mul_right (2 ^ e) r in omega (arith, ap (λ t. k * t) split)
      | inr f ↦
          let far : j < e = not-leb→lt e j f in
          let steps : 2 ^ j * 2 ≤ 2 ^ e = rw (← pow-suc 2 j) (pow-le-pow_right (omega arith) far) in
          let q : num / den ≤ k * 2 ^ j = div-le_of_le-mul den (omega arith) in
          let k' : k * 2 ^ j ≤ (2 ^ 24 - 1) * 2 ^ j = mul-le-mul_right (2 ^ j) (omega arith) in
          elim low [
            | inl z ↦ absurd (omega arith)
            | inr l ↦ absurd (omega (arith, one-le-pow j 2 (omega arith)))
          ]
    ])

-- And a representable lower bound is a lower bound.
pub le-round_ratio :
    (num den k j : ℕ)
    → 0 < den
    → k < 2 ^ 24
    → k * 2 ^ j * den ≤ num
    → k * 2 ^ j ≤ round_ratio num den
le-round_ratio num den k j p small h =
    let e : ℕ = cut num den in
    let (high, low) = excess_lem (num / den) (num / den) (omega arith) in
    rw (round_ratio_def num den) (elim (Bool-cases (leb e j)) [
      | inl t ↦
          let split : 2 ^ j ≡ 2 ^ (j - e) * 2 ^ e = pow-split e j (leb→le e j t) in
          let r : k * 2 ^ (j - e) ≤ round_to num (unit_of num den) =
            le-round_to num (unit_of num den) (k * 2 ^ (j - e)) (unit-pos num den p)
              (omega (arith, ap (λ t. k * t * den) split)) in
          let scaled = mul-le-mul_right (2 ^ e) r in omega (arith, ap (λ t. k * t) split)
      | inr f ↦
          let far : j < e = not-leb→lt e j f in
          let steps : 2 ^ j * 2 ≤ 2 ^ e = rw (← pow-suc 2 j) (pow-le-pow_right (omega arith) far) in
          let k' : k * 2 ^ j ≤ 2 ^ 24 * 2 ^ j = mul-le-mul_right (2 ^ j) (omega arith) in
          let l : 2 ^ 23 * 2 ^ e ≤ num / den = elim low [
            | inl z ↦ absurd (omega arith)
            | inr l ↦ l
          ] in
          let r : 2 ^ 23 ≤ round_to num (unit_of num den) =
            le-round_to num (unit_of num den) (2 ^ 23) (unit-pos num den p)
              (omega (arith, (le-div_iff_mul-le p).0 l)) in
          omega (arith, mul-le-mul_right (2 ^ e) r)
    ])

round_to-floor :
    (num unit : ℕ) → (num / unit ≤ round_to num unit) × (round_to num unit ≤ num / unit + 1)
unfolding round_to
round_to-floor num unit = ground arith

round_to-same :
    (num num' unit : ℕ)
    → num / unit ≡ num' / unit
    → num % unit ≤ num' % unit
    → round_to num unit ≤ round_to num' unit
unfolding round_to
round_to-same num num' unit e h = rw e (ground arith)

-- Rounding is monotone, to multiples of one unit and to 24 digits.
pub round_to_mono :
    (num num' unit : ℕ) → 0 < unit → num ≤ num' → round_to num unit ≤ round_to num' unit
round_to_mono num num' unit p h = elim (eq-or-lt_of_le (div-le-div num num' unit p h)) [
  | inl e ↦
      round_to-same num num' unit e
        (omega (arith, div-add-mod num unit, div-add-mod num' unit, ap (λ q. unit * q) e))
  | inr l ↦ omega (arith, (round_to-floor num unit).1, (round_to-floor num' unit).0)
]

pub round_ratio_mono :
    (num num' den : ℕ) → 0 < den → num ≤ num' → round_ratio num den ≤ round_ratio num' den
round_ratio_mono num num' den p h =
    let e : ℕ = cut num den in
    let e' : ℕ = cut num' den in
    let q = div-le-div num num' den p h in
    let (high, low) = excess_lem (num / den) (num / den) (omega arith) in
    let (high', low') = excess_lem (num' / den) (num' / den) (omega arith) in
    rw (round_ratio_def num den, round_ratio_def num' den)
      (elim (lt-eq-gt e e') [
        | inl l ↦
            let steps : 2 ^ e * 2 ≤ 2 ^ e' =
              rw (← pow-suc 2 e) (pow-le-pow_right (omega arith) l) in
            let bottom : 2 ^ 23 * 2 ^ e' ≤ num' / den = elim low' [
              | inl z ↦ absurd (omega arith)
              | inr b ↦ b
            ] in
            let r : round_to num (unit_of num den) ≤ 2 ^ 24 =
              round_to-le num (unit_of num den) (2 ^ 24) (unit-pos num den p)
                (omega (arith, (div-lt_iff_lt-mul p).0 high)) in
            let r' : 2 ^ 23 ≤ round_to num' (unit_of num' den) =
              le-round_to num' (unit_of num' den) (2 ^ 23) (unit-pos num' den p)
                (omega (arith, (le-div_iff_mul-le p).0 bottom)) in
            omega (arith, mul-le-mul_right (2 ^ e) r, mul-le-mul_right (2 ^ e') r')
        | inr (inl same) ↦ rw (← same) (
            mul-le-mul_right (2 ^ e)
              (round_to_mono num num' (unit_of num den) (unit-pos num den p) h))
        | inr (inr g) ↦
            let steps : 2 ^ e' * 2 ≤ 2 ^ e =
              rw (← pow-suc 2 e') (pow-le-pow_right (omega arith) g) in
            elim low [ inl z ↦ absurd (omega arith) | inr b ↦ absurd (omega arith) ]
      ])
