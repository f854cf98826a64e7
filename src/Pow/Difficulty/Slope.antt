-- ===== src/Pow/Difficulty/Slope.antt =====
-- The numbers of `DifficultyConfig::new` and `calculate_difficulty` of src/pow.rs against the exact ones: the start of
-- the minimum, the gradient, and a balance.
use native.Mathlib.Nat.{mul-one}
use mathlib.Core.Path.{subst}
use faucet_api.Common.{
  ℕ, zero, suc, ◌+◌, ◌*◌, ◌^◌, ◌≤◌, ◌<◌, ◌≡◌, ◌⊎◌, refl, sym, ap, ◌∙◌, inl, inr, Bool, false, arith,
}
use faucet_api.Float
use faucet_api.Float.{F32, finite, one, nearest}
use faucet_api.Float.Rounding.{round_ratio}
use faucet_api.Float.Rounding.Bounds.{round_ratio-le, round_ratio_mono, lt-eq-gt}
use faucet_api.Float.Rounding.Near.{
  Near, Near-sym, Near-trans, Near-mul, Near-cancel, round_ratio-Near,
}
use faucet_api.Float.Exact.{of_nat-sats}
use faucet_api.Float.Operations.{mul_def, xor-false, nearest-is_finite}
use faucet_api.Pow.Difficulty.{DifficultyConfig}
use faucet_api.Pow.Difficulty.Shape.{IsLinear, start_of}
use faucet_api.Pow.Difficulty.Arms.{units}

same_units : {s t : Bool} {a b : ℕ} → finite s a ≡ finite t b → a ≡ b
same_units h = cc

-- The balances from the maximum to the minimum, as `new` computes them.
pub span_def :
    (big_m m b q u : ℕ) (c : DifficultyConfig)
    → q < 2 ^ 64
    → (lin : IsLinear big_m m b q (finite false u) c) → lin.span ≡ round_ratio (u * units q) one
unfolding Float.is_finite
span_def big_m m b q u c sats lin =
    let product : Float.mul (finite false u) (Float.of_nat q) ≡ nearest false (u * units q) one =
      ap (Float.mul (finite false u)) (of_nat-sats q sats).0
      ∙ mul_def false false u (units q)
      ∙ ap (λ s. nearest s (u * units q) one) (xor-false false) in
    let is_finite = ap Float.is_finite (sym product ∙ lin.product) in
    same_units (sym lin.product ∙ product ∙ nearest-is_finite false (u * units q) one is_finite)

zero-or-suc : (x : ℕ) → (x ≡ 0) ⊎ (1 ≤ x)
zero-or-suc zero = inl refl
zero-or-suc (suc x) = inr (omega arith)

zero-or-large : (x : ℕ) → (x * one ≡ 0) ⊎ (2 ^ 23 * 1 ≤ x * one)
zero-or-large zero = inl (omega arith)
zero-or-large (suc x) = inr (omega arith)

-- A balance, or the amount of a claim, as an `f32`.
pub units-Near : (x : ℕ) → Near 2 (units x) (x * one)
units-Near x =
    subst (λ t. Near 2 t (x * one)) (mul-one (units x))
      (round_ratio-Near (x * one) 1 (omega arith) (zero-or-large x))

Near-by : {n a b a' b' : ℕ} → Near n a b → a ≡ a' → b ≡ b' → Near n a' b'
Near-by h p q = rw (← p, ← q) h

-- The balances from the maximum to the minimum are the product of the coefficient and the amount of a claim.
pub span-Near :
    (u q : ℕ)
    → 2 ^ 126 ≤ round_ratio (u * units q) one
    → Near 5 (round_ratio (u * units q) one) (u * q)
span-Near u q large =
    let s : ℕ = round_ratio (u * units q) one in
    let product : 2 ^ 23 * one ≤ u * units q = elim (lt-eq-gt (u * units q) (2 ^ 23 * one)) [
      | inl l ↦
          let small : s ≤ 2 ^ 23 * 2 ^ 0 =
            round_ratio-le (u * units q) one (2 ^ 23) 0 (omega arith) (omega arith) (omega arith) in
          absurd (omega arith)
      | inr (inl e) ↦ omega arith
      | inr (inr g) ↦ omega arith
    ] in
    let rounded : Near 2 (s * one) (u * units q) =
      round_ratio-Near (u * units q) one (omega arith) (inr product) in
    let exact : Near 2 (u * units q) (u * q * one) =
      Near-by (Near-mul 2 (units q) (q * one) u (units-Near q)) (omega arith) (omega arith) in
    Near-cancel 5 s (u * q) one (omega arith) (Near-trans 2 2 (omega arith) rounded exact)

-- What the gradient takes off at a balance, before the last rounding.
pub product-Near :
    (k d start x : ℕ)
    → k ≤ 255
    → 0 < start
    → d ≤ 2 ^ 274
    → Near 5 start d
    → Near 11 (round_ratio (k * one * one) start * units x * d) (k * one * one * (x * one))
product-Near k d start x small p few near =
    let g : ℕ = round_ratio (k * one * one) start in
    let size : (k * one * one ≡ 0) ⊎ (2 ^ 23 * start ≤ k * one * one) = elim (zero-or-suc k) [
      | inl z ↦ inl (omega (arith, z))
      | inr l ↦ inr (omega (arith, near.above))
    ] in
    let gradient : Near 2 (g * start) (k * one * one) =
      round_ratio-Near (k * one * one) start p size in
    let scaled : Near 5 (d * g) (g * start) =
      Near-by (Near-mul 5 d start g (Near-sym near)) refl (omega arith) in
    let slope : Near 8 (d * g) (k * one * one) = Near-trans 5 2 (omega arith) scaled gradient in
    let balance : Near 2 (k * one * one * units x) (k * one * one * (x * one)) =
      Near-by (Near-mul 2 (units x) (x * one) (k * one * one) (units-Near x)) (omega arith)
        (omega arith) in
    let left : Near 8 (g * units x * d) (k * one * one * units x) =
      Near-by (Near-mul 8 (d * g) (k * one * one) (units x) slope) (omega arith) refl in
    Near-trans 8 2 (omega arith) left balance

-- The start of the minimum is the sum of the two.
pub start-Near :
    (b span d : ℕ) → 2 ^ 126 ≤ span → Near 5 span d → Near 8 (start_of b span) (d + b * one)
start-Near b span d large near =
    let floor = units-Near b in
    let sum : Near 5 (units b + span) (d + b * one) = record {
      above = omega (arith, floor.above, near.above);
      below = omega (arith, floor.below, near.below);
    } in
    let rounded : Near 2 (start_of b span) (units b + span) =
      Near-by (round_ratio-Near (units b + span) 1 (omega arith) (inr (omega arith)))
        (mul-one (start_of b span)) refl in
    Near-trans 2 5 (omega arith) rounded sum

-- How a balance stands to the ends of the line, from how the rounded ones stand.
pub before-end :
    (x e start : ℕ) → Near 8 start e → units x ≤ start → x * one * 2 ^ 23 ≤ e * (2 ^ 23 + 11)
before-end x e start near h = let near_x = units-Near x in omega (arith, near.above, near_x.below)

pub past-end :
    (x e start : ℕ) → Near 8 start e → start ≤ units x → e * 2 ^ 23 ≤ x * one * (2 ^ 23 + 11)
past-end x e start near h = let near_x = units-Near x in omega (arith, near.below, near_x.above)

pub before-start : (x b : ℕ) → units x ≤ units b → x * one * 2 ^ 23 ≤ b * one * (2 ^ 23 + 5)
before-start x b h =
    let near_x = units-Near x in
    let near_b = units-Near b in omega (arith, near_x.below, near_b.above)

pub past-start : (x b : ℕ) → units b < units x → b < x
past-start x b h = elim (lt-eq-gt b x) [
  | inl l ↦ l
  | inr (inl e) ↦ absurd (omega (arith, ap units e))
  | inr (inr g) ↦
      let r = round_ratio_mono (x * one) (b * one) 1 (omega arith) (omega arith) in
      absurd (omega (arith, r))
]
