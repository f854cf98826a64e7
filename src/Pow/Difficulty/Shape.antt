-- ===== src/Pow/Difficulty/Shape.antt =====
-- `DifficultyConfig::new` of src/pow.rs: what a configuration that was accepted looks like.
use mathlib.Core.Path.{ap₂}
use faucet_api.Common.{
  ℕ, ◌+◌, ◌-◌, ◌*◌, ◌^◌, ◌≤◌, ◌<◌, ◌≡◌, ◌⊎◌, refl, sym, ap, ◌∙◌, inl, inr, Bool, true, false, ok,
  arith,
}
use faucet_api.Float
use faucet_api.Float.Exact.{of_nat-byte, of_nat-sats}
use faucet_api.Float.Operations.{not-lt-epsilon, mul-positive}
use faucet_api.Float.{F32, finite, one, nearest}
use faucet_api.Float.Rounding.{round_ratio}
use faucet_api.Pow.Difficulty.{DifficultyConfig, new}
use faucet_api.Pow.Difficulty.Checks.{precompute-ok, new-precompute}
use faucet_api.Pow.Difficulty.Arms.{units, fall_at, config_of, sign_of-product, round_ratio-zero}
use faucet_api.Pow.Difficulty.Steps.{numerator, quotient, start-sum, fall-product, top-sum}

-- The intercept of the line, from the gradient and the minimum balance.
abbrev pub top_of : ℕ → ℕ → ℕ → ℕ
top_of big_m gradient b = round_ratio (big_m * one + fall_at gradient b) 1

-- The balance from which on the difficulty is the minimum.
abbrev pub start_of : ℕ → ℕ → ℕ
start_of b span = round_ratio (units b + span) 1

-- A configuration that was accepted: the balances from the maximum to the minimum, and the gradient, whose sign is
-- negative unless it is zero.
pub record IsLinear (big_m m b q : ℕ) (big_l : F32) (c : DifficultyConfig) : Type 0 where
  pub ordered : m ≤ big_m
  pub negative : Bool
  pub span : ℕ
  pub gradient : ℕ
  pub product : Float.mul big_l (Float.of_nat q) ≡ finite false span
  pub span_rounded : (num : ℕ) × (span ≡ round_ratio num one)
  pub span_large : 2 ^ 126 ≤ span
  pub gradient_def : gradient ≡ round_ratio ((big_m - m) * one * one) span
  pub falling : (negative ≡ true) ⊎ (gradient ≡ 0)
  pub shape :
      c ≡ config_of big_m m (units b) (start_of b span) (top_of big_m gradient b) negative gradient

same-config :
    (big_m m : ℕ) {b b' s s' a a' i i' : F32}
    → b ≡ b'
    → s ≡ s'
    → a ≡ a'
    → i ≡ i'
    → let x : DifficultyConfig = record {
      big_m = big_m;
      m = m;
      b = b;
      min_diff_start = s;
      precompute_big_a = a;
      precompute_big_b = i;
    } in
      let y : DifficultyConfig = record {
        big_m = big_m;
        m = m;
        b = b';
        min_diff_start = s';
        precompute_big_a = a';
        precompute_big_b = i';
      } in
      x ≡ y
same-config big_m m p q r t = rw (p, q, r, t) refl

-- What `new` accepts.
pub new-IsLinear :
    (big_m m b q : ℕ) (big_l : F32) (c : DifficultyConfig)
    → big_m ≤ 255
    → b < 2 ^ 64
    → new big_m m b q big_l ≡ ok c
    → IsLinear big_m m b q big_l c
new-IsLinear big_m m b q big_l c small sats h =
    let (ordered, positive, checked) = new-precompute big_m m b q big_l c h in
    let (lq_finite, start_finite, large, a_finite, ab_finite, b_finite, shape) =
      precompute-ok big_m m b q big_l c checked in
    let (num, lq) = mul-positive big_l q positive lq_finite in
    let (negative, n, falls) = numerator big_m m ordered small in
    let span : ℕ = round_ratio num one in
    let gradient : ℕ = round_ratio ((big_m - m) * one * one) span in
    let large' : 2 ^ 126 ≤ span =
      not-lt-epsilon span (ap (λ x. Float.lt (Float.abs x) Float.epsilon) (sym lq) ∙ large) in
    let falling : (negative ≡ true) ⊎ (gradient ≡ 0) = elim falls [
      | inl e ↦ inl e
      | inr e ↦
          inr (round_ratio-zero ((big_m - m) * one * one) span (omega arith) (omega (arith, e)))
    ] in
    let floor = (of_nat-sats b sats).0 in
    let sum = ap₂ Float.add floor lq in
    let start = sum ∙ start-sum (units b) span (ap Float.is_finite (sym sum) ∙ start_finite) in
    let ratio = ap₂ Float.div n lq in
    let a =
      ratio
      ∙ quotient negative ((big_m - m) * one) span (omega arith)
          (ap Float.is_finite (sym ratio) ∙ a_finite) in
    let fall = ap₂ Float.mul a floor in
    let ab =
      fall ∙ fall-product negative gradient (units b) (ap Float.is_finite (sym fall) ∙ ab_finite) in
    let difference = ap₂ Float.sub (of_nat-byte big_m small) ab in
    let top =
      difference
      ∙ top-sum negative big_m (fall_at gradient b) small
          (sign_of-product gradient (units b) falling)
          (ap Float.is_finite (sym difference) ∙ b_finite) in
    record {
      ordered = ordered;
      negative = negative;
      span = span;
      gradient = gradient;
      product = lq;
      span_rounded = (num, refl);
      span_large = large';
      gradient_def = refl;
      falling = falling;
      shape = shape ∙ same-config big_m m floor start a top;
    }
