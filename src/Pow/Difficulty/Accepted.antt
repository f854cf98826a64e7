-- ===== src/Pow/Difficulty/Accepted.antt =====
-- `DifficultyConfig::new` of src/pow.rs: which settings it accepts.
use native.Mathlib.Nat.{mul-le-mul, zero-add}
use faucet_api.Common.{
  ℕ, ◌-◌, ◌*◌, ◌^◌, ◌≤◌, ◌<◌, ◌≡◌, refl, ap, ◌∙◌, Bool, false, not, ok, arith, ltb, ◌==◌,
}
use faucet_api.Float
use faucet_api.Float.{F32, finite, nearest, one, overflow, epsilon}
use faucet_api.Float.Rounding.{round_ratio}
use faucet_api.Float.Rounding.Bounds.{round_ratio-le, le-round_ratio}
use faucet_api.Float.Exact.{nearest-finite, round_ratio-again, of_nat-byte, of_nat-sats}
use faucet_api.Float.Operations.{xor-false, mul_def, div_def, add-same, mul_zero}
use faucet_api.Pow.Difficulty.{DifficultyConfig, finite_or_overflow, precompute, new}
use faucet_api.Pow.Difficulty.Steps.{numerator, add-zero-byte}

-- The product of a whole coefficient and an amount of at least one sat.
record Start (l q : ℕ) : Type 0 where
  units : ℕ
  product : Float.mul (Float.of_nat l) (Float.of_nat q) ≡ finite false units
  large : one ≤ units
  small : units ≤ 255 * 2 ^ 213
  again : round_ratio units 1 ≡ units

product-Start : (l q : ℕ) → 1 ≤ l → l ≤ 255 → 1 ≤ q → q < 2 ^ 64 → Start l q
product-Start l q l_pos l_small q_pos q_small =
    let u : ℕ = round_ratio (q * one) 1 in
    let (sats, u_small) = of_nat-sats q q_small in
    let u_large : one ≤ u =
      le-round_ratio (q * one) 1 1 149 (omega arith) (omega arith) (omega arith) in
    let d : ℕ = round_ratio (l * one * u) one in
    let low : 1 * one ≤ l * u = mul-le-mul l_pos u_large in
    let high : l * u ≤ 255 * 2 ^ 213 = mul-le-mul l_small u_small in
    let d_small : d ≤ 255 * 2 ^ 213 =
      round_ratio-le (l * one * u) one 255 213 (omega arith) (omega arith) (omega arith) in
    record {
      units = d;
      product =
          rw (of_nat-byte l l_small, sats, mul_def false false (l * one) u, xor-false false)
            (nearest-finite false (l * one * u) one (omega arith));
      large = le-round_ratio (l * one * u) one 1 149 (omega arith) (omega arith) (omega arith);
      small = d_small;
      again = round_ratio-again (l * one * u) one (omega arith);
    }

-- The quotient of the gradient.
gradient :
    (negative : Bool) (n d : ℕ)
    → n ≤ 255
    → one ≤ d
    → Float.div (finite negative (n * one)) (finite false d)
      ≡ finite negative (round_ratio (n * one * one) d)
gradient negative n d small large =
    let bound : n * (one * one) ≤ 255 * (one * d) =
      mul-le-mul small (mul-le-mul {n₁ = one} {m₁ = one} (omega arith) large) in
    let fits : round_ratio (n * one * one) d ≤ 255 * 2 ^ 149 =
      round_ratio-le (n * one * one) d 255 149 (omega arith) (omega arith) (omega arith) in
    div_def negative false (n * one) d (omega arith)
    ∙ ap (λ s. nearest s (n * one * one) d) (xor-false negative)
    ∙ nearest-finite negative (n * one * one) d (omega arith)

not-small : (d : ℕ) → one ≤ d → Float.lt (Float.abs (finite false d)) epsilon ≡ false
unfolding Float.lt Float.abs
not-small d h = ground arith

sum :
    (l q : ℕ) (s : Start l q)
    → Float.add (finite false 0) (finite false s.units) ≡ finite false s.units
sum l q s =
    add-same false 0 s.units
    ∙ ap (λ t. nearest false t 1) (zero-add s.units)
    ∙ nearest-finite false s.units 1 (omega (arith, s.small, s.again))
    ∙ ap (finite false) s.again

positive : (l : ℕ) → 1 ≤ l → l ≤ 255 → Float.le (Float.of_nat l) (finite false 0) ≡ false
unfolding Float.le
positive l h small = rw (of_nat-byte l small) (ground arith)

le→not-ltb : (m n : ℕ) → m ≤ n → ltb n m ≡ false
le→not-ltb m n h = ground arith

pos→not-eq : (n : ℕ) → 1 ≤ n → (n == 0) ≡ false
pos→not-eq n h = ground arith

-- Every check passes: with a maximum that is a `u8`, a minimum not above it, no minimum balance, any amount from
-- one sat up to the largest `u64`, and a whole coefficient from 1 to 255, such as the default of 20, `new`
-- accepts the settings.
pub new-accepts :
    (big_m m q l : ℕ)
    → big_m ≤ 255
    → m ≤ big_m
    → 1 ≤ q
    → q < 2 ^ 64
    → 1 ≤ l
    → l ≤ 255
    → (c : DifficultyConfig) × (new big_m m 0 q (Float.of_nat l) ≡ ok c)
unfolding new precompute finite_or_overflow Float.is_finite
new-accepts big_m m q l small ordered q_pos q_small l_pos l_small =
    let s = product-Start l q l_pos l_small q_pos q_small in
    let (negative, n, falling) = numerator big_m m ordered small in
    let g = gradient negative (big_m - m) s.units (omega arith) s.large in
    let zero_b : Float.of_nat 0 ≡ finite false 0 = of_nat-byte 0 (omega arith) in
    let accepted : new big_m m 0 q (Float.of_nat l)
        ≡ ok (record {
          big_m = big_m;
          m = m;
          b = finite false 0;
          min_diff_start = finite false s.units;
          precompute_big_a = finite negative (round_ratio ((big_m - m) * one * one) s.units);
          precompute_big_b = finite false (big_m * one);
        }) =
      rw
        (
          le→not-ltb m big_m ordered,
          positive l l_pos l_small,
          pos→not-eq q q_pos,
          s.product,
          zero_b,
          sum l q s,
          not-small s.units s.large,
          n,
          g,
          of_nat-byte big_m small,
          mul_zero negative (round_ratio ((big_m - m) * one * one) s.units),
        )
        (rw (add-zero-byte (not negative) big_m small) refl) in
    (_, accepted)
