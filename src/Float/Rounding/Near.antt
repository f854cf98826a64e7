-- ===== src/Float/Rounding/Near.antt =====
-- Numbers that are equal up to a few roundings to 24 digits, each a part of 2^23 at most.
use native.Mathlib.Nat.{mul-le-mul_left, mul-le-mul_right, le_of_mul-le-mul_right}
use faucet_api.Common.{ℕ, ◌+◌, ◌*◌, ◌^◌, ◌≤◌, ◌<◌, ◌≡◌, ◌⊎◌, inl, inr, arith}
use faucet_api.Float.Rounding.{round_ratio}
use faucet_api.Float.Rounding.Bounds.{round_ratio-le}
use faucet_api.Float.Exact.{round_ratio-error, round_ratio-error_below}

-- `a` and `b` differ by at most `n` parts of 2^23 of either.
pub record Near (n a b : ℕ) : Type 0 where
  pub above : a * 2 ^ 23 ≤ b * (2 ^ 23 + n)
  pub below : b * 2 ^ 23 ≤ a * (2 ^ 23 + n)

pub Near-sym : {n a b : ℕ} → Near n a b → Near n b a
Near-sym h = record { above = h.below; below = h.above }

chain :
    (n m a b c : ℕ)
    → n * m ≤ 2 ^ 23
    → a * 2 ^ 23 ≤ b * (2 ^ 23 + n)
    → b * 2 ^ 23 ≤ c * (2 ^ 23 + m)
    → a * 2 ^ 23 ≤ c * (2 ^ 23 + (n + m + 1))
chain n m a b c few h k = omega (arith, mul-le-mul_right (2 ^ 23 + n) k, mul-le-mul_left c few)

pub Near-trans :
    (n m : ℕ) {a b c : ℕ} → n * m ≤ 2 ^ 23 → Near n a b → Near m b c → Near (n + m + 1) a c
Near-trans n m {a} {b} {c} few h k = record {
  above = chain n m a b c few h.above k.above;
  below = omega (arith, chain m n c b a (omega arith) k.below h.below);
}

pub Near-mul : (n a b c : ℕ) → Near n a b → Near n (a * c) (b * c)
Near-mul n a b c h = record {
  above = omega (arith, mul-le-mul_right c h.above);
  below = omega (arith, mul-le-mul_right c h.below);
}

cancel :
    (n a b c : ℕ) → 0 < c → a * c * 2 ^ 23 ≤ b * c * (2 ^ 23 + n) → a * 2 ^ 23 ≤ b * (2 ^ 23 + n)
cancel n a b c p h =
    let scaled : a * 2 ^ 23 * c ≤ b * (2 ^ 23 + n) * c = omega arith in
    le_of_mul-le-mul_right scaled p

pub Near-cancel : (n a b c : ℕ) → 0 < c → Near n (a * c) (b * c) → Near n a b
Near-cancel n a b c p h = record {
  above = cancel n a b c p h.above;
  below = cancel n b a c p h.below;
}

-- One rounding, of nothing or of at least 2^23 units.
pub round_ratio-Near :
    (num den : ℕ)
    → 0 < den
    → (num ≡ 0) ⊎ (2 ^ 23 * den ≤ num)
    → Near 2 (round_ratio num den * den) num
round_ratio-Near num den p (inl e) =
    let none : round_ratio num den ≤ 0 * 2 ^ 0 =
      round_ratio-le num den 0 0 p (omega arith) (omega arith) in
    let nothing : round_ratio num den * den ≤ 0 * den = mul-le-mul_right den none in
    record { above = omega arith; below = omega arith }
round_ratio-Near num den p (inr large) = record {
  above = omega (arith, round_ratio-error num den p);
  below = omega (arith, round_ratio-error_below num den p);
}
