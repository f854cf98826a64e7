-- ===== src/Float.antt =====
-- The `f32` of Rust, as far as src/pow.rs computes with it: IEEE 754 binary32, rounding to nearest with
-- ties to even. A finite value is a sign and a number of units of 2^-149, the smallest positive value.
pub mod Rounding
pub mod Exact
pub mod Operations
use Rounding.{round_ratio}
use faucet_api.Common.{
  ℕ, zero, suc, ◌+◌, ◌-◌, ◌*◌, ◌/◌, ◌%◌, ◌^◌, Bool, true, false, not, ◌&&◌, ◌||◌, ltb, leb, ◌==◌,
  if◌then◌else◌, min,
}
use mathlib.Core.Bool.{xor}

pub data F32 : Type 0 where
  finite : (negative : Bool) (units : ℕ) → F32
  inf : (negative : Bool) → F32
  nan : F32

-- 1.0
abbrev pub one : ℕ
one = 2 ^ 149

-- From 2^128 on a rounded value is infinite.
abbrev pub overflow : ℕ
overflow = 2 ^ 277

-- f32::EPSILON, 2^-23
abbrev pub epsilon : F32
epsilon = finite false (2 ^ 126)

-- The value nearest to `num / den` units.
unfoldable pub nearest : Bool → ℕ → ℕ → F32
unfolding round_ratio
nearest s num den = let r = round_ratio num den in if leb overflow r then inf s else finite s r

-- `n as f32`
unfoldable pub of_nat : ℕ → F32
unfolding nearest
of_nat n = nearest false (n * one) 1

unfoldable pub neg : F32 → F32
neg (finite s a) = finite (not s) a
neg (inf s) = inf (not s)
neg nan = nan

unfoldable pub abs : F32 → F32
abs (finite s a) = finite false a
abs (inf s) = inf false
abs nan = nan

unfoldable pub is_finite : F32 → Bool
is_finite (finite s a) = true
is_finite _ = false

-- The sum of finite values; an exact zero is positive unless both are negative.
unfoldable pub add_finite : Bool → ℕ → Bool → ℕ → F32
unfolding nearest xor
add_finite s a t b =
    if xor s t
    then (if leb b a
        then (if leb a b then finite false 0 else nearest s (a - b) 1)
        else nearest t (b - a) 1)
    else nearest s (a + b) 1

unfoldable pub add : F32 → F32 → F32
unfolding add_finite xor
add (finite s a) (finite t b) = add_finite s a t b
add (finite s a) (inf t) = inf t
add (finite s a) nan = nan
add (inf s) (finite t b) = inf s
add (inf s) (inf t) = if xor s t then nan else inf s
add (inf s) nan = nan
add nan y = nan

unfoldable pub sub : F32 → F32 → F32
unfolding add neg
sub x y = add x (neg y)

unfoldable pub mul : F32 → F32 → F32
unfolding nearest xor
mul (finite s a) (finite t b) = nearest (xor s t) (a * b) one
mul (finite s a) (inf t) = if a == 0 then nan else inf (xor s t)
mul (finite s a) nan = nan
mul (inf s) (finite t b) = if b == 0 then nan else inf (xor s t)
mul (inf s) (inf t) = inf (xor s t)
mul (inf s) nan = nan
mul nan y = nan

unfoldable pub div : F32 → F32 → F32
unfolding nearest xor
div (finite s a) (finite t b) =
    if b == 0 then (if a == 0 then nan else inf (xor s t)) else nearest (xor s t) (a * one) b
div (finite s a) (inf t) = finite (xor s t) 0
div (finite s a) nan = nan
div (inf s) (finite t b) = inf (xor s t)
div (inf s) (inf t) = nan
div (inf s) nan = nan
div nan y = nan

-- `x <= y`; the two zeros are equal, and a NaN compares with nothing.
unfoldable pub le : F32 → F32 → Bool
le (finite false a) (finite false b) = leb a b
le (finite false a) (finite true b) = a == 0 && b == 0
le (finite true a) (finite false b) = true
le (finite true a) (finite true b) = leb b a
le (finite s a) (inf t) = not t
le (inf s) (finite t b) = s
le (inf s) (inf t) = s || not t
le (finite s a) nan = false
le (inf s) nan = false
le nan y = false

-- `x < y`
unfoldable pub lt : F32 → F32 → Bool
unfolding le
lt x y = le x y && not (le y x)

-- `x.round()`: halves go away from zero.
unfoldable pub round : F32 → F32
round (finite s a) = finite s ((a + 2 ^ 148) / one * one)
round (inf s) = inf s
round nan = nan

-- `x as u8`: truncated and saturated; a NaN is 0.
unfoldable pub as_u8 : F32 → ℕ
as_u8 (finite false a) = min (a / one) 255
as_u8 (finite true a) = 0
as_u8 (inf false) = 255
as_u8 (inf true) = 0
as_u8 nan = 0
