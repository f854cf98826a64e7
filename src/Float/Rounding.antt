-- ===== src/Float/Rounding.antt =====
-- Rounding of a non-negative ratio to 24 significant binary digits.
pub mod Bounds
pub mod Near
use faucet_api.Common.{ℕ, zero, suc, ◌+◌, ◌*◌, ◌/◌, ◌%◌, ◌^◌, ltb, ◌==◌, if◌then◌else◌, ◌&&◌, ◌||◌}

-- How often a number is halved until 24 digits are left.
unfoldable pub excess : ℕ → ℕ → ℕ
excess zero q = 0
excess (suc fuel) q = let more = suc (excess fuel (q / 2)) in if ltb q (2 ^ 24) then 0 else more

-- To the nearest multiple of `unit`, and at a tie to the even one.
unfoldable pub round_to : ℕ → ℕ → ℕ
round_to num unit =
    let m = num / unit in
    let r = num % unit in if ltb unit (2 * r) || (unit == 2 * r && m % 2 == 1) then m + 1 else m

-- `num / den`, rounded.
unfoldable pub round_ratio : ℕ → ℕ → ℕ
unfolding excess round_to
round_ratio num den = let e = excess (num / den) (num / den) in round_to num (den * 2 ^ e) * 2 ^ e
