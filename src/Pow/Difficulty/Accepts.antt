-- ===== src/Pow/Difficulty/Accepts.antt =====
-- `calculate_difficulty` of src/pow.rs under a configuration that `new` accepts: one of its arms, and no overflow.
use native.Mathlib.Nat.{mul-le-mul, mul-zero}
use faucet_api.Common.{ℕ, ◌+◌, ◌-◌, ◌*◌, ◌^◌, ◌≤◌, ◌<◌, ◌≡◌, sym, ap, ◌∙◌, arith}
use faucet_api.Float.{F32, one, overflow}
use faucet_api.Float.Rounding.{round_ratio}
use faucet_api.Float.Rounding.Bounds.{round_ratio-le}
use faucet_api.Float.Exact.{of_nat-sats, round_ratio-again, round_ratio-exact}
use faucet_api.Pow.Difficulty.{DifficultyConfig, calculate_difficulty}
use faucet_api.Pow.Difficulty.Shape.{IsLinear, start_of, top_of}
use faucet_api.Pow.Difficulty.Arms.{units, fall_at, Arm, difficulty-Arm, round_ratio-zero}

gradient-le : (k span : ℕ) → k ≤ 255 → 2 ^ 126 ≤ span → round_ratio (k * one * one) span ≤ 2 ^ 180
gradient-le k span small large =
    let r = round_ratio-le (k * one * one) span 1 180 (omega arith) (omega arith) (omega arith) in
    omega arith

fall-room :
    (gradient x : ℕ) → gradient ≤ 2 ^ 180 → x ≤ 2 ^ 213 → round_ratio (gradient * x) one ≤ 2 ^ 244
fall-room gradient x steep few =
    let product : gradient * x ≤ 2 ^ 180 * 2 ^ 213 = mul-le-mul steep few in
    let r = round_ratio-le (gradient * x) one 1 244 (omega arith) (omega arith) (omega arith) in
    omega arith

top-room :
    (big_m fall : ℕ)
    → big_m ≤ 255
    → fall ≤ 2 ^ 244
    → round_ratio (round_ratio (big_m * one + fall) 1) 1 < overflow
top-room big_m fall small few =
    let once =
      round_ratio-le (big_m * one + fall) 1 1 245 (omega arith) (omega arith) (omega arith) in
    let again = round_ratio-again (big_m * one + fall) 1 (omega arith) in omega arith

pub IsLinear-Arm :
    (big_m m b q : ℕ) (big_l : F32) (c : DifficultyConfig)
    → (lin : IsLinear big_m m b q big_l c) (balance : ℕ) → big_m ≤ 255
    → b < 2 ^ 64
    → balance < 2 ^ 64
    → Arm big_m m
        (units b)
        (start_of b lin.span)
        (top_of big_m lin.gradient b)
        lin.gradient
        balance
        (calculate_difficulty c balance)
IsLinear-Arm big_m m b q big_l c lin balance small b_sats sats =
    let steep : lin.gradient ≤ 2 ^ 180 =
      rw lin.gradient_def (gradient-le (big_m - m) lin.span (omega arith) lin.span_large) in
    let fall = fall-room lin.gradient (units balance) steep (of_nat-sats balance sats).1 in
    let room =
      top-room big_m (fall_at lin.gradient b) small
        (fall-room lin.gradient (units b) steep (of_nat-sats b b_sats).1) in
    rw lin.shape (
      difficulty-Arm big_m m (units b) (start_of b lin.span) (top_of big_m lin.gradient b)
        lin.gradient balance lin.negative sats room lin.falling (λ before. omega arith))

-- With no minimum balance.
pub units-zero : units 0 ≡ 0
units-zero = round_ratio-zero (0 * one) 1 (omega arith) (omega arith)

start-zero : (span num : ℕ) → span ≡ round_ratio num one → start_of 0 span ≡ span
start-zero span num p =
    ap (λ t. round_ratio t 1) (omega (arith, units-zero, p))
    ∙ round_ratio-again num one (omega arith)
    ∙ sym p

top-zero : (big_m gradient : ℕ) → big_m ≤ 255 → top_of big_m gradient 0 ≡ big_m * one
top-zero big_m gradient small =
    let none : fall_at gradient 0 ≡ 0 =
      round_ratio-zero (gradient * units 0) one (omega arith)
        (ap (λ t. gradient * t) units-zero ∙ mul-zero gradient) in
    ap (λ t. round_ratio t 1) (omega (arith, none))
    ∙ round_ratio-exact big_m 149 1 (omega arith) (omega arith)

Arm-by :
    {big_m m floor floor' start start' top top' gradient balance difficulty : ℕ}
    → floor ≡ floor'
    → start ≡ start'
    → top ≡ top'
    → Arm big_m m floor start top gradient balance difficulty
    → Arm big_m m floor' start' top' gradient balance difficulty
Arm-by p q r arm = rw (← p, ← q, ← r) arm

pub IsLinear-Arm_zero :
    (big_m m q : ℕ) (big_l : F32) (c : DifficultyConfig)
    → (lin : IsLinear big_m m 0 q big_l c) (balance : ℕ) → big_m ≤ 255
    → balance < 2 ^ 64
    → Arm big_m m 0 lin.span (big_m * one) lin.gradient balance (calculate_difficulty c balance)
IsLinear-Arm_zero big_m m q big_l c lin balance small sats =
    let (num, rounded) = lin.span_rounded in
    Arm-by units-zero (start-zero lin.span num rounded) (top-zero big_m lin.gradient small)
      (IsLinear-Arm big_m m 0 q big_l c lin balance small (omega arith) sats)
