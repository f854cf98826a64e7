-- ===== src/Pow/Difficulty/Arms.antt =====
-- The arms of `calculate_difficulty` of src/pow.rs.
use native.Mathlib.Nat.{zero-mul}
use faucet_api.Common.{
  ℕ, ◌*◌, ◌^◌, ◌≤◌, ◌<◌, ◌≡◌, ◌⊎◌, refl, ap, ◌∙◌, inl, inr, Bool, true, false, arith, leb, leb→le,
  not-leb→lt, Bool-cases, if◌then◌else◌,
}
use faucet_api.Float
use faucet_api.Float.{F32, finite, one, nearest, overflow}
use faucet_api.Float.Rounding.{round_ratio}
use faucet_api.Float.Rounding.Bounds.{round_ratio-le}
use faucet_api.Float.Exact.{of_nat-sats, nearest-finite}
use faucet_api.Float.Operations.{mul_def, xor-false}
use faucet_api.Pow.Difficulty.{DifficultyConfig, calculate_difficulty}
use faucet_api.Pow.Difficulty.Line.{on_line, sum-on_line}

-- The units of a balance as an `f32`.
abbrev pub units : ℕ → ℕ
units balance = round_ratio (balance * one) 1

-- How far the line is below the maximum at a balance.
abbrev pub fall_at : ℕ → ℕ → ℕ
fall_at gradient balance = round_ratio (gradient * units balance) one

-- The three arms of `calculate_difficulty`, with the units of the minimum balance, of the start of the minimum and of
-- the intercept.
pub data Arm (big_m m floor start top gradient balance : ℕ) : ℕ → Type 0 where
  at_minimum : start ≤ units balance → Arm big_m m floor start top gradient balance m
  at_maximum :
      units balance < start
      → units balance ≤ floor
      → Arm big_m m floor start top gradient balance big_m
  between :
      units balance < start
      → floor < units balance
      → Arm big_m m floor start top gradient balance (on_line top (fall_at gradient balance))

abbrev pub config_of : ℕ → ℕ → ℕ → ℕ → ℕ → Bool → ℕ → DifficultyConfig
config_of big_m m floor start top negative gradient = record {
  big_m = big_m;
  m = m;
  b = finite false floor;
  min_diff_start = finite false start;
  precompute_big_a = finite negative gradient;
  precompute_big_b = finite false top;
}

abbrev line_of : DifficultyConfig → F32 → ℕ
line_of c x =
    Float.as_u8 (Float.round (Float.add (Float.mul c.precompute_big_a x) c.precompute_big_b))

abbrev difficulty_of : DifficultyConfig → F32 → ℕ
difficulty_of c x =
    if Float.le c.min_diff_start x then c.m else if Float.le x c.b then c.big_m else line_of c x

calculate_def :
    (c : DifficultyConfig) (balance : ℕ)
    → calculate_difficulty c balance ≡ difficulty_of c (Float.of_nat balance)
unfolding calculate_difficulty
calculate_def c balance = refl

difficulty_of-finite :
    (big_m m floor start top gradient x : ℕ) (negative : Bool)
    → let c = config_of big_m m floor start top negative gradient in
      difficulty_of c (finite false x)
      ≡ (if leb start x then m else if leb x floor then big_m else line_of c (finite false x))
unfolding Float.le
difficulty_of-finite big_m m floor start top gradient x negative = refl

pub round_ratio-zero : (num den : ℕ) → 0 < den → num ≡ 0 → round_ratio num den ≡ 0
round_ratio-zero num den p e =
    let r = round_ratio-le num den 0 0 p (omega arith) (omega arith) in omega arith

pub sign_of-product :
    (gradient x : ℕ) {negative : Bool}
    → (negative ≡ true) ⊎ (gradient ≡ 0)
    → (negative ≡ true) ⊎ (round_ratio (gradient * x) one ≡ 0)
sign_of-product gradient x (inl e) = inl e
sign_of-product gradient x (inr e) =
    inr (round_ratio-zero (gradient * x) one (omega arith) (ap (λ t. t * x) e ∙ zero-mul x))

line_of-on_line :
    (big_m m floor start top gradient x : ℕ) (negative : Bool)
    → round_ratio top 1 < overflow
    → (negative ≡ true) ⊎ (gradient ≡ 0)
    → round_ratio (gradient * x) one < overflow
    → line_of (config_of big_m m floor start top negative gradient) (finite false x)
      ≡ on_line top (round_ratio (gradient * x) one)
line_of-on_line big_m m floor start top gradient x negative room_top sign room =
    ap (λ t. Float.as_u8 (Float.round (Float.add t (finite false top))))
      (mul_def negative false gradient x
        ∙ ap (λ s. nearest s (gradient * x) one) (xor-false negative)
        ∙ nearest-finite negative (gradient * x) one room)
    ∙ sum-on_line negative top (round_ratio (gradient * x) one) room_top
        (sign_of-product gradient x sign)

pub difficulty-Arm :
    (big_m m floor start top gradient balance : ℕ) (negative : Bool)
    → balance < 2 ^ 64
    → round_ratio top 1 < overflow
    → (negative ≡ true) ⊎ (gradient ≡ 0)
    → (units balance < start → fall_at gradient balance < overflow)
    → Arm big_m m floor start top gradient balance
        (calculate_difficulty (config_of big_m m floor start top negative gradient) balance)
difficulty-Arm big_m m floor start top gradient balance negative sats room_top sign room =
    rw
      (
        calculate_def (config_of big_m m floor start top negative gradient) balance,
        (of_nat-sats balance sats).0,
        difficulty_of-finite big_m m floor start top gradient (units balance) negative,
      )
      (elim (Bool-cases (leb start (units balance))) [
        | inl t ↦ rw t (at_minimum (leb→le _ _ t))
        | inr f ↦ elim (Bool-cases (leb (units balance) floor)) [
          | inl z ↦ rw (f, z) (at_maximum (not-leb→lt _ _ f) (leb→le _ _ z))
          | inr n ↦
              rw
                (
                  f,
                  n,
                  line_of-on_line big_m m floor start top gradient (units balance) negative room_top
                      sign (room (not-leb→lt _ _ f)),
                )
                (between (not-leb→lt _ _ f) (not-leb→lt _ _ n))
        ]
      ])
