-- ===== src/Startup/Defaults.antt =====
-- src/main.rs, `main`: the difficulties of a chain whose settings give the amount of a claim alone.
use faucet_api.Common.{ℕ, zero, suc, ◌^◌, ◌≤◌, ◌<◌, ◌≡◌, ◌⊎◌, inl, inr, none, some, arith, ok, refl}
use faucet_api.Pow.Difficulty
use faucet_api.Pow.Difficulty.{DifficultyConfig, calculate_difficulty}
use faucet_api.Pow.Difficulty.Accepted.{new-accepts}
use faucet_api.Pow.Difficulty.Range.{in_range_zero}
use faucet_api.Float
use faucet_api.Settings.{ReadableLayerConfig, LayerConfig, from}
use faucet_api.Startup.{difficulty_config}

abbrev pub only_amount : ℕ → ReadableLayerConfig
only_amount amount = record {
  min_difficulty = none;
  max_difficulty = none;
  min_balance = none;
  amount_per_claim = amount;
  difficulty_increase_coeff = none;
  challenge_duration = none;
}

accepted-some :
    (layer : LayerConfig) (c : DifficultyConfig)
    → Difficulty.new layer.max_difficulty layer.min_difficulty layer.min_balance
        layer.amount_per_claim layer.difficulty_increase_coeff
      ≡ ok c
    → difficulty_config layer ≡ some c
unfolding difficulty_config
accepted-some layer c h = ground arith

no_amount : difficulty_config (from (only_amount 0)) ≡ none
unfolding difficulty_config from Difficulty.new
no_amount = refl

-- With defaults for all but the amount of a claim, for a `u64` amount and balance: if the amount is not zero the
-- difficulty is configured, and at that balance it lies between 18 and 64; an amount of zero stops the server.
pub difficulty_config-from :
    (amount balance : ℕ)
    → amount < 2 ^ 64
    → balance < 2 ^ 64
    → ((1 ≤ amount)
        × (c : DifficultyConfig) × (difficulty_config (from (only_amount amount)) ≡ some c)
        × (18 ≤ calculate_difficulty c balance)
        × (calculate_difficulty c balance ≤ 64))
      ⊎ ((amount ≡ 0) × (difficulty_config (from (only_amount amount)) ≡ none))
unfolding from
difficulty_config-from zero balance h small = inr (omega arith, no_amount)
difficulty_config-from (suc n) balance h small =
    let (c, accepted) =
      new-accepts 64 18 (suc n) 20 (omega arith) (omega arith) (omega arith) h (omega arith)
        (omega arith) in
    let (low, high) =
      in_range_zero 64 18 (suc n) (Float.of_nat 20) c balance (omega arith) small accepted in
    inl (omega arith, c, accepted-some (from (only_amount (suc n))) c accepted, low, high)
