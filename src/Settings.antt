-- ===== src/Settings.antt =====
-- src/settings.rs: what is read from the configuration, and what the server runs with. The types
-- `ClientIpSource` and `Network` of other crates are parameters; a panic is `none`.
pub mod Limits
pub mod Load
use Prim.Native.String.{String}
use text.Mathlib.Text.{◌==◌ as str_eq}
use mathlib.Core.Option.{get_or}
use faucet_api.Common.{
  ℕ, ◌*◌, ◌-◌, ◌/◌, ◌^◌, Bool, ◌||◌, Option, none, some, List, [], ◌∷◌, Result, ok, err, ltb,
  if◌then◌else◌,
}
use faucet_api.Float
use faucet_api.Float.{F32}
use faucet_api.Chain.{IpAddr, v4}
use faucet_api.Batcher
use faucet_api.Batcher.{BatcherConfig}
use faucet_api.Pow.Challenge.{Duration}

-- The path after `--config` or `-c`; the arguments begin with the program's name.
unfoldable pub settings_path : List String → Option String
settings_path (a0 ∷ a1 ∷ a2 ∷ args) =
    if str_eq a1 "--config" || str_eq a1 "-c" then some a2 else none
settings_path _ = none

pub record ReadableLayerConfig : Type 0 where
  pub min_difficulty : Option ℕ
  pub max_difficulty : Option ℕ
  pub min_balance : Option ℕ
  pub amount_per_claim : ℕ
  pub difficulty_increase_coeff : Option F32
  pub challenge_duration : Option Duration

pub record LayerConfig : Type 0 where
  pub min_difficulty : ℕ
  pub max_difficulty : ℕ
  pub min_balance : ℕ
  pub amount_per_claim : ℕ
  pub difficulty_increase_coeff : F32
  pub challenge_duration : Duration

abbrev pub seconds : ℕ → Duration
seconds n = n * 1_000_000_000

-- `From<ReadableLayerConfig> for LayerConfig`
unfoldable pub from : ReadableLayerConfig → LayerConfig
unfolding Float.of_nat
from value = record {
  min_difficulty = get_or value.min_difficulty 18;
  max_difficulty = get_or value.max_difficulty 64;
  min_balance = get_or value.min_balance 0;
  amount_per_claim = value.amount_per_claim;
  difficulty_increase_coeff = get_or value.difficulty_increase_coeff (Float.of_nat 20);
  challenge_duration = get_or value.challenge_duration (seconds 120);
}

abbrev pub max_sats_per_claim : ℕ
max_sats_per_claim = (2 ^ 64 - 1) / 10 ^ 10

pub data SettingsError : Type 0 where
  too_high_sats_per_claim too_low_sats_per_claim : SettingsError
  invalid_seed_path invalid_database_path : String → SettingsError

module _ (ClientIpSource Network : Type 0) (signet : Network) where
  pub record ReadableSettings : Type 0 where
    pub host : Option IpAddr
    pub port : Option ℕ
    pub ip_src : ClientIpSource
    pub seed_file : Option String
    pub sqlite_file : Option String
    pub network : Option Network
    pub esplora : String
    pub l2_http_endpoint : String
    pub batcher : Option BatcherConfig
    pub l1 : ReadableLayerConfig
    pub l2 : ReadableLayerConfig

  pub record Settings : Type 0 where
    pub host : IpAddr
    pub port : ℕ
    pub ip_src : ClientIpSource
    pub seed_file : String
    pub sqlite_file : String
    pub network : Network
    pub esplora : String
    pub l2_http_endpoint : String
    pub batcher : BatcherConfig
    pub l1 : LayerConfig
    pub l2 : LayerConfig

  -- The settings with the defaults filled in. `PathBuf::from_str` does not fail.
  unfoldable pub fill : ReadableSettings → Settings
  unfolding from
  fill r = record {
    host = get_or r.host (v4 0);
    port = get_or r.port 3000;
    ip_src = r.ip_src;
    seed_file = get_or r.seed_file "faucet.seed";
    sqlite_file = get_or r.sqlite_file "faucet.sqlite";
    network = get_or r.network signet;
    esplora = r.esplora;
    l2_http_endpoint = r.l2_http_endpoint;
    batcher = get_or r.batcher Batcher.default;
    l1 = from r.l1;
    l2 = from r.l2;
  }

  -- `TryFrom<ReadableSettings> for Settings`
  unfoldable pub try_from : ReadableSettings → Option (Result Settings SettingsError)
  unfolding fill
  try_from r =
      if ltb max_sats_per_claim r.l1.amount_per_claim
      then none
      else if ltb max_sats_per_claim r.l2.amount_per_claim
      then none
      else some (ok (fill r))
