-- ===== src/Tests/Startup.antt =====
-- src/main.rs, the start of the server, at concrete inputs: on an empty disk, and again on what that left.
use Prim.Native.String.{String}
use faucet_api.Common.{
  ℕ, ◌+◌, ◌*◌, ◌^◌, ◌<◌, total, [], ◌∷◌, ◌≤◌, ◌⊎◌, ◌≡◌, refl, Option, none, some, List, Result, ok,
  arith,
}
use faucet_api.Seed.{Seed, load_or_create}
use faucet_api.Settings.{Settings, fill, from}
use faucet_api.Pow.Difficulty
use faucet_api.Pow.Difficulty.{DifficultyConfig, calculate_difficulty}
use faucet_api.Float
use faucet_api.L1.Wallet.{BdkWallet, Laws, base_desc, external_desc, internal_desc}
use faucet_api.L1
use faucet_api.L2.{Alloy}
use faucet_api.L2
use faucet_api.Startup.{Machine, AppState, start, difficulty_config}
use faucet_api.Startup.Defaults.{only_amount, difficulty_config-from}
use faucet_api.Startup.Restart.{start_again}
use faucet_api.Tests.Database.{Kept}
use faucet_api.Startup.Solvent.{started_solvent}
use faucet_api.Startup.{layers_of}
use faucet_api.Settings.{ReadableSettings, max_sats_per_claim}
use faucet_api.Settings.Load.{ConfigCrate, sources, load}
use faucet_api.Server.{Layers, sats_to_wei, challenge_for, provide}
use faucet_api.Service.{Service, Reach, here, next, serves, init}
use faucet_api.Service.Effect.{on, amount_of, waiting}
use faucet_api.Service.Funds.{held}
use faucet_api.Service.Router.{pow_challenge, serve, issued_by, passed_by}
use faucet_api.Chain.{l1, l2}
use faucet_api.Pow.ChallengeSet.Assoc.{function_map, function_map-IsLawful, compare_and_swap}
use faucet_api.Tests.Challenges.{toy_sha256}
use faucet_api.Tests.Batcher.{toy_api, toy_honest}
use faucet_api.Tests.Server.{require_network}
use faucet_api.Tests.Service.{arrival}
use faucet_api.Tests.Settings.{readable, bytes32, empty_disk}

-- A wallet is its two descriptors; the database holds at most one.
abbrev Descriptors : Type 0
Descriptors = String × String

abbrev stored_wallet :
    String
    → String
    → Option Descriptors
    → Result (Option Descriptors) (Unit {0}) × Option Descriptors
stored_wallet external internal none = (ok none, none)
stored_wallet external internal (some w) = (ok (some (external, internal)), some w)

abbrev toy_bdk : BdkWallet ℕ (Option Descriptors)
toy_bdk = record {
  Wallet = Descriptors;
  Error = Unit {0};
  new_master = λ network seed. ok "tprv8";
  load_wallet = λ external internal network c. stored_wallet external internal c;
  create_wallet =
      λ external internal network c. (ok (external, internal), some (external, internal));
}

stored_wallet-some :
    (external internal : String) (c : Option Descriptors) (w : Descriptors)
    → (stored_wallet external internal c).0 ≡ ok (some w)
    → w ≡ (external, internal)
stored_wallet-some external internal none w h = ground arith
stored_wallet-some external internal (some v) w h = ground arith

toy_bdk-Laws : Laws 2 toy_bdk
toy_bdk-Laws = record {
  descriptors = λ w. w;
  load_descriptors =
      λ {external} {internal} {network} {c} {w} h. stored_wallet-some external internal c w h;
  create_descriptors = λ h. ground arith;
}

-- A signer is its bytes.
abbrev toy_alloy : Alloy ℕ
toy_alloy = record {
  Mnemonic = Seed;
  Xpriv = List ℕ;
  Signer = List ℕ;
  EthereumWallet = List ℕ;
  Url = String;
  Provider = List ℕ × String;
  Address = List ℕ;
  from_entropy = λ seed. ok seed;
  to_seed = λ words passphrase. words;
  new_master = λ network bytes. ok bytes;
  derive_priv = λ key path. ok key;
  secret_bytes = λ key. key;
  from_slice = λ bytes. ok bytes;
  wallet_from = λ signer. signer;
  parse = λ url. ok url;
  connect_http = λ wallet url. (wallet, url);
  default_signer_address = λ provider. provider.0;
}

abbrev toy_persist :
    Descriptors
    → Option Descriptors
    → Result (Unit {0}) (Unit {0}) × (Descriptors × Option Descriptors)
toy_persist w c = (ok tt, (w, some w))

abbrev settings : Settings ℕ ℕ 2
unfolding fill
settings = fill ℕ ℕ 2 readable

abbrev blank : Machine (Option Descriptors)
blank = record { disk = empty_disk; database = none }

-- The configuration for an amount, with the defaults of the settings.
abbrev config_for : ℕ → DifficultyConfig
config_for q =
    let lq = Float.mul (Float.of_nat 20) (Float.of_nat q) in
    let a = Float.div (Float.sub (Float.of_nat 18) (Float.of_nat 64)) lq in
    record {
      big_m = 64;
      m = 18;
      b = Float.of_nat 0;
      min_diff_start = Float.add (Float.of_nat 0) lq;
      precompute_big_a = a;
      precompute_big_b = Float.sub (Float.of_nat 64) (Float.mul a (Float.of_nat 0));
    }

abbrev app : AppState Descriptors (List ℕ × String)
app = record {
  l1_wallet = ("tr(tprv8/86h/0h/0h/0/*)", "tr(tprv8/86h/0h/0h/1/*)");
  l2_wallet = (bytes32 1, "https://l2");
  l1_difficulty_config = config_for 1_844_674_407;
  l2_difficulty_config = config_for 20_000;
}

abbrev starts_here :
    Seed
    → Machine (Option Descriptors)
    → Option (AppState Descriptors (List ℕ × String)) × Machine (Option Descriptors)
starts_here = start 2 0 toy_bdk toy_alloy (λ w. w) toy_persist settings

first : (starts_here (bytes32 1) blank).0 ≡ some app
unfolding start difficulty_config Difficulty.new Float.of_nat Float.mul Float.add Float.sub
    Float.div external_desc internal_desc base_desc L1.Wallet.new L2.new load_or_create settings
first = refl

second : (starts_here (bytes32 7) (starts_here (bytes32 1) blank).1).0 ≡ some app
unfolding start difficulty_config Difficulty.new Float.of_nat Float.mul Float.add Float.sub
    Float.div external_desc internal_desc base_desc L1.Wallet.new L2.new load_or_create settings
second = refl

start_again_example :
    (toy_bdk-Laws.descriptors app.l1_wallet ≡ toy_bdk-Laws.descriptors app.l1_wallet)
    × (app.l2_wallet ≡ app.l2_wallet)
start_again_example =
    start_again 2 0 toy_bdk toy_alloy (λ w. w) toy_persist settings toy_bdk-Laws (λ w. refl)
      (λ w c. refl) (bytes32 1) (bytes32 7) blank app app refl refl first second

difficulty_config-from_example :
    ((1 ≤ 20_000)
      × (c : DifficultyConfig) × (difficulty_config (from (only_amount 20_000)) ≡ some c)
      × (18 ≤ calculate_difficulty c 5_000_000)
      × (calculate_difficulty c 5_000_000 ≤ 64))
    ⊎ ((◌≡◌ {A = ℕ} 20_000 0) × (difficulty_config (from (only_amount 20_000)) ≡ none))
difficulty_config-from_example = difficulty_config-from 20_000 5_000_000 (omega arith) (omega arith)

-- The first machine, with a database for this crate.
abbrev unused : Machine (Option Kept)
unused = record { disk = empty_disk; database = none }

-- A source is the words that name it; all give the same settings.
abbrev toy_config : ConfigCrate (ReadableSettings ℕ ℕ 2)
toy_config = record {
  Source = String × String;
  Config = List (String × String);
  ConfigError = Unit {0};
  file_from = λ path. ("file", path);
  file_with_name = λ name. ("name", name);
  environment_with_prefix = λ prefix. ("environment", prefix);
  build = λ sources. ok sources;
  try_deserialize = λ built. ok readable;
}

sources_here :
    (sources 2 toy_config ("alpen-faucet" ∷ [])
      ≡ ("name", "faucet.toml") ∷ ("environment", "ALPEN_FAUCET") ∷ [])
    × (sources 2 toy_config ("alpen-faucet" ∷ "-c" ∷ "a.toml" ∷ [])
        ≡ ("file", "a.toml") ∷ ("environment", "ALPEN_FAUCET") ∷ [])
unfolding sources
sources_here = (refl, refl)

loaded : load 2 toy_config ("alpen-faucet" ∷ []) ≡ some settings
unfolding load settings
loaded = refl

abbrev layers_here : Layers
layers_here = layers_of settings.l1 settings.l2 app

-- One challenge is given out.
served_once :
    (s : Service function_map toy_sha256 toy_api ℕ ℕ layers_here require_network settings.batcher)
    × Reach function_map toy_sha256 toy_api ℕ ℕ layers_here require_network settings.batcher
        (init function_map toy_sha256 toy_api ℕ ℕ layers_here require_network settings.batcher 1000
          0)
        s
unfolding settings serve issued_by passed_by challenge_for provide compare_and_swap
    calculate_difficulty from
served_once = (_, next here (serves (arrival (pow_challenge "l1")) refl))

started_solvent_example :
    (1 ≤ settings.l1.amount_per_claim)
    × (settings.l1.amount_per_claim ≤ max_sats_per_claim)
    × (1 ≤ settings.l2.amount_per_claim)
    × (settings.l2.amount_per_claim * sats_to_wei < 2 ^ 64)
    × (held toy_api (λ tx. tx) toy_honest served_once.0.batcher
          + waiting served_once.0.faucet.payout_sender
        ≤ settings.l1.amount_per_claim * total (on l1) served_once.0.issued)
    × (total amount_of served_once.0.faucet.l2_sent
        ≤ settings.l2.amount_per_claim * sats_to_wei * total (on l2) served_once.0.issued)
started_solvent_example =
    started_solvent 2 0 toy_bdk toy_alloy (λ w. w) toy_persist settings toy_config function_map
      function_map-IsLawful toy_sha256 toy_api (λ w. 0) ℕ ℕ require_network (λ tx. tx) toy_honest
      ("alpen-faucet" ∷ []) (bytes32 1) blank app 1000 loaded first served_once.0 served_once.1
