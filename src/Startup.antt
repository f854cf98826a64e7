-- ===== src/Startup.antt =====
-- src/main.rs, `main` up to the state that the router is given. The sockets, the logger and the tasks that it
-- spawns are not part of it. A panic is `none`; what was written before it stays written.
pub mod Restart
pub mod Defaults
pub mod Crates
pub mod Success
pub mod Solvent
use Prim.Native.String.{String}
use faucet_api.Common.{Option, none, some, Result, ok, err, if◌then◌else◌}
use faucet_api.Seed.{Seed, Disk, load_or_create}
use faucet_api.Settings.{LayerConfig, Settings}
use faucet_api.Pow.Difficulty
use faucet_api.Pow.Difficulty.{DifficultyConfig}
use faucet_api.Server.{Layers}
use faucet_api.L1.Wallet.{BdkWallet}
use faucet_api.L1
use faucet_api.L2.{Alloy}
use faucet_api.L2

-- `DifficultyConfig::new(..).expect("good difficulty config")` on the settings of a chain.
unfoldable pub difficulty_config : LayerConfig → Option DifficultyConfig
unfolding Difficulty.new
difficulty_config layer =
    elim (Difficulty.new layer.max_difficulty layer.min_difficulty layer.min_balance
      layer.amount_per_claim layer.difficulty_increase_coeff) [
        | err e ↦ none
        | ok config ↦ some config
      ]

-- What outlives the process: the file of the seed and the database.
pub record Machine (Connection : Type 0) : Type 0 where
  pub disk : Disk
  pub database : Connection

-- `AppState`, before its batcher.
pub record AppState (L1Wallet L2Wallet : Type 0) : Type 0 where
  pub l1_wallet : L1Wallet
  pub l2_wallet : L2Wallet
  pub l1_difficulty_config : DifficultyConfig
  pub l2_difficulty_config : DifficultyConfig

-- What the handlers read: the settings of the chains, and the difficulties of the state.
abbrev pub layers_of :
    {L1Wallet L2Wallet : Type 0} → LayerConfig → LayerConfig → AppState L1Wallet L2Wallet → Layers
layers_of l1 l2 app = record {
  l1 = l1;
  l2 = l2;
  l1_difficulty_config = app.l1_difficulty_config;
  l2_difficulty_config = app.l2_difficulty_config;
}

module _ {ClientIpSource Network Connection : Type 0} (signet bitcoin : Network)
    (bdk : BdkWallet Network Connection) (alloy : Alloy Network)
    -- `reveal_next_address(KeychainKind::External)` and `persist` of the wallet
    (reveal_next_address : bdk.Wallet → bdk.Wallet)
    (persist : bdk.Wallet
      → Connection
      → Result (Unit {0}) (Unit {0}) × (bdk.Wallet × Connection)) where
  -- The second half: the L2 wallet and the difficulties.
  unfoldable pub assemble :
      Settings ClientIpSource Network signet
      → Seed
      → bdk.Wallet
      → Option (AppState bdk.Wallet alloy.Provider)
  unfolding L2.new difficulty_config
  assemble settings seed l1_wallet = elim (L2.new bitcoin alloy settings.l2_http_endpoint seed) [
    | none ↦ none
    | some (err e) ↦ none
    | some (ok l2_wallet) ↦ elim (difficulty_config settings.l1) [
      | none ↦ none
      | some l1_config ↦ elim (difficulty_config settings.l2) [
        | none ↦ none
        | some l2_config ↦ some (record {
          l1_wallet = l1_wallet;
          l2_wallet = l2_wallet;
          l1_difficulty_config = l1_config;
          l2_difficulty_config = l2_config;
        })
      ]
    ]
  ]

  -- From the seed on: the L1 wallet, its first address, and the rest.
  unfoldable pub start_with :
      Settings ClientIpSource Network signet
      → Seed
      → Machine Connection
      → Option (AppState bdk.Wallet alloy.Provider) × Machine Connection
  unfolding L1.Wallet.new assemble
  start_with settings seed m =
      let (opened, database) = L1.Wallet.new signet bdk settings.network seed m.database in
      elim opened [
        | none ↦ (none, record m { database = database })
        | some w ↦
            let (persisted, (w', database')) = persist (reveal_next_address w) database in
            elim persisted [
              | err e ↦ (none, record m { database = database' })
              | ok _ ↦ (assemble settings seed w', record m { database = database' })
            ]
      ]

  -- `main`, with the random bytes that a new seed gets.
  unfoldable pub start :
      Settings ClientIpSource Network signet
      → Seed
      → Machine Connection
      → Option (AppState bdk.Wallet alloy.Provider) × Machine Connection
  unfolding load_or_create start_with
  start settings random m =
      let (found, disk) = load_or_create random m.disk in
      elim found [
        | err e ↦ (none, record m { disk = disk })
        | ok seed ↦ start_with settings seed (record m { disk = disk })
      ]
