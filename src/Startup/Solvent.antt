-- ===== src/Startup/Solvent.antt =====
-- src/main.rs from the configuration on: the server that a start hands its state to, and what it pays.
use Prim.Native.String.{String}
use faucet_api.Common.{
  ℕ, ◌+◌, ◌*◌, ◌≤◌, ◌≡◌, ◌<◌, ◌^◌, ap, ◌∙◌, inl, inr, Option, some, List, Result, ok, err, arith,
  total, Result-cases, Option-cases,
}
use faucet_api.Chain.{l1, l2}
use faucet_api.Seed.{Seed, load_or_create}
use faucet_api.Settings.{ReadableSettings, Settings, LayerConfig, max_sats_per_claim, try_from}
use faucet_api.Settings.Limits.{try_from_iff}
use faucet_api.Settings.Load.{ConfigCrate, sources, load}
use faucet_api.Pow.Challenge.{Instant}
use faucet_api.Pow.Difficulty
use faucet_api.Pow.Difficulty.{DifficultyConfig}
use faucet_api.Pow.Difficulty.Checks.{new-per_claim}
use faucet_api.Pow.ChallengeSet.{ConcurrentMap, IsLawful}
use faucet_api.Batcher.{WalletApi}
use faucet_api.Server.{Layers, sats_to_wei}
use faucet_api.L1.Wallet.{BdkWallet}
use faucet_api.L1
use faucet_api.L2.{Alloy}
use faucet_api.L2
use faucet_api.Service.{Service, Reach, init}
use faucet_api.Service.Effect.{on, amount_of, waiting}
use faucet_api.Service.Funds.{held}
use faucet_api.Service.Solvency.{solvency}
use faucet_api.Startup.{
  Machine, AppState, difficulty_config, layers_of, assemble, start_with, start,
}

-- A chain whose difficulty was configured gives away something.
difficulty_config-some :
    (layer : LayerConfig) (c : DifficultyConfig)
    → difficulty_config layer ≡ some c
    → 1 ≤ layer.amount_per_claim
unfolding difficulty_config
difficulty_config-some layer c h =
    let made =
      Difficulty.new layer.max_difficulty layer.min_difficulty layer.min_balance
        layer.amount_per_claim layer.difficulty_increase_coeff in
    elim (Result-cases made) [
      | inr (e, p) ↦ absurd (ground arith)
      | inl (c', p) ↦
          new-per_claim layer.max_difficulty layer.min_difficulty layer.min_balance
            layer.amount_per_claim layer.difficulty_increase_coeff c' p
    ]

module _ {ClientIpSource Network : Type 0} (signet : Network)
    (config : ConfigCrate (ReadableSettings ClientIpSource Network signet)) where
  -- The settings that are loaded were let through.
  load-try_from :
      (args : List String) (settings : Settings ClientIpSource Network signet)
      → load signet config args ≡ some settings
      → (r : ReadableSettings ClientIpSource Network signet) × (try_from ClientIpSource Network
            signet r
          ≡ some (ok settings))
  unfolding load
  load-try_from args settings h = elim (Result-cases (config.build (sources signet config args))) [
    | inr (e, p) ↦ absurd (ground arith)
    | inl (built, p) ↦ elim (Result-cases (config.try_deserialize built)) [
      | inr (e, q) ↦ absurd (ground arith)
      | inl (r, q) ↦ elim (Option-cases (try_from ClientIpSource Network signet r)) [
        | inl t ↦ absurd (ground arith)
        | inr (err e, t) ↦ absurd (ground arith)
        | inr (ok s, t) ↦
            let same : s ≡ settings = ground arith in (r, t ∙ ap (λ s. some (ok s)) same)
      ]
    ]
  ]

  load-IsSmall :
      (args : List String) (settings : Settings ClientIpSource Network signet)
      → load signet config args ≡ some settings
      → (settings.l1.amount_per_claim ≤ max_sats_per_claim)
        × (settings.l2.amount_per_claim ≤ max_sats_per_claim)
  load-IsSmall args settings h =
      let (r, t) = load-try_from args settings h in
      elim (try_from_iff ClientIpSource Network signet r) [
        | inr (high, none_left) ↦ absurd (ground arith)
        | inl (low, low', (s, t', same, same', fits)) ↦
            let e : s ≡ settings = ground arith in
            (
              omega (arith, same, ap (λ s. s.l1.amount_per_claim) e),
              omega (arith, same', ap (λ s. s.l2.amount_per_claim) e),
            )
      ]

module _ {ClientIpSource Network Connection : Type 0} (signet bitcoin : Network)
    (bdk : BdkWallet Network Connection) (alloy : Alloy Network)
    (reveal_next_address : bdk.Wallet → bdk.Wallet)
    (persist : bdk.Wallet → Connection → Result (Unit {0}) (Unit {0}) × (bdk.Wallet × Connection))
    (settings : Settings ClientIpSource Network signet) where
  abbrev App : Type 0
  App = AppState bdk.Wallet alloy.Provider

  assemble-configs :
      (seed : Seed) (w : bdk.Wallet) (app : App)
      → assemble signet bitcoin bdk alloy reveal_next_address persist settings seed w ≡ some app
      → (1 ≤ settings.l1.amount_per_claim) × (1 ≤ settings.l2.amount_per_claim)
  unfolding assemble
  assemble-configs seed w app h =
      elim (Option-cases (L2.new bitcoin alloy settings.l2_http_endpoint seed)) [
        | inl p ↦ absurd (ground arith)
        | inr (err e, p) ↦ absurd (ground arith)
        | inr (ok provider, p) ↦ elim (Option-cases (difficulty_config settings.l1)) [
          | inl q ↦ absurd (ground arith)
          | inr (c, q) ↦ elim (Option-cases (difficulty_config settings.l2)) [
            | inl r ↦ absurd (ground arith)
            | inr (c', r) ↦
                (difficulty_config-some settings.l1 c q, difficulty_config-some settings.l2 c' r)
          ]
        ]
      ]

  start_with-configs :
      (seed : Seed) (m : Machine Connection) (app : App)
      → (start_with signet bitcoin bdk alloy reveal_next_address persist settings seed m).0
        ≡ some app
      → (1 ≤ settings.l1.amount_per_claim) × (1 ≤ settings.l2.amount_per_claim)
  unfolding start_with
  start_with-configs seed m app h =
      let opened : Option bdk.Wallet × Connection =
        L1.Wallet.new signet bdk settings.network seed m.database in
      elim (Option-cases opened.0) [
        | inl p ↦ absurd (ground arith)
        | inr (w, p) ↦
            let persisted = persist (reveal_next_address w) opened.1 in
            elim (Result-cases persisted.0) [
              | inr (e, q) ↦ absurd (ground arith)
              | inl (_, q) ↦ assemble-configs seed persisted.1.0 app (ground arith)
            ]
      ]

  start-configs :
      (random : Seed) (m : Machine Connection) (app : App)
      → (start signet bitcoin bdk alloy reveal_next_address persist settings random m).0 ≡ some app
      → (1 ≤ settings.l1.amount_per_claim) × (1 ≤ settings.l2.amount_per_claim)
  unfolding start
  start-configs random m app h = elim (Result-cases (load_or_create random m.disk).0) [
    | inr (e, p) ↦ absurd (ground arith)
    | inl (seed, p) ↦
        start_with-configs seed (record m { disk = (load_or_create random m.disk).1 }) app
          (ground arith)
  ]

  module _ (config : ConfigCrate (ReadableSettings ClientIpSource Network signet))
      (cm : ConcurrentMap) (laws : IsLawful cm) (sha256 : List ℕ → List ℕ) (api : WalletApi)
      (shared : bdk.Wallet → api.Wallet) (Unchecked L2Address : Type 0)
      (require_network : Unchecked → Option api.Address) (pays : api.Tx → List (api.Script × ℕ))
      (honest : (fee : ℕ) (rs : List (api.Script × ℕ)) (w : api.Wallet) (psbt signed : api.Psbt)
          (tx : api.Tx)
        → (api.finish fee rs w).0 ≡ ok psbt
        → api.sign psbt (api.finish fee rs w).1 ≡ ok signed
        → api.extract_tx signed ≡ ok tx
        → pays tx ≡ rs) where
    -- If the settings are loaded, a start with them succeeds, and signed transactions pay the recipients that they were
    -- built for: both amounts of a claim are from 1 sat up to the limit, the one on L2 in wei fits a `u64`, and in every
    -- state that the server reaches from there what its L1 transactions pay, with what is queued or on its way, is at
    -- most the amount of a claim times the number of new L1 challenges, and what it asked of the L2 node at most the
    -- amount in wei times the number of new L2 challenges.
    pub started_solvent :
        (args : List String) (random : Seed) (m : Machine Connection) (app : App) (now : Instant)
        → load signet config args ≡ some settings
        → (start signet bitcoin bdk alloy reveal_next_address persist settings random m).0
          ≡ some app
        → let layers = layers_of settings.l1 settings.l2 app in
          (s : Service cm sha256 api Unchecked L2Address layers require_network settings.batcher)
          → Reach cm sha256 api Unchecked L2Address layers require_network settings.batcher
              (init cm sha256 api Unchecked L2Address layers require_network settings.batcher now
                (shared app.l1_wallet))
              s
          → (1 ≤ settings.l1.amount_per_claim)
            × (settings.l1.amount_per_claim ≤ max_sats_per_claim)
            × (1 ≤ settings.l2.amount_per_claim)
            × (settings.l2.amount_per_claim * sats_to_wei < 2 ^ 64)
            × (held api pays honest s.batcher + waiting s.faucet.payout_sender
                ≤ settings.l1.amount_per_claim * total (on l1) s.issued)
            × (total amount_of s.faucet.l2_sent
                ≤ settings.l2.amount_per_claim * sats_to_wei * total (on l2) s.issued)
    started_solvent args random m app now loaded started s steps =
        let layers : Layers = layers_of settings.l1 settings.l2 app in
        let (small, small') = load-IsSmall signet config args settings loaded in
        let (some_amount, some_amount') = start-configs random m app started in
        let (l1_paid, l2_asked) =
          solvency cm laws sha256 api Unchecked L2Address layers require_network settings.batcher
            pays honest now (shared app.l1_wallet) s steps small' in
        (some_amount, small, some_amount', omega arith, l1_paid, l2_asked)
