-- ===== src/Startup/Crates.antt =====
-- src/main.rs, `main`: what a start relies on, and when the L1 wallet can be opened.
use Prim.Native.String.{String}
use faucet_api.Common.{
  ℕ, ◌≡◌, ◌∙◌, ◌⊎◌, inl, inr, Option, none, some, List, Result, ok, length, arith, Result-cases,
}
use faucet_api.Seed.{Seed}
use faucet_api.Settings.{Settings}
use faucet_api.L1.Wallet.{BdkWallet, create_missing, open_wallet}
use faucet_api.L1
use faucet_api.L2.{Alloy}

abbrev pub Succeeds : {A E : Type 0} → Result A E → Type 0
Succeeds {A} r = (a : A) × (r ≡ ok a)

module _ {ClientIpSource Network Connection : Type 0} (signet bitcoin : Network)
    (bdk : BdkWallet Network Connection) (alloy : Alloy Network)
    (reveal_next_address : bdk.Wallet → bdk.Wallet)
    (persist : bdk.Wallet → Connection → Result (Unit {0}) (Unit {0}) × (bdk.Wallet × Connection))
    (settings : Settings ClientIpSource Network signet) where
  -- The descriptors and the network of a wallet.
  abbrev pub Stored : Type 0
  Stored = String × String × Network

  -- What the crates are relied on for: 32 bytes are entropy for a mnemonic, the keys that are derived are valid,
  -- the database answers, and the endpoint is a URL. The database holds one wallet or none: a load gives that
  -- wallet if it has the descriptors and the network that are asked for, else an error, and changes nothing of it;
  -- a wallet is created where there is none.
  pub record IsReliable : Type 0 where
    pub l1_key : (seed : Seed) → length seed ≡ 32 → Succeeds (bdk.new_master signet seed)
    pub stored : Connection → Option Stored
    pub loads_none :
        (external internal : String) (network : Network) (c : Connection)
        → stored c ≡ none
        → (bdk.load_wallet external internal network c).0 ≡ ok none
    pub loads_same :
        (external internal : String) (network : Network) (c : Connection)
        → stored c ≡ some (external, internal, network)
        → (w : bdk.Wallet) × ((bdk.load_wallet external internal network c).0 ≡ ok (some w))
    pub loads_found :
        (external internal : String) (network : Network) (c : Connection)
        (found : Option bdk.Wallet)
        → (bdk.load_wallet external internal network c).0 ≡ ok found
        → (stored c ≡ none) ⊎ (stored c ≡ some (external, internal, network))
    pub load_stored :
        (external internal : String) (network : Network) (c : Connection)
        → stored (bdk.load_wallet external internal network c).1 ≡ stored c
    pub creates :
        (external internal : String) (network : Network) (c : Connection)
        → stored c ≡ none
        → Succeeds (bdk.create_wallet external internal network c).0
    pub persists : (w : bdk.Wallet) (c : Connection) → Succeeds (persist w c).0
    pub entropy : (seed : Seed) → length seed ≡ 32 → Succeeds (alloy.from_entropy seed)
    pub l2_key : (bytes : List ℕ) → Succeeds (alloy.new_master bitcoin bytes)
    pub derives : (key : alloy.Xpriv) (path : _) → Succeeds (alloy.derive_priv key path)
    pub signs : (key : alloy.Xpriv) → Succeeds (alloy.from_slice (alloy.secret_bytes key))
    pub endpoint : Succeeds (alloy.parse settings.l2_http_endpoint)

  module _ (reliable : IsReliable) where
    open reliable use {
      l1_key, stored, loads_none, loads_same, loads_found, load_stored, creates, persists, entropy,
      l2_key, derives, signs, endpoint,
    }

    -- The database holds no wallet, or that of the seed.
    abbrev pub IsFor : Seed → Connection → Type 0
    IsFor seed c =
        (rootpriv : String) × (bdk.new_master signet seed ≡ ok rootpriv)
        × ((stored c ≡ none)
            ⊎ (stored c
                ≡ some (
                  L1.Wallet.external_desc rootpriv,
                  L1.Wallet.internal_desc rootpriv,
                  settings.network,
                )))

    open_wallet-opens :
        (external internal : String) (c : Connection)
        → (stored c ≡ none) ⊎ (stored c ≡ some (external, internal, settings.network))
        → (w : bdk.Wallet) × ((open_wallet signet bdk external internal settings.network c).0
            ≡ some w)
    unfolding open_wallet create_missing
    open_wallet-opens external internal c (inr same) =
        let (w, loaded) = loads_same external internal settings.network c same in (w, ground arith)
    open_wallet-opens external internal c (inl nothing) =
        let c' : Connection = (bdk.load_wallet external internal settings.network c).1 in
        let (w, created) =
          creates external internal settings.network c'
            (load_stored external internal settings.network c ∙ nothing) in
        let loaded = loads_none external internal settings.network c nothing in (w, ground arith)

    open_wallet-stored :
        (external internal : String) (c : Connection) (w : bdk.Wallet)
        → (open_wallet signet bdk external internal settings.network c).0 ≡ some w
        → (stored c ≡ none) ⊎ (stored c ≡ some (external, internal, settings.network))
    unfolding open_wallet
    open_wallet-stored external internal c w h =
        elim (Result-cases (bdk.load_wallet external internal settings.network c).0) [
          | inr (e, p) ↦ ground arith
          | inl (found, p) ↦ loads_found external internal settings.network c found p
        ]

    pub l1_opens :
        (seed : Seed) (c : Connection)
        → IsFor seed c
        → (w : bdk.Wallet) × ((L1.Wallet.new signet bdk settings.network seed c).0 ≡ some w)
    unfolding L1.Wallet.new
    l1_opens seed c (rootpriv, key, holds) =
        let (w, opens) = open_wallet-opens _ _ c holds in (w, ground arith)

    pub l1-IsFor :
        (seed : Seed) (c : Connection) (w : bdk.Wallet)
        → (L1.Wallet.new signet bdk settings.network seed c).0 ≡ some w
        → IsFor seed c
    unfolding L1.Wallet.new
    l1-IsFor seed c w h = elim (Result-cases (bdk.new_master signet seed)) [
      | inr (e, p) ↦ ground arith
      | inl (rootpriv, p) ↦ (rootpriv, p, open_wallet-stored _ _ c w (ground arith))
    ]
