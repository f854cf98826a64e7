-- ===== src/L2.antt =====
-- src/l2.rs: the L2 wallet. Keys are those of the crates bip39 and bitcoin, the wallet and its provider
-- those of the crate alloy: parameters. A panic is `none`.
use Prim.Native.String.{String}
use faucet_api.Common.{
  ℕ, ◌^◌, Option, none, some, List, [], ◌∷◌, Result, ok, err, ltb, if◌then◌else◌,
}
use faucet_api.Seed.{Seed}

pub data ChildNumber : Type 0 where
  hardened : (index : ℕ) → ChildNumber
  normal : (index : ℕ) → ChildNumber

-- m/44'/60'/0'/0/0
abbrev pub bip44_evm_wallet_path : List ChildNumber
bip44_evm_wallet_path = hardened 44 ∷ hardened 60 ∷ hardened 0 ∷ normal 0 ∷ normal 0 ∷ []

pub data L2EndpointParseError : Type 0 where
  l2_endpoint_parse_error : L2EndpointParseError

-- What the code uses of the crates.
pub record Alloy (Network : Type 0) : Type 1 where
  pub Mnemonic : Type 0
  pub Xpriv : Type 0
  pub Signer : Type 0
  pub EthereumWallet : Type 0
  pub Url : Type 0
  pub Provider : Type 0
  pub Address : Type 0
  pub from_entropy : Seed → Result Mnemonic (Unit {0})
  pub to_seed : Mnemonic → String → List ℕ
  pub new_master : Network → List ℕ → Result Xpriv (Unit {0})
  pub derive_priv : Xpriv → List ChildNumber → Result Xpriv (Unit {0})
  pub secret_bytes : Xpriv → List ℕ
  pub from_slice : List ℕ → Result Signer (Unit {0})
  pub wallet_from : Signer → EthereumWallet
  pub parse : String → Result Url (Unit {0})
  pub connect_http : EthereumWallet → Url → Provider
  pub default_signer_address : Provider → Address

module _ {Network : Type 0} (bitcoin : Network) (alloy : Alloy Network) where
  open alloy use {
    Xpriv, EthereumWallet, Provider, Address, from_entropy, to_seed, new_master, derive_priv,
    secret_bytes, from_slice, wallet_from, parse, connect_http,
  }

  -- `get_bip44_evm_wallet` from the master key on.
  unfoldable pub wallet_at : List ChildNumber → Xpriv → Option EthereumWallet
  wallet_at derivation_path master_key = elim (derive_priv master_key derivation_path) [
    | err e ↦ none
    | ok derived_key ↦ elim (from_slice (secret_bytes derived_key)) [
      | err e ↦ none
      | ok signer ↦ some (wallet_from signer)
    ]
  ]

  -- `L2Wallet::get_bip44_evm_wallet`
  unfoldable pub get_bip44_evm_wallet : Seed → Option EthereumWallet
  unfolding wallet_at
  get_bip44_evm_wallet seed = elim (from_entropy seed) [
    | err e ↦ none
    | ok mnemonic ↦ elim (new_master bitcoin (to_seed mnemonic "")) [
      | err e ↦ none
      | ok master_key ↦ wallet_at bip44_evm_wallet_path master_key
    ]
  ]

  -- `L2Wallet::new`, with the endpoint of the settings.
  unfoldable pub new : String → Seed → Option (Result Provider L2EndpointParseError)
  unfolding get_bip44_evm_wallet
  new l2_http_endpoint seed = elim (get_bip44_evm_wallet seed) [
    | none ↦ none
    | some wallet ↦ elim (parse l2_http_endpoint) [
      | err e ↦ some (err l2_endpoint_parse_error)
      | ok url ↦ some (ok (connect_http wallet url))
    ]
  ]

-- `get_default_signer_balance`, from what the provider answered; `U256::to::<u128>` panics when the
-- number does not fit.
unfoldable pub get_default_signer_balance : Result ℕ (Unit {0}) → Option (Result ℕ String)
get_default_signer_balance (ok x) = if ltb x (2 ^ 128) then some (ok x) else none
get_default_signer_balance (err e) = some (err "Could not fetch l2 balance")
