-- ===== src/L1/Wallet.antt =====
-- src/l1.rs: `L1Wallet::new`. Keys and wallets are those of the crates bitcoin and bdk_wallet: parameters,
-- over the connection that their persister uses. A panic is `none`.
use Prim.Native.String.{String, ◌++◌, count}
use text.Mathlib.TextLemmas.{append_cancel_left, append_cancel_right, append_inj, length-append}
use text.Mathlib.Text.{◌==◌}
use mathlib.Core.Bool.{true≢false}
use faucet_api.Common.{
  ◌↔◌, refl, Result-cases, inl, inr, arith, ap, ◌≡◌, ◌≢◌, Option, none, some, Result, ok, err,
}
use faucet_api.Seed.{Seed}

-- What the code uses of the two crates.
pub record BdkWallet (Network Connection : Type 0) : Type 1 where
  pub Wallet : Type 0
  pub Error : Type 0
  -- `Xpriv::new_master`, written out in base 58
  pub new_master : Network → Seed → Result String (Unit {0})
  -- `Wallet::load` with both descriptors, `extract_keys`, `check_network` and `load_wallet`
  pub load_wallet :
      String → String → Network → Connection → Result (Option Wallet) Error × Connection
  -- `Wallet::create` with both descriptors, `network` and `create_wallet`
  pub create_wallet : String → String → Network → Connection → Result Wallet Error × Connection

unfoldable pub base_desc : String → String
base_desc rootpriv = "tr(" ++ (rootpriv ++ "/86h/0h/0h")

unfoldable pub external_desc : String → String
external_desc rootpriv = base_desc rootpriv ++ "/0/*)"

unfoldable pub internal_desc : String → String
internal_desc rootpriv = base_desc rootpriv ++ "/1/*)"

module _ {Network Connection : Type 0} (signet : Network) (bdk : BdkWallet Network Connection) where
  open bdk use {Wallet, Error, new_master, load_wallet, create_wallet}

  -- `unwrap_or_else`: a wallet that was not found is created.
  unfoldable pub create_missing :
      String → String → Network → Option Wallet → Connection → Option Wallet × Connection
  create_missing external internal network (some w) c = (some w, c)
  create_missing external internal network none c =
      let (created, c') = create_wallet external internal network c in
      (elim created [ err e ↦ none | ok w ↦ some w ], c')

  -- `L1Wallet::new` with the descriptors.
  unfoldable pub open_wallet : String → String → Network → Connection → Option Wallet × Connection
  unfolding create_missing
  open_wallet external internal network c =
      let (loaded, c') = load_wallet external internal network c in
      elim loaded [
        | err e ↦ (none, c')
        | ok found ↦ create_missing external internal network found c'
      ]

  -- `L1Wallet::new`. The master key is one of Signet whatever the network. It never gives an `io::Error`.
  unfoldable pub new : Network → Seed → Connection → Option Wallet × Connection
  unfolding open_wallet
  new network seed c = elim (new_master signet seed) [
    | err e ↦ (none, c)
    | ok rootpriv ↦ open_wallet (external_desc rootpriv) (internal_desc rootpriv) network c
  ]

  -- What bdk_wallet documents: a wallet that is loaded or created has the descriptors that were asked for.
  pub record Laws : Type 0 where
    pub descriptors : Wallet → String × String
    pub load_descriptors :
        {external internal : String} {network : Network} {c : Connection} {w : Wallet}
        → (load_wallet external internal network c).0 ≡ ok (some w)
        → descriptors w ≡ (external, internal)
    pub create_descriptors :
        {external internal : String} {network : Network} {c : Connection} {w : Wallet}
        → (create_wallet external internal network c).0 ≡ ok w
        → descriptors w ≡ (external, internal)

  module _ (laws : Laws) where
    open laws use {descriptors, load_descriptors, create_descriptors}

    open_wallet-descriptors :
        (external internal : String) (network : Network) (c : Connection) (w : Wallet)
        → (open_wallet external internal network c).0 ≡ some w
        → descriptors w ≡ (external, internal)
    unfolding open_wallet
    open_wallet-descriptors external internal network c w h =
        let loaded : Connection = (load_wallet external internal network c).1 in
        elim (Result-cases (load_wallet external internal network c).0) [
          | inr (e, p) ↦ ground arith
          | inl (none, p) ↦ elim (Result-cases (create_wallet external internal network loaded).0) [
            | inr (e, q) ↦ ground arith
            | inl (w', q) ↦ let same : w' ≡ w = ground arith in rw (← same) (create_descriptors q)
          ]
          | inl (some w', p) ↦ let same : w' ≡ w = ground arith in rw (← same) (load_descriptors p)
        ]

    -- A wallet that `new` returns has the two descriptors of the seed's key.
    pub new-descriptors :
        (network : Network) (seed : Seed) (c : Connection) (w : Wallet)
        → (new network seed c).0 ≡ some w
        → (rootpriv : String) × (new_master signet seed ≡ ok rootpriv)
          × (descriptors w ≡ (external_desc rootpriv, internal_desc rootpriv))
    unfolding new
    new-descriptors network seed c w h = elim (Result-cases (new_master signet seed)) [
      | inr (e, p) ↦ ground arith
      | inl (rootpriv, p) ↦ (rootpriv, p, open_wallet-descriptors _ _ network c w (ground arith))
    ]

-- What stands before tails of one length is equal if the wholes are.
tails-inj : (s s' t t' : String) → count t ≡ count t' → s ++ t ≡ s' ++ t' → (s ≡ s') × (t ≡ t')
tails-inj s s' t t' same p =
    append_inj p (omega (arith, same, ap count p, length-append s t, length-append s' t'))

base_desc-inj : (k k' : String) → base_desc k ≡ base_desc k' → k ≡ k'
unfolding base_desc
base_desc-inj k k' p =
    append_cancel_right k k' "/86h/0h/0h"
      (append_cancel_left "tr(" (k ++ "/86h/0h/0h") (k' ++ "/86h/0h/0h") p)

-- Two keys have the same external descriptor just if they are equal, and the same internal one just if they
-- are equal, and no external descriptor is an internal one, be it of the same key or of another.
pub keychains_apart :
    (k k' : String)
    → ((external_desc k ≡ external_desc k') ↔ (k ≡ k'))
      × ((internal_desc k ≡ internal_desc k') ↔ (k ≡ k'))
      × (external_desc k ≢ internal_desc k')
unfolding external_desc internal_desc
keychains_apart k k' = (
  (
    λ p. base_desc-inj k k' (append_cancel_right (base_desc k) (base_desc k') "/0/*)" p),
    ap external_desc,
  ),
  (
    λ p. base_desc-inj k k' (append_cancel_right (base_desc k) (base_desc k') "/1/*)" p),
    ap internal_desc,
  ),
  λ p.
      true≢false
        (ap (λ t. t == "/0/*)") (tails-inj (base_desc k) (base_desc k') "/0/*)" "/1/*)" refl p).1),
)
