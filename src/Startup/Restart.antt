-- ===== src/Startup/Restart.antt =====
-- src/main.rs, `main`: a start and a later one, after a restart of the server.
use Prim.Native.String.{String}
use faucet_api.Common.{
  ◌≡◌, ◌∙◌, sym, ap, inl, inr, true, Option, some, Result, ok, err, Result-cases, Option-cases,
  ok-injective, length, arith,
}
use faucet_api.Seed.{Seed, load_or_create}
use faucet_api.Seed.Reload.{load_or_create_again}
use faucet_api.Settings.{Settings}
use faucet_api.L1.Wallet.{BdkWallet, Laws, external_desc, internal_desc, new-descriptors}
use faucet_api.L1
use faucet_api.L2.{Alloy}
use faucet_api.L2
use faucet_api.Startup.{Machine, AppState, difficulty_config, assemble, start_with, start}

module _ {ClientIpSource Network Connection : Type 0} (signet bitcoin : Network)
    (bdk : BdkWallet Network Connection) (alloy : Alloy Network)
    (reveal_next_address : bdk.Wallet → bdk.Wallet)
    (persist : bdk.Wallet → Connection → Result (Unit {0}) (Unit {0}) × (bdk.Wallet × Connection))
    (settings : Settings ClientIpSource Network signet) where
  abbrev App : Type 0
  App = AppState bdk.Wallet alloy.Provider

  abbrev starts : Seed → Machine Connection → Option App × Machine Connection
  starts = start signet bitcoin bdk alloy reveal_next_address persist settings

  assemble-some :
      (seed : Seed) (w : bdk.Wallet) (app : App)
      → assemble signet bitcoin bdk alloy reveal_next_address persist settings seed w ≡ some app
      → (app.l1_wallet ≡ w)
        × (L2.new bitcoin alloy settings.l2_http_endpoint seed ≡ some (ok app.l2_wallet))
  unfolding assemble
  assemble-some seed w app h =
      elim (Option-cases (L2.new bitcoin alloy settings.l2_http_endpoint seed)) [
        | inl p ↦ ground arith
        | inr (err e, p) ↦ ground arith
        | inr (ok l2, p) ↦ elim (Option-cases (difficulty_config settings.l1)) [
          | inl q ↦ ground arith
          | inr (c, q) ↦ elim (Option-cases (difficulty_config settings.l2)) [
            | inl r ↦ ground arith
            | inr (c', r) ↦ (ground arith, ground arith)
          ]
        ]
      ]

  module _ (laws : Laws signet bdk)
      (reveal-descriptors : (w : bdk.Wallet)
        → laws.descriptors (reveal_next_address w) ≡ laws.descriptors w)
      (persist-descriptors : (w : bdk.Wallet) (c : Connection)
        → laws.descriptors (persist w c).1.0 ≡ laws.descriptors w) where
    -- The wallets are those of the seed.
    abbrev IsOf : Seed → App → Type 0
    IsOf seed app =
        ((rootpriv : String) × (bdk.new_master signet seed ≡ ok rootpriv)
          × (laws.descriptors app.l1_wallet ≡ (external_desc rootpriv, internal_desc rootpriv)))
        × (L2.new bitcoin alloy settings.l2_http_endpoint seed ≡ some (ok app.l2_wallet))

    start_with-IsOf :
        (seed : Seed) (m : Machine Connection) (app : App)
        → (start_with signet bitcoin bdk alloy reveal_next_address persist settings seed m).0
          ≡ some app
        → IsOf seed app
    unfolding start_with
    start_with-IsOf seed m app h =
        let opened : Option bdk.Wallet × Connection =
          L1.Wallet.new signet bdk settings.network seed m.database in
        elim (Option-cases opened.0) [
          | inl p ↦ ground arith
          | inr (w, p) ↦
              let w' : bdk.Wallet = reveal_next_address w in
              elim (Result-cases (persist w' opened.1).0) [
                | inr (e, q) ↦ ground arith
                | inl (_, q) ↦
                    let (l1, l2) =
                      assemble-some seed (persist w' opened.1).1.0 app (ground arith) in
                    let (rootpriv, key, descriptors) =
                      new-descriptors signet bdk laws settings.network seed m.database w p in
                    (
                      (
                        rootpriv,
                        key,
                        ap laws.descriptors l1
                            ∙ persist-descriptors w' opened.1
                            ∙ reveal-descriptors w
                            ∙ descriptors,
                      ),
                      l2,
                    )
              ]
        ]

    start-IsOf :
        (random : Seed) (m : Machine Connection) (app : App)
        → (starts random m).0 ≡ some app
        → (seed : Seed) × ((load_or_create random m.disk).0 ≡ ok seed) × IsOf seed app
    unfolding start
    start-IsOf random m app h = elim (Result-cases (load_or_create random m.disk).0) [
      | inr (e, p) ↦ ground arith
      | inl (seed, p) ↦ (
        seed,
        p,
        start_with-IsOf seed (record m { disk = (load_or_create random m.disk).1 }) app
            (ground arith),
      )
    ]

    start_with-disk :
        (seed : Seed) (m : Machine Connection)
        → (start_with signet bitcoin bdk alloy reveal_next_address persist settings seed m).1.disk
          ≡ m.disk
    unfolding start_with
    start_with-disk seed m =
        let opened : Option bdk.Wallet × Connection =
          L1.Wallet.new signet bdk settings.network seed m.database in
        elim (Option-cases opened.0) [
          | inl p ↦ ground arith
          | inr (w, p) ↦ elim (Result-cases (persist (reveal_next_address w) opened.1).0) [
            | inr (e, q) ↦ ground arith
            | inl (_, q) ↦ ground arith
          ]
        ]

    start-disk :
        (random : Seed) (m : Machine Connection)
        → (starts random m).1.disk ≡ (load_or_create random m.disk).1
    unfolding start
    start-disk random m = elim (Result-cases (load_or_create random m.disk).0) [
      | inr (e, p) ↦ ground arith
      | inl (seed, p) ↦
          let m' : Machine Connection = record m { disk = (load_or_create random m.disk).1 } in
          let kept = start_with-disk seed m' in ground arith
    ]

    -- On a readable disk, if new seeds have 32 bytes and revealing an address or persisting keeps a wallet's
    -- descriptors: when a start succeeds, and so does a later one on the machine that it left,
    -- with whatever random bytes, both have the same L2 wallet, and L1 wallets with the same descriptors.
    pub start_again :
        (random random' : Seed) (m : Machine Connection) (app app' : App)
        → length random ≡ 32
        → m.disk.readable ≡ true
        → (starts random m).0 ≡ some app
        → (starts random' (starts random m).1).0 ≡ some app'
        → (laws.descriptors app'.l1_wallet ≡ laws.descriptors app.l1_wallet)
          × (app'.l2_wallet ≡ app.l2_wallet)
    start_again random random' m app app' long readable first second =
        let (seed, found, ((k, key, descriptors), l2)) = start-IsOf random m app first in
        let (seed', found', ((k', key', descriptors'), l2')) =
          start-IsOf random' (starts random m).1 app' second in
        let (_, again) = load_or_create_again random random' m.disk long readable found in
        let found_again : (load_or_create random' (starts random m).1.disk).0 ≡ ok seed =
          rw (start-disk random m) (ap (λ r. r.0) again) in
        let same : seed ≡ seed' = ok-injective found_again found' in
        let key_again : bdk.new_master signet seed ≡ ok k' = rw same key' in
        let same_key : k ≡ k' = ok-injective key key_again in
        let l2_again : L2.new bitcoin alloy settings.l2_http_endpoint seed
            ≡ some (ok app'.l2_wallet) =
          rw same l2' in
        (
          descriptors'
              ∙ ap (λ x. (external_desc x, internal_desc x)) (sym same_key)
              ∙ sym descriptors,
          ground arith,
        )
