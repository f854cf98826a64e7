-- ===== src/Pow/Claims/Get.antt =====
-- What `Challenge::get` of src/pow.rs returns and changes.
use faucet_api.Common.{ℕ, ◌≡◌, ◌≢◌, refl, none, some, arith}
use faucet_api.Chain.{Chain}
use faucet_api.Pow.Challenge.{Instant, Duration, Nonce, Challenge, Key}
use faucet_api.Pow.ChallengeSet.{ConcurrentMap, IsLawful}
use faucet_api.Pow.Eviction.{add_challenge, Store}
use faucet_api.Pow.Claims.{fresh, get}

module _ (cm : ConcurrentMap) (laws : IsLawful cm) where
  open laws use {cas_success, cas_failure, get-cas_same, get-cas_failure, get-cas_other}

  module _ (chain : Chain) (ip difficulty : ℕ) (duration : Duration) (nonce : Nonce) (now : Instant)
      (s : Store cm) where
    abbrev offered : Challenge
    offered = fresh nonce difficulty duration now

    -- The state after the compare-and-swap of `get`.
    abbrev swapped : cm.Map
    swapped = (cm.cas (ip, chain) none (some offered) s.set).1

    -- With no challenge for the address, `get` issues the fresh one: it is in the set, the challenges
    -- of all other addresses stay, and the eviction queue has its entry.
    pub get_absent :
        cm.get (ip, chain) s.set ≡ none
        → (s' : Store cm) × (get cm chain ip difficulty duration nonce now s
            ≡ some (fresh nonce difficulty duration now, s'))
          × (cm.get (ip, chain) s'.set ≡ some (fresh nonce difficulty duration now))
          × ((j : Key) → j ≢ (ip, chain) → cm.get j s'.set ≡ cm.get j s.set)
          × (s'.queue ≡ add_challenge (fresh nonce difficulty duration now) ip chain s.queue)
    unfolding get
    get_absent h = (
      record { set = swapped; queue = add_challenge offered ip chain s.queue },
      ground (arith, cas_success (ip, chain) none (some offered) s.set h),
      get-cas_same (ip, chain) none (some offered) s.set h,
      λ j ne. get-cas_other (ip, chain) j none (some offered) s.set ne,
      refl,
    )

    -- A challenge that is there is returned as it is, and nothing that can be observed changes.
    pub get_present :
        {c : Challenge}
        → cm.get (ip, chain) s.set ≡ some c
        → (s' : Store cm) × (get cm chain ip difficulty duration nonce now s ≡ some (c, s'))
          × ((j : Key) → cm.get j s'.set ≡ cm.get j s.set)
          × (s'.queue ≡ s.queue)
    unfolding get
    get_present {c} h =
        let taken : cm.get (ip, chain) s.set ≢ none = λ e. cc in
        (
          record s { set = swapped },
          ground (arith, cas_failure (ip, chain) none (some offered) s.set taken, h),
          λ j. get-cas_failure (ip, chain) j none (some offered) s.set taken,
          refl,
        )
