-- ===== src/Server/PowChallenge.antt =====
-- src/main.rs, `get_pow_challenge`: its answers and the store.
use Prim.Native.String.{String}
use faucet_api.Common.{
  ℕ, none, ◌+◌, ◌^◌, ◌≤◌, ◌⊎◌, ltb, not-ltb→le, Bool-cases, ◌≡◌, refl, ◌∙◌, inl, inr, Option, some,
  Result, ok, err, arith, Option-cases,
}
use faucet_api.Chain
use faucet_api.Chain.{Chain, l1, l2, IpAddr, v4, v6, unprocessable_entity}
use faucet_api.Pow.Challenge.{Instant, instant_end, Duration, Nonce, Challenge}
use faucet_api.Pow.ChallengeSet.{ConcurrentMap, IsLawful}
use faucet_api.Pow.Eviction.{Store}
use faucet_api.Pow.Claims.{fresh}
use faucet_api.Pow.Claims.Get.{get_absent, get_present}
use faucet_api.Pow.Difficulty.{calculate_difficulty}
use faucet_api.L2.{get_default_signer_balance}
use faucet_api.Server.{
  HttpError, ProvidedChallenge, Layers, provide, challenge_for, get_pow_challenge, balance_of,
  layer_of,
}

-- What makes `get_pow_challenge` panic: an L2 balance in wei that is no `u128`, or an expiry past the range of an
-- `Instant`.
abbrev pub Panics : Chain → Result ℕ (Unit {0}) → Duration → Instant → Type 0
Panics chain l2_balance duration now =
    ((chain ≡ l2) × (wei : ℕ) × (l2_balance ≡ ok wei) × (2 ^ 128 ≤ wei))
    ⊎ (instant_end ≤ now + duration)

module _ (cm : ConcurrentMap) (laws : IsLawful cm) where
  -- An answer with a challenge shows the nonce and difficulty of one that is stored for a client with an
  -- IPv4 address.
  pub record Provides (ip : IpAddr) (chain : Chain) (s' : Store cm) (p : ProvidedChallenge)
      : Type 0 where
    pub address : ℕ
    pub is_v4 : ip ≡ v4 address
    pub challenge : Challenge
    pub stored : cm.get (address, chain) s'.set ≡ some challenge
    pub nonce : p.nonce ≡ challenge.nonce
    pub difficulty : p.difficulty ≡ challenge.difficulty

  -- What `get_pow_challenge` may answer: a stored challenge, or an error with the store as it was.
  abbrev pub IsAnswer :
      IpAddr → Chain → Store cm → Result ProvidedChallenge HttpError → Store cm → Type 0
  IsAnswer ip chain s (ok p) s' = Provides ip chain s' p
  IsAnswer ip chain s (err e) s' = s' ≡ s

  abbrev Answers :
      IpAddr → Chain → Store cm → Option (Result ProvidedChallenge HttpError × Store cm) → Type 0
  Answers ip chain s r =
      (answer : Result ProvidedChallenge HttpError) × (s' : Store cm) × (r ≡ some (answer, s'))
      × IsAnswer ip chain s answer s'

  provide-Answers :
      (ip : IpAddr) (chain : Chain) (difficulty : ℕ) (duration : Duration) (nonce : Nonce)
      (now : Instant) (s : Store cm)
      → ((provide cm ip chain difficulty duration nonce now s ≡ none)
          × (instant_end ≤ now + duration))
        ⊎ Answers ip chain s (provide cm ip chain difficulty duration nonce now s)
  unfolding provide
  provide-Answers (v6 a) chain difficulty duration nonce now s =
      inr (err (unprocessable_entity, "IPV6 is not supported at the moment"), s, refl, refl)
  provide-Answers (v4 a) chain difficulty duration nonce now s =
      elim (Bool-cases (ltb (now + duration) instant_end)) [
        | inr f ↦ inl (ground arith, not-ltb→le _ _ f)
        | inl t ↦ elim (Option-cases (cm.get (a, chain) s.set)) [
          | inl p ↦
              let (s', run, stored, _, _) =
                get_absent cm laws chain a difficulty duration nonce now s p in
              inr (
                ok (record { nonce = nonce; difficulty = difficulty }),
                s',
                ground arith,
                record {
                  address = a;
                  is_v4 = refl;
                  challenge = fresh nonce difficulty duration now;
                  stored = stored;
                  nonce = refl;
                  difficulty = refl;
                },
              )
          | inr (c, p) ↦
              let (s', run, same, _) =
                get_present cm laws chain a difficulty duration nonce now s p in
              inr (
                ok (record { nonce = c.nonce; difficulty = c.difficulty }),
                s',
                ground arith,
                record {
                  address = a;
                  is_v4 = refl;
                  challenge = c;
                  stored = same (a, chain) ∙ p;
                  nonce = refl;
                  difficulty = refl;
                },
              )
        ]
      ]

  balance_of-none :
      (chain : Chain) (l1_balance : ℕ) (l2_balance : Result ℕ (Unit {0}))
      → balance_of chain l1_balance l2_balance ≡ none
      → (chain ≡ l2) × (wei : ℕ) × (l2_balance ≡ ok wei) × (2 ^ 128 ≤ wei)
  unfolding balance_of get_default_signer_balance
  balance_of-none l1 l1_balance l2_balance h = ground arith
  balance_of-none l2 l1_balance (err e) h = ground arith
  balance_of-none l2 l1_balance (ok wei) h = elim (Bool-cases (ltb wei (2 ^ 128))) [
    | inl t ↦ ground arith
    | inr f ↦ (refl, wei, refl, not-ltb→le _ _ f)
  ]

  challenge_for-Answers :
      (layers : Layers) (l1_balance : ℕ) (l2_balance : Result ℕ (Unit {0})) (ip : IpAddr)
      (chain : Chain) (nonce : Nonce) (now : Instant) (s : Store cm)
      → ((challenge_for cm layers l1_balance l2_balance ip chain nonce now s ≡ none)
          × Panics chain l2_balance (layer_of chain layers).0.challenge_duration now)
        ⊎ Answers ip chain s (challenge_for cm layers l1_balance l2_balance ip chain nonce now s)
  unfolding challenge_for
  challenge_for-Answers layers l1_balance l2_balance ip chain nonce now s =
      elim (Option-cases (balance_of chain l1_balance l2_balance)) [
        | inl p ↦ inl (ground arith, inl (balance_of-none chain l1_balance l2_balance p))
        | inr (err e, p) ↦ inr (err e, s, ground arith, refl)
        | inr (ok balance, p) ↦
            let (layer_config, difficulty_config) = layer_of chain layers in
            elim (provide-Answers ip chain (calculate_difficulty difficulty_config balance)
              layer_config.challenge_duration nonce now s) [
                | inl (run, late) ↦ inl (ground arith, inr late)
                | inr (answer, s', run, good) ↦ inr (answer, s', ground arith, good)
              ]
      ]

  -- For a chain that exists `get_pow_challenge` panics only if the node's L2 balance is asked for and no `u128`, or
  -- the expiry is past the range of an `Instant`. Else it answers with a challenge that is stored for the client's
  -- IPv4 address and that chain, or with an error, and then the store is unchanged.
  pub get_pow_challenge-IsAnswer :
      (layers : Layers) (l1_balance : ℕ) (l2_balance : Result ℕ (Unit {0})) (ip : IpAddr)
      (text : String) (chain : Chain) (nonce : Nonce) (now : Instant) (s : Store cm)
      → Chain.try_from text ≡ ok chain
      → ((get_pow_challenge cm layers l1_balance l2_balance ip text nonce now s ≡ none)
          × Panics chain l2_balance (layer_of chain layers).0.challenge_duration now)
        ⊎ ((answer : Result ProvidedChallenge HttpError) × (s' : Store cm) × (get_pow_challenge cm
                layers l1_balance l2_balance ip text nonce now s
              ≡ some (answer, s'))
            × IsAnswer ip chain s answer s')
  unfolding get_pow_challenge
  get_pow_challenge-IsAnswer layers l1_balance l2_balance ip text chain nonce now s e =
      elim (challenge_for-Answers layers l1_balance l2_balance ip chain nonce now s) [
        | inl (run, panics) ↦ inl (ground arith, panics)
        | inr (answer, s', run, good) ↦ inr (answer, s', ground arith, good)
      ]
