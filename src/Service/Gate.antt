-- ===== src/Service/Gate.antt =====
-- The gate of src/pow.rs over the requests and the tasks of the server: for each key, what may still pass.
use Prim.Native.String.{String}
use faucet_api.Common.{
  length, suc, ltb, ℕ, ◌+◌, ◌≤◌, ◌≡◌, ◌≢◌, ap, inl, inr, Option, some, List, [], ◌∷◌, Result, ok,
  err, arith, Option-cases, Result-cases, Bool-cases, count, same_refl, same_other,
}
use faucet_api.Chain
use faucet_api.Chain.{Chain, l1, l2, IpAddr, v4, v6}
use faucet_api.Pow.Challenge.{
  Instant, instant_end, Duration, Nonce, Solution, Challenge, Key, Key-discrete, PowError,
}
use faucet_api.Pow.ChallengeSet.{ConcurrentMap, IsLawful}
use faucet_api.Pow.Eviction.{EvictionEntry, Store, key_of, remove_all, drain, remove_expired, wake}
use faucet_api.Pow.Claims.{get, check_solution, verify}
use faucet_api.Pow.Claims.Get.{get_absent, get_present}
use faucet_api.Pow.Claims.Check.{check_solution-IsChecked}
use faucet_api.Pow.Threads.Gate.{open_for}
use faucet_api.Pow.Difficulty.{calculate_difficulty}
use faucet_api.Server.{
  HttpError, ProvidedChallenge, Layers, Faucet, provide, challenge_for, get_pow_challenge,
  balance_of, layer_of,
}
use faucet_api.Service.Router.{key_for, new_at, passed_with, passed_at}

-- How often a key stands in a list.
abbrev pub times : Key → List Key → ℕ
times = count Key-discrete

passed_with-own : (k : Key) (r : Result (Unit {0}) PowError) → times k (passed_with k r) ≤ 1
passed_with-own k (ok _) = omega (arith, same_refl Key-discrete k)
passed_with-own k (err _) = omega arith

passed_with-other :
    (k j : Key) (r : Result (Unit {0}) PowError) → j ≢ k → times j (passed_with k r) ≡ 0
passed_with-other k j (ok _) n = omega (arith, same_other Key-discrete j k n)
passed_with-other k j (err _) n = omega arith

module _ (cm : ConcurrentMap) (laws : IsLawful cm) (sha256 : List ℕ → List ℕ) where
  abbrev pub open_at : Key → Store cm → ℕ
  open_at k s = open_for (cm.get k s.set)

  -- What an attempt lets pass for its own key.
  passed_at-own :
      (chain : Chain) (ip : ℕ) (solution : Solution) (s : Store cm)
      → times (ip, chain) (passed_at cm sha256 chain (v4 ip) solution s)
          + open_at (ip, chain) (check_solution cm sha256 chain ip solution s).1
        ≤ open_at (ip, chain) s
  passed_at-own chain ip solution s =
      let checked = check_solution-IsChecked cm laws sha256 chain ip solution s in
      let one = same_refl Key-discrete (ip, chain) in
      elim (Option-cases (cm.get (ip, chain) s.set)) [
        | inl p ↦ rw (checked.returned, checked.marked, p) (omega arith)
        | inr (c, p) ↦ elim (Bool-cases c.claimed) [
          | inl t ↦ rw (checked.returned, checked.marked, p) (simp t (omega arith))
          | inr f ↦
              rw (checked.returned, checked.marked, p)
                (simp f (omega (arith, passed_with-own (ip, chain) (verify sha256 c solution))))
        ]
      ]

  pub passed_at-open :
      (chain : Chain) (ip : IpAddr) (solution : Solution) (s : Store cm) (j : Key)
      → times j (passed_at cm sha256 chain ip solution s)
          + open_at j
              (elim ip [ v4 a ↦ (check_solution cm sha256 chain a solution s).1 | v6 _ ↦ s ])
        ≤ open_at j s
  passed_at-open chain (v6 a) solution s j = omega arith
  passed_at-open chain (v4 a) solution s j =
      let checked = check_solution-IsChecked cm laws sha256 chain a solution s in
      elim (Key-discrete j (a, chain)) [
        | yes e ↦ rw e (passed_at-own chain a solution s)
        | no n ↦ rw (checked.others j n) (
            omega (
              arith,
              passed_with-other (a, chain) j (check_solution cm sha256 chain a solution s).0 n,
            ))
      ]

  -- A call of `get` opens the gate at most for a challenge that was not there.
  get-open :
      (chain : Chain) (ip difficulty : ℕ) (duration : Duration) (nonce : Nonce) (now : Instant)
      (s s' : Store cm) (c : Challenge)
      → get cm chain ip difficulty duration nonce now s ≡ some (c, s')
      → (j : Key) → open_at j s' ≤ open_at j s + times j (new_at cm (some (ip, chain)) s s')
  get-open chain ip difficulty duration nonce now s s' c h j =
      elim (Option-cases (cm.get (ip, chain) s.set)) [
        | inr (c', p) ↦
            let (s₁, run, same_set, _) =
              get_present cm laws chain ip difficulty duration nonce now s p in
            let e : s₁ ≡ s' = ground arith in rw (← e, same_set j) (omega arith)
        | inl p ↦
            let (s₁, run, stored, others, _) =
              get_absent cm laws chain ip difficulty duration nonce now s p in
            let e : s₁ ≡ s' = ground arith in
            elim (Key-discrete j (ip, chain)) [
              | yes own ↦
                  rw (own, ← e, p, stored) (omega (arith, same_refl Key-discrete (ip, chain)))
              | no n ↦ rw (← e, others j n) (omega arith)
            ]
      ]

  remove_all-open :
      (es : List EvictionEntry) (set : cm.Map) (j : Key)
      → open_for (cm.get j (remove_all cm es set)) ≤ open_for (cm.get j set)
  unfolding remove_all
  remove_all-open [] set j = omega arith
  remove_all-open (e ∷ es) set j =
      let rest = remove_all-open es (cm.remove (key_of e) set).1 j in
      elim (Key-discrete j (key_of e)) [
        | yes own ↦ omega (
          arith,
          rest,
          ap (λ k. open_for (cm.get k (cm.remove (key_of e) set).1)) own,
          ap open_for (laws.get-remove_same (key_of e) set),
        )
        | no n ↦ omega (arith, rest, ap open_for (laws.get-remove_other (key_of e) j set n))
      ]

  pub wake-open :
      (now : Instant) (s s' : Store cm) (j : Key)
      → wake cm now s ≡ some s'
      → open_at j s' ≤ open_at j s
  unfolding wake remove_expired
  wake-open now s s' j h = elim (Option-cases (drain (suc (length s.queue.q)) now s.queue.q)) [
    | inl p ↦ ground arith
    | inr ((es, left, w), p) ↦
        let same_set : s'.set ≡ remove_all cm es s.set = elim (Option-cases w) [
          | inl q ↦ ground arith
          | inr (t, q) ↦ ground arith
        ] in
        rw same_set (remove_all-open es s.set j)
  ]

module _ (cm : ConcurrentMap) (laws : IsLawful cm) (sha256 : List ℕ → List ℕ)
    (Unchecked Address L2Address : Type 0) (layers : Layers)
    (require_network : Unchecked → Option Address) where
  abbrev Site : Type 0
  Site = Faucet cm sha256 Unchecked Address L2Address

  provide-open :
      (ip : IpAddr) (chain : Chain) (difficulty : ℕ) (duration : Duration) (nonce : Nonce)
      (now : Instant) (s s' : Store cm) (r : Result ProvidedChallenge HttpError)
      → provide cm ip chain difficulty duration nonce now s ≡ some (r, s')
      → (j : Key)
      → open_at cm laws sha256 j s'
        ≤ open_at cm laws sha256 j s + times j (new_at cm (key_for ip (ok chain)) s s')
  unfolding provide
  provide-open (v6 a) chain difficulty duration nonce now s s' r h j =
      let e : s ≡ s' = ground arith in rw (← e) (omega arith)
  provide-open (v4 a) chain difficulty duration nonce now s s' r h j =
      elim (Bool-cases (ltb (now + duration) instant_end)) [
        | inr f ↦ ground arith
        | inl t ↦ elim (Option-cases (get cm chain a difficulty duration nonce now s)) [
          | inl p ↦ ground arith
          | inr ((c, s₁), p) ↦
              let e : s₁ ≡ s' = ground arith in
              rw (← e) (get-open cm laws sha256 chain a difficulty duration nonce now s s₁ c p j)
        ]
      ]

  pub get_pow_challenge-open :
      (l1_balance : ℕ) (l2_balance : Result ℕ (Unit {0})) (ip : IpAddr) (text : String)
      (nonce : Nonce) (now : Instant) (s s' : Store cm) (r : Result ProvidedChallenge HttpError)
      → get_pow_challenge cm layers l1_balance l2_balance ip text nonce now s ≡ some (r, s')
      → (j : Key)
      → open_at cm laws sha256 j s'
        ≤ open_at cm laws sha256 j s + times j (new_at cm (key_for ip (Chain.try_from text)) s s')
  unfolding get_pow_challenge challenge_for
  get_pow_challenge-open l1_balance l2_balance ip text nonce now s s' r h j =
      elim (Result-cases (Chain.try_from text)) [
        | inr (e, p) ↦ let same : s ≡ s' = ground arith in rw (← same) (omega arith)
        | inl (chain, p) ↦ elim (Option-cases (balance_of chain l1_balance l2_balance)) [
          | inl q ↦ ground arith
          | inr (err e, q) ↦ let same : s ≡ s' = ground arith in rw (← same) (omega arith)
          | inr (ok balance, q) ↦ rw p (
              provide-open ip chain (calculate_difficulty (layer_of chain layers).1 balance)
                (layer_of chain layers).0.challenge_duration nonce now s s' r (ground arith) j)
        ]
      ]
