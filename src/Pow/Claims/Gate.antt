-- ===== src/Pow/Claims/Gate.antt =====
-- `get` and `check_solution` of src/pow.rs, called again, and what it takes to pass.
use faucet_api.Common.{
  ℕ, ◌*◌, ◌^◌, ◌<◌, ◌≡◌, ◌↔◌, refl, sym, ◌∙◌, inl, inr, false, some, List, ◌++◌, ok, err, arith,
  length, All, Option-cases, Bool-cases,
}
use faucet_api.Chain.{Chain}
use faucet_api.Pow.Challenge.{Instant, Duration, Nonce, Solution, Challenge, already_claimed}
use faucet_api.Pow.ChallengeSet.{ConcurrentMap, IsLawful}
use faucet_api.Pow.Eviction.{Store}
use faucet_api.Pow.LeadingZeros.{IsByte, be_value, count_leading_zeros_iff}
use faucet_api.Pow.Claims.{salt, fresh, get, verify, check_solution}
use faucet_api.Pow.Claims.Get.{get_absent, get_present}
use faucet_api.Pow.Claims.Check.{check_solution-IsChecked, outcome}

-- The bytes that are hashed for a solution.
abbrev pub preimage : Challenge → Solution → List ℕ
preimage c solution = salt ++ (c.nonce ++ solution)

-- What SHA-256 returns: 32 bytes, here not all of them zero.
pub record IsDigest (bytes : List ℕ) : Type 0 where
  pub in_range : All IsByte bytes
  pub width : length bytes ≡ 32
  pub nonzero : 0 < be_value bytes

pub verify_iff :
    (sha256 : List ℕ → List ℕ) (c : Challenge) (solution : Solution)
    → IsDigest (sha256 (preimage c solution))
    → (verify sha256 c solution ≡ ok tt)
      ↔ (be_value (sha256 (preimage c solution)) * 2 ^ c.difficulty < 2 ^ 256)
unfolding verify
verify_iff sha256 c solution d =
    let count =
      count_leading_zeros_iff (sha256 (preimage c solution)) c.difficulty d.in_range d.width
        d.nonzero in
    (λ e. count.0 (ground arith), λ h. let t = count.1 h in ground arith)

module _ (cm : ConcurrentMap) (laws : IsLawful cm) where
  -- With a stored challenge, and a digest of 32 bytes that are not all zero, a claim succeeds
  -- exactly when the challenge is unclaimed and the digest, read as a big-endian number, is below
  -- 2^256 / 2^difficulty.
  pub check_solution-ok_iff :
      (sha256 : List ℕ → List ℕ) (chain : Chain) (ip : ℕ) (solution : Solution) (s : Store cm)
      (c : Challenge)
      → cm.get (ip, chain) s.set ≡ some c
      → IsDigest (sha256 (preimage c solution))
      → ((check_solution cm sha256 chain ip solution s).0 ≡ ok tt) ↔ (
          (c.claimed ≡ false)
          × (be_value (sha256 (preimage c solution)) * 2 ^ c.difficulty < 2 ^ 256))
  check_solution-ok_iff sha256 chain ip solution s c h d =
      let checked = check_solution-IsChecked cm laws sha256 chain ip solution s in
      let returned = rw h at checked.returned in
      let work = verify_iff sha256 c solution d in
      elim (Bool-cases c.claimed) [
        | inl t ↦
            let refused : outcome sha256 solution (some c) ≡ err already_claimed = ground arith in
            (λ e. cc, λ p. cc)
        | inr f ↦
            let checks : outcome sha256 solution (some c) ≡ verify sha256 c solution =
              ground arith in
            (λ e. (f, work.0 (sym checks ∙ sym returned ∙ e)), λ p. returned ∙ checks ∙ work.1 p.1)
      ]

  -- After an attempt that found a challenge, right or wrong, the next attempt of that address is
  -- refused as already claimed.
  pub check_solution_once :
      (sha256 : List ℕ → List ℕ) (chain : Chain) (ip : ℕ) (first second : Solution) (s : Store cm)
      (c : Challenge)
      → cm.get (ip, chain) s.set ≡ some c
      → (check_solution cm sha256 chain ip second (check_solution cm sha256 chain ip first s).1).0
        ≡ err already_claimed
  check_solution_once sha256 chain ip first second s c h =
      let one = check_solution-IsChecked cm laws sha256 chain ip first s in
      let two =
        check_solution-IsChecked cm laws sha256 chain ip second
          (check_solution cm sha256 chain ip first s).1 in
      two.returned ∙ rw (one.marked, h) refl

  -- Two calls of `get` in a row for one address and chain both return, with the same challenge,
  -- whatever difficulty, duration, nonce and time the second one has; the second leaves the
  -- eviction queue as the first left it.
  pub get_again :
      (chain : Chain) (ip difficulty difficulty' : ℕ) (duration duration' : Duration)
      (nonce nonce' : Nonce) (now later : Instant) (s : Store cm)
      → (c : Challenge) × (s' : Store cm) × (s'' : Store cm) × (get cm chain ip difficulty duration
            nonce now s
          ≡ some (c, s'))
        × (get cm chain ip difficulty' duration' nonce' later s' ≡ some (c, s''))
        × (s''.queue ≡ s'.queue)
  get_again chain ip difficulty difficulty' duration duration' nonce nonce' now later s =
      elim (Option-cases (cm.get (ip, chain) s.set)) [
        | inl h ↦
            let (s', e, stored, _, _) =
              get_absent cm laws chain ip difficulty duration nonce now s h in
            let (s'', e', _, q) =
              get_present cm laws chain ip difficulty' duration' nonce' later s' stored in
            (fresh nonce difficulty duration now, s', s'', e, e', q)
        | inr (c, h) ↦
            let (s', e, same, _) = get_present cm laws chain ip difficulty duration nonce now s h in
            let (s'', e', _, q) =
              get_present cm laws chain ip difficulty' duration' nonce' later s'
                (same (ip, chain) ∙ h) in
            (c, s', s'', e, e', q)
      ]
