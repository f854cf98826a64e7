-- ===== src/Pow/Claims.antt =====
-- `Challenge::get` and `Challenge::check_solution` of src/pow.rs. The random nonce and the clock are
-- arguments, SHA-256 and the concurrent map are parameters.
pub mod Tracked
pub mod Once
pub mod Calls
pub mod Gate
pub mod Get
pub mod Check
use faucet_api.Common.{
  ℕ, ◌+◌, Bool, true, false, Option, none, some, List, [], ◌∷◌, ◌++◌, Result, ok, err, ◌>>◌, ◌>>=◌,
  leb, if◌then◌else◌,
}
use faucet_api.Chain.{Chain}
use faucet_api.Pow.Challenge.{
  Instant, Duration, Nonce, Solution, Challenge, Key, PowError, nonce_not_found, bad_proof_of_work,
  already_claimed, mark_claimed,
}
use faucet_api.Pow.ChallengeSet.{CasFailure, ConcurrentMap}
use faucet_api.Pow.Eviction.{EvictionQueue, add_challenge, Store}
use faucet_api.Pow.LeadingZeros.{count_leading_zeros}

-- b"alpen faucet 2024"
abbrev pub salt : List ℕ
salt =
    b'a' ∷ b'l' ∷ b'p' ∷ b'e' ∷ b'n' ∷ b' ' ∷ b'f' ∷ b'a' ∷ b'u' ∷ b'c' ∷ b'e' ∷ b't' ∷ b' ' ∷ b'2'
    ∷ b'0' ∷ b'2' ∷ b'4' ∷ []

-- The challenge that `get` offers to the set, with an expiry before `instant_end`.
abbrev pub fresh : Nonce → ℕ → Duration → Instant → Challenge
fresh nonce difficulty duration now = record {
  nonce = nonce;
  claimed = false;
  expires_at = now + duration;
  difficulty = difficulty;
}

-- The last lines of `check_solution`.
unfoldable pub verify : (List ℕ → List ℕ) → Challenge → Solution → Result (Unit {0}) PowError
verify sha256 c solution =
    elim (leb c.difficulty (count_leading_zeros (sha256 (salt ++ (c.nonce ++ solution))))) [
      | true ↦ ok tt
      | false ↦ err bad_proof_of_work
    ]

module _ (cm : ConcurrentMap) where
  -- `Challenge::get`; `none` is `unreachable!()`.
  unfoldable pub get :
      Chain → ℕ → ℕ → Duration → Nonce → Instant → Store cm → Option (Challenge × Store cm)
  unfolding add_challenge
  get chain ip difficulty_if_not_present challenge_duration nonce now s =
      let challenge = fresh nonce difficulty_if_not_present challenge_duration now in
      let (result, set) = cm.cas (ip, chain) none (some challenge) s.set in
      elim result [
        | ok none ↦
            some (challenge, record { set = set; queue = add_challenge challenge ip chain s.queue })
        | ok (some _) ↦ none
        | err failure ↦ elim failure.actual [
          | some other ↦ some (other, record s { set = set })
          | none ↦ none
        ]
      ]

  -- `check_solution` up to the test of `claimed`.
  unfoldable pub find_unclaimed : Key → cm.Map → Result Challenge PowError
  find_unclaimed k set = elim (cm.get k set) [
    | none ↦ err nonce_not_found
    | some old_challenge ↦ if old_challenge.claimed then err already_claimed else ok old_challenge
  ]

  -- The compare-and-swap of `check_solution`.
  unfoldable pub claim : Key → Challenge → cm.Map → Result (Unit {0}) PowError × cm.Map
  claim k old_challenge set =
      let (result, set') = cm.cas k (some old_challenge) (some (mark_claimed old_challenge)) set in
      elim result [ ok _ ↦ (ok tt, set') | err _ ↦ (err already_claimed, set') ]

  -- `Challenge::check_solution`, run alone.
  unfoldable pub check_solution :
      (List ℕ → List ℕ) → Chain → ℕ → Solution → Store cm → Result (Unit {0}) PowError × Store cm
  unfolding find_unclaimed claim verify
  check_solution sha256 chain ip solution s = elim (find_unclaimed (ip, chain) s.set) [
    | err e ↦ (err e, s)
    | ok old_challenge ↦
        let (claimed, set) = claim (ip, chain) old_challenge s.set in
        (claimed >> verify sha256 old_challenge solution, record s { set = set })
  ]
