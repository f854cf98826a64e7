-- ===== src/Pow/Threads/Gate.antt =====
-- The gate of `check_solution` of src/pow.rs under interleaving: challenges issued, attempts let through.
use mathlib.Core.Logic.{if_pos, if_neg}
use faucet_api.Common.{
  ℕ, suc, ◌+◌, ◌≤◌, ◌≡◌, ◌≢◌, refl, inl, inr, false, if◌then◌else◌, Option, none, some, ok, err,
  arith, Result-cases,
}
use faucet_api.Pow.Challenge.{Instant, Challenge, Key, Key-discrete, mark_claimed, PowError}
use faucet_api.Pow.ChallengeSet.Assoc.{Entry-discrete}
use faucet_api.Pow.ChallengeSet.{CasFailure, ConcurrentMap, IsLawful}
use faucet_api.Pow.Eviction.{key_of}
use faucet_api.Pow.Claims.{find_unclaimed, claim}
use faucet_api.Pow.Threads.{
  Pc, checking, update, bump, System, Step, Reach, init, issue, find, push, notify, read, win, lose,
  receive, awake, remove, unlock, store, here, next,
}

-- How many attempts the stored challenge would still let through.
abbrev pub open_for : Option Challenge → ℕ
open_for none = 0
open_for (some c) = if c.claimed then 0 else 1

bump_same : (k : Key) (count : Key → ℕ) → bump k count k ≡ suc (count k)
unfolding bump
bump_same k count = if_pos (Key-discrete k k) refl _ _

bump_other : (k j : Key) (count : Key → ℕ) → j ≢ k → bump k count j ≡ count j
unfolding bump
bump_other k j count h = if_neg (Key-discrete j k) h _ _

module _ (cm : ConcurrentMap) (laws : IsLawful cm) where
  open laws use {
    get-empty, cas_success, cas_failure, get-cas_same, get-cas_failure, get-cas_other,
    get-remove_same, get-remove_other,
  }

  -- Every attempt that got through used up a challenge that was issued, and a request that is about
  -- to claim has read an unclaimed challenge.
  pub record IsGated (s : System cm) : Type 0 where
    pub gate : (k : Key) → s.claims k + open_for (cm.get k s.set) ≤ s.issued k
    pub unclaimed : (i : ℕ) (k : Key) (c : Challenge) → s.pc i ≡ checking k c → c.claimed ≡ false

  -- A compare-and-swap that reports success found what it expected, and one that fails did not.
  pub cas-ok :
      (k : Key) (old new : Option Challenge) (m : cm.Map) (v : Option Challenge)
      → (cm.cas k old new m).0 ≡ ok v
      → cm.get k m ≡ old
  cas-ok k old new m v h = elim (Entry-discrete (cm.get k m) old) [
    | yes e ↦ e
    | no n ↦ cc (cas_failure k old new m n)
  ]

  pub cas-err :
      (k : Key) (old new : Option Challenge) (m : cm.Map) {failure : CasFailure}
      → (cm.cas k old new m).0 ≡ err failure
      → cm.get k m ≢ old
  cas-err k old new m h e = cc (cas_success k old new m e)

  claim-set :
      (k : Key) (c : Challenge) (m : cm.Map)
      → (claim cm k c m).1 ≡ (cm.cas k (some c) (some (mark_claimed c)) m).1
  unfolding claim
  claim-set k c m = elim (Result-cases (cm.cas k (some c) (some (mark_claimed c)) m).0) [
    | inl (v, e) ↦ ground arith
    | inr (x, e) ↦ ground arith
  ]

  pub claim-ok :
      (k : Key) (c : Challenge) (m : cm.Map)
      → (claim cm k c m).0 ≡ ok tt
      → (cm.get k m ≡ some c)
        × (cm.get k (claim cm k c m).1 ≡ some (mark_claimed c))
        × ((j : Key) → j ≢ k → cm.get j (claim cm k c m).1 ≡ cm.get j m)
  unfolding claim
  claim-ok k c m h = elim (Result-cases (cm.cas k (some c) (some (mark_claimed c)) m).0) [
    | inl (v, e) ↦
        let found = cas-ok k (some c) (some (mark_claimed c)) m v e in
        (
          found,
          rw (claim-set k c m) (get-cas_same k (some c) (some (mark_claimed c)) m found),
          λ j n. rw (claim-set k c m) (get-cas_other k j (some c) (some (mark_claimed c)) m n),
        )
    | inr (x, e) ↦ absurd (ground arith)
  ]

  pub claim-err :
      (k : Key) (c : Challenge) (m : cm.Map) {e : PowError}
      → (claim cm k c m).0 ≡ err e
      → (j : Key) → cm.get j (claim cm k c m).1 ≡ cm.get j m
  unfolding claim
  claim-err k c m h j = elim (Result-cases (cm.cas k (some c) (some (mark_claimed c)) m).0) [
    | inl (v, x) ↦ absurd (ground arith)
    | inr (x, y) ↦
        let other = cas-err k (some c) (some (mark_claimed c)) m y in
        rw (claim-set k c m) (get-cas_failure k j (some c) (some (mark_claimed c)) m other)
  ]

  find_unclaimed-ok :
      (k : Key) (c : Challenge) (m : cm.Map) → find_unclaimed cm k m ≡ ok c → c.claimed ≡ false
  unfolding find_unclaimed
  find_unclaimed-ok k c m h = ground arith

  issue-gate :
      (k : Key) (c : Challenge) (s : System cm)
      → c.claimed ≡ false
      → (cm.cas k none (some c) s.set).0 ≡ ok none
      → IsGated s
      → (j : Key)
      → s.claims j + open_for (cm.get j (cm.cas k none (some c) s.set).1) ≤ bump k s.issued j
  issue-gate k c s f h g j =
      let absent = cas-ok k none (some c) s.set none h in
      elim (Key-discrete j k) [
        | yes e ↦ rw e (
            rw (get-cas_same k none (some c) s.set absent, bump_same k s.issued, f)
              (omega (arith, g.gate k)))
        | no n ↦ rw (get-cas_other k j none (some c) s.set n, bump_other k j s.issued n) (g.gate j)
      ]

  win-gate :
      (k : Key) (c : Challenge) (s : System cm)
      → c.claimed ≡ false
      → (claim cm k c s.set).0 ≡ ok tt
      → IsGated s
      → (j : Key) → bump k s.claims j + open_for (cm.get j (claim cm k c s.set).1) ≤ s.issued j
  win-gate k c s f h g j =
      let (found, marked, others) = claim-ok k c s.set h in
      elim (Key-discrete j k) [
        | yes e ↦ rw e (
            rw (marked, bump_same k s.claims)
              (let before : s.claims k + 1 ≤ s.issued k = rw (found, f) at (g.gate k) in
                omega arith))
        | no n ↦ rw (others j n, bump_other k j s.claims n) (g.gate j)
      ]

  remove-gate :
      (k : Key) (s : System cm)
      → IsGated s
      → (j : Key) → s.claims j + open_for (cm.get j (cm.remove k s.set).1) ≤ s.issued j
  remove-gate k s g j = elim (Key-discrete j k) [
    | yes e ↦ rw e (rw (get-remove_same k s.set) (omega (arith, g.gate k)))
    | no n ↦ rw (get-remove_other k j s.set n) (g.gate j)
  ]

  -- The threads that are about to claim after a thread moved on.
  unclaimed-update :
      (i : ℕ) (p : Pc) (pc : ℕ → Pc)
      → ((k : Key) (c : Challenge) → p ≡ checking k c → c.claimed ≡ false)
      → ((j : ℕ) (k : Key) (c : Challenge) → pc j ≡ checking k c → c.claimed ≡ false)
      → (j : ℕ) (k : Key) (c : Challenge) → update i p pc j ≡ checking k c
      → c.claimed ≡ false
  unfolding update
  unclaimed-update i p pc new old j k c e = ground (arith, new k c, old j k c)

  pub Step-IsGated : {s t : System cm} → Step cm s t → IsGated s → IsGated t
  Step-IsGated {s} (issue i k difficulty duration nonce now at h) g = record {
    gate = issue-gate k _ s refl h g;
    unclaimed = unclaimed-update i _ s.pc (λ k c e. cc) g.unclaimed;
  }
  Step-IsGated {s} (find i k c at h) g = record {
    gate = λ j.
        rw (get-cas_failure k j none (some c) s.set (cas-err k none (some c) s.set h)) (g.gate j);
    unclaimed = g.unclaimed;
  }
  Step-IsGated {s} (push i k c at lock) g = record {
    gate = g.gate;
    unclaimed = unclaimed-update i _ s.pc (λ k c e. cc) g.unclaimed;
  }
  Step-IsGated {s} (notify i c at) g = record {
    gate = g.gate;
    unclaimed = unclaimed-update i _ s.pc (λ k c e. cc) g.unclaimed;
  }
  Step-IsGated {s} (read i k c at h) g = record {
    gate = g.gate;
    unclaimed =
        unclaimed-update i _ s.pc
          (λ k' c' e. let same : c ≡ c' = cc in rw (← same) (find_unclaimed-ok k c s.set h))
          g.unclaimed;
  }
  Step-IsGated {s} (win i k c at h) g = record {
    gate = win-gate k c s (g.unclaimed i k c at) h g;
    unclaimed = unclaimed-update i _ s.pc (λ k c e. cc) g.unclaimed;
  }
  Step-IsGated {s} (lose i k c at h) g = record {
    gate = λ j. rw (claim-err k c s.set h j) (g.gate j);
    unclaimed = unclaimed-update i _ s.pc (λ k c e. cc) g.unclaimed;
  }
  Step-IsGated (receive at h) g = record { gate = g.gate; unclaimed = g.unclaimed }
  Step-IsGated (awake now at h) g = record { gate = g.gate; unclaimed = g.unclaimed }
  Step-IsGated {s} (remove e es w at) g = record {
    gate = remove-gate (key_of e) s g;
    unclaimed = g.unclaimed;
  }
  Step-IsGated (unlock w at) g = record { gate = g.gate; unclaimed = g.unclaimed }
  Step-IsGated (store w at) g = record { gate = g.gate; unclaimed = g.unclaimed }

  init-IsGated : (start : Instant) → IsGated (init cm start)
  init-IsGated start = record {
    gate = λ k. rw (get-empty k) (omega arith);
    unclaimed = λ i k c e. cc;
  }

  Reach-IsGated : {s t : System cm} → IsGated s → Reach cm s t → IsGated t
  Reach-IsGated g here = g
  Reach-IsGated g (next r st) = Step-IsGated st (Reach-IsGated g r)

  -- However requests, evictions and their accesses interleave, an address never gets more attempts past
  -- the gate of `check_solution` than challenges were issued to it.
  pub claims-le-issued :
      (start : Instant) {t : System cm}
      → Reach cm (init cm start) t
      → (k : Key) → t.claims k ≤ t.issued k
  claims-le-issued start r k = omega (arith, (Reach-IsGated (init-IsGated start) r).gate k)
