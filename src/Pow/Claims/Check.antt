-- ===== src/Pow/Claims/Check.antt =====
-- What `Challenge::check_solution` of src/pow.rs returns and changes, on every branch.
use mathlib.Core.Option
use faucet_api.Common.{
  ℕ, ◌≡◌, ◌≢◌, refl, sym, ap, inl, inr, true, false, Option, none, some, List, Result, err, arith,
  if◌then◌else◌, Option-cases, Bool-cases,
}
use faucet_api.Chain.{Chain}
use faucet_api.Pow.Challenge.{
  Solution, Challenge, Key, PowError, nonce_not_found, already_claimed, mark_claimed,
}
use faucet_api.Pow.ChallengeSet.{ConcurrentMap, IsLawful}
use faucet_api.Pow.Eviction.{Store}
use faucet_api.Pow.Claims.{verify, check_solution}

-- What a claim ought to return, from the challenge that is stored for the address.
abbrev pub outcome : (List ℕ → List ℕ) → Solution → Option Challenge → Result (Unit {0}) PowError
outcome sha256 solution none = err nonce_not_found
outcome sha256 solution (some c) =
    if c.claimed then err already_claimed else verify sha256 c solution

mark_claimed_idem : (c : Challenge) → c.claimed ≡ true → mark_claimed c ≡ c
mark_claimed_idem c e = λ i. record c { claimed = sym e i }

module _ (cm : ConcurrentMap) (laws : IsLawful cm) (sha256 : List ℕ → List ℕ) where
  open laws use {cas_success, get-cas_same, get-cas_other}

  module _ (chain : Chain) (ip : ℕ) (solution : Solution) (s : Store cm) where
    abbrev k : Key
    k = (ip, chain)

    abbrev pub run : Result (Unit {0}) PowError × Store cm
    run = check_solution cm sha256 chain ip solution s

    -- An attempt returns what the stored challenge calls for, and marks it as claimed whatever it
    -- returns; other addresses and the eviction queue are left alone.
    pub record IsChecked : Type 0 where
      pub returned : run.0 ≡ outcome sha256 solution (cm.get (ip, chain) s.set)
      pub marked : cm.get (ip, chain) run.1.set ≡ Option.map mark_claimed (cm.get (ip, chain) s.set)
      pub others : (j : Key) → j ≢ (ip, chain) → cm.get j run.1.set ≡ cm.get j s.set
      pub queue : run.1.queue ≡ s.queue

    missing-IsChecked : cm.get k s.set ≡ none → IsChecked
    missing-IsChecked h = record {
      returned = rw (e, h) refl;
      marked = rw (e, h) refl;
      others = λ j ne. rw e refl;
      queue = rw e refl;
    }
      where
        e : run ≡ (err nonce_not_found, s)
        e = unfold check_solution in ground arith

    claimed-IsChecked : (c : Challenge) → cm.get k s.set ≡ some c → c.claimed ≡ true → IsChecked
    claimed-IsChecked c h t = record {
      returned = rw (e, h) (ground arith);
      marked = rw (e, h) (ap some (sym (mark_claimed_idem c t)));
      others = λ j ne. rw e refl;
      queue = rw e refl;
    }
      where
        e : run ≡ (err already_claimed, s)
        e = unfold check_solution in ground arith

    open-IsChecked : (c : Challenge) → cm.get k s.set ≡ some c → c.claimed ≡ false → IsChecked
    open-IsChecked c h f = record {
      returned = rw (e, h) (ground arith);
      marked = rw (e, h) (get-cas_same k (some c) (some (mark_claimed c)) s.set h);
      others = λ j ne. rw e (get-cas_other k j (some c) (some (mark_claimed c)) s.set ne);
      queue = rw e refl;
    }
      where
        set : cm.Map
        set = (cm.cas k (some c) (some (mark_claimed c)) s.set).1

        e : run ≡ (verify sha256 c solution, record s { set = set })
        e =
            unfold check_solution in
            ground (arith, cas_success k (some c) (some (mark_claimed c)) s.set h)

    -- On every branch `check_solution` returns what the stored challenge calls for (not found,
    -- already claimed, or the verdict on the digest), marks the challenge as claimed, and leaves
    -- all other keys and the eviction queue alone.
    pub check_solution-IsChecked : IsChecked
    check_solution-IsChecked = elim (Option-cases (cm.get k s.set)) [
      | inl h ↦ missing-IsChecked h
      | inr (c, h) ↦ elim (Bool-cases c.claimed) [
        | inl t ↦ claimed-IsChecked c h t
        | inr f ↦ open-IsChecked c h f
      ]
    ]
