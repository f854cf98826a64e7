-- ===== src/Pow/Threads/Removing.antt =====
-- The task of src/pow.rs as it wakes up and removes challenges.
use mathlib.Core.Option
use faucet_api.Common.{
  suc, ◌+◌, ◌≡◌, ◌≢◌, refl, sym, ap, ◌∙◌, inl, inr, Option, none, some, List, [], ◌∷◌, ◌++◌, All,
  All-map2, All-append, arith, total-append, same, same_refl, same_other, length,
}
use faucet_api.Pow.Challenge.{Instant, Key, Key-discrete}
use faucet_api.Pow.ChallengeSet.{ConcurrentMap, IsLawful}
use faucet_api.Pow.Eviction.{EvictionEntry, key_of, drain}
use faucet_api.Pow.Eviction.Drain.{Drained-All}
use faucet_api.Pow.Threads.{waiting, removing, System}
use faucet_api.Pow.Threads.Pending.{
  standing, stands, to_expire, stands-none, Drained-stands, drain-some, expiry, entries, IsPending,
  shuffled-IsPending,
}

All-split : {A : Type 0} (P : A → Type 0) (xs ys : List A) → All P (xs ++ ys) → All P xs × All P ys
All-split P [] ys h = (tt, h)
All-split P (x ∷ xs) ys (h, hs) = let (a, b) = All-split P xs ys hs in ((h, a), b)

module _ (cm : ConcurrentMap) (laws : IsLawful cm) where
  open laws use {
    get-empty, get-cas_same, get-cas_failure, get-cas_other, get-remove_same, get-remove_other,
  }

  pub remove-IsPending :
      (s : System cm) (e : EvictionEntry) (es : List EvictionEntry) (w : Option Instant)
      → s.task ≡ removing (e ∷ es) w
      → IsPending cm s
      → IsPending cm (record s { set = (cm.remove (key_of e) s.set).1; task = removing es w })
  remove-IsPending s e es w at p =
      let left : List EvictionEntry = s.queue.q ++ es in
      let were : entries cm s ≡ s.queue.q ++ (e ∷ es) =
        ap (λ task. s.queue.q ++ to_expire task) at in
      let counts : (k : Key) → stands k (entries cm s) ≡ standing k e + stands k left = λ k.
        ap (stands k) were
        ∙ omega (
          arith,
          total-append (standing k) s.queue.q (e ∷ es),
          total-append (standing k) s.queue.q es,
        ) in
      let own : stands (key_of e) left ≡ 0 =
        omega (arith, p.once (key_of e), counts (key_of e), same_refl Key-discrete (key_of e)) in
      let others : (k : Key)
          → k ≢ key_of e
          → expiry cm k (cm.remove (key_of e) s.set).1 ≡ expiry cm k s.set =
        λ k n. ap (Option.map (λ c. c.expires_at)) (get-remove_other (key_of e) k s.set n) in
      record {
        thread = λ i k c h.
            let (stored, none_stands) = p.thread i k c h in
            let away : k ≢ key_of e = λ same_key. omega (
              arith,
              none_stands,
              counts k,
              same_refl Key-discrete k,
              ap (same Key-discrete k) same_key,
            ) in
            (others k away ∙ stored, omega (arith, none_stands, counts k));
        alone = p.alone;
        entry =
            let found : All (λ x. expiry cm (key_of x) s.set ≡ some x.expires_at)
                (s.queue.q ++ (e ∷ es)) =
              rw were at p.entry in
            let (in_heap, (_, in_rest)) = All-split _ s.queue.q (e ∷ es) found in
            All-map2 (λ x stored n. others (key_of x) n ∙ stored) left
              (All-append _ s.queue.q es in_heap in_rest) (stands-none (key_of e) left own);
        once = λ k. omega (arith, p.once k, counts k);
        covered = λ k t h. elim (Key-discrete k (key_of e)) [
          | yes own_key ↦
              let gone : expiry cm k (cm.remove (key_of e) s.set).1 ≡ none =
                rw own_key
                  (ap (Option.map (λ c. c.expires_at)) (get-remove_same (key_of e) s.set)) in
              ground arith
          | no n ↦ elim (p.covered k t (sym (others k n) ∙ h)) [
            | inl thread ↦ inl thread
            | inr stays ↦
                inr (omega (arith, stays, counts k, same_other Key-discrete k (key_of e) n))
          ]
        ];
      }

  pub awake-IsPending :
      (s : System cm) (now : Instant) (es left : List EvictionEntry) (w : Option Instant)
      → s.task ≡ waiting
      → drain (suc (length s.queue.q)) now s.queue.q ≡ some (es, left, w)
      → IsPending cm s
      → IsPending cm (record s { queue = record s.queue { q = left }; task = removing es w })
  awake-IsPending s now es left w at h p =
      let drained = drain-some now s.queue.q es left w h in
      let were : entries cm s ≡ s.queue.q ++ [] = ap (λ task. s.queue.q ++ to_expire task) at in
      let found : All (λ x. expiry cm (key_of x) s.set ≡ some x.expires_at) (s.queue.q ++ []) =
        rw were at p.entry in
      let (taken, kept) = Drained-All _ drained (All-split _ s.queue.q [] found).0 in
      shuffled-IsPending cm s _ (λ k. refl)
        (λ k. omega (
          arith,
          ap (stands k) were,
          total-append (standing k) left es,
          total-append (standing k) s.queue.q [],
          Drained-stands k drained,
        ))
        (All-append _ left es kept taken) (λ i k c h. h) (λ i k c h. h) p
