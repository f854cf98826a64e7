-- ===== src/Pow/Eviction/Removal.antt =====
-- `remove_expired` of src/pow.rs as a whole: the challenge set, the heap and the wakeup.
use mathlib.Core.Option.{some-injective}
use faucet_api.Common.{
  suc, ◌≤◌, ◌<◌, ◌≡◌, ◌≢◌, refl, sym, ap, ◌∙◌, inl, inr, ◌⊎◌, Option, none, some, List, [], ◌∷◌,
  arith, length, All, All-map2, Any, Any-All,
}
use faucet_api.Pow.Challenge.{Instant, Challenge, Key, Key-discrete}
use faucet_api.Pow.ChallengeSet.{ConcurrentMap, IsLawful}
use faucet_api.Pow.Eviction.{EvictionEntry, key_of, Store, remove_all, remove_expired}
use faucet_api.Pow.Eviction.Drain.{
  Drained, drain-Drained, Drained-All, Drained-Any, Drained-expired, Drained-IsEarliest, IsEarliest,
}

module _ (cm : ConcurrentMap) (laws : IsLawful cm) where
  open laws use {get-remove_same, get-remove_other}

  -- The entry of the heap belongs to the challenge that is stored under its key.
  abbrev pub IsLive : cm.Map → EvictionEntry → Type 0
  IsLive set e = (c : Challenge) × (cm.get (key_of e) set ≡ some c) × (c.expires_at ≡ e.expires_at)

  -- The entry is one for the challenge.
  abbrev pub IsFor : Key → Challenge → EvictionEntry → Type 0
  IsFor k c e = (key_of e ≡ k) × (e.expires_at ≡ c.expires_at)

  -- Every stored challenge has an entry with its expiry, and every entry a stored challenge.
  pub record IsTracked (s : Store cm) : Type 0 where
    pub has_entry : (k : Key) (c : Challenge) → cm.get k s.set ≡ some c → Any (IsFor k c) s.queue.q
    pub live : All (IsLive s.set) s.queue.q

  remove_all-none :
      (es : List EvictionEntry) (set : cm.Map) (k : Key)
      → cm.get k set ≡ none
      → cm.get k (remove_all cm es set) ≡ none
  unfolding remove_all
  remove_all-none [] set k h = h
  remove_all-none (e ∷ es) set k h =
      remove_all-none es (cm.remove (key_of e) set).1 k (elim (Key-discrete k (key_of e)) [
        | yes p ↦ rw p (get-remove_same (key_of e) set)
        | no p ↦ get-remove_other (key_of e) k set p ∙ h
      ])

  remove_all-gone :
      (es : List EvictionEntry) (set : cm.Map) (k : Key)
      → Any (λ e. key_of e ≡ k) es
      → cm.get k (remove_all cm es set) ≡ none
  unfolding remove_all
  remove_all-gone [] set k h = elim h [ ]
  remove_all-gone (e ∷ es) set k (inl p) =
      remove_all-none es _ k (rw (← p) (get-remove_same (key_of e) set))
  remove_all-gone (e ∷ es) set k (inr p) = remove_all-gone es _ k p

  remove_all-kept :
      (es : List EvictionEntry) (set : cm.Map) (k : Key)
      → All (λ e. key_of e ≢ k) es
      → cm.get k (remove_all cm es set) ≡ cm.get k set
  unfolding remove_all
  remove_all-kept [] set k h = refl
  remove_all-kept (e ∷ es) set k (p, h) =
      remove_all-kept es _ k h ∙ get-remove_other (key_of e) k set (λ q. p (sym q))

  -- What is left in the set after `es` are removed from it.
  kept_or_gone :
      (es : List EvictionEntry) (set : cm.Map) (k : Key)
      → (Any (λ e. key_of e ≡ k) es × (cm.get k (remove_all cm es set) ≡ none))
        ⊎ (All (λ e. key_of e ≢ k) es × (cm.get k (remove_all cm es set) ≡ cm.get k set))
  kept_or_gone es set k = elim (found es) [
    | inl a ↦ inl (a, remove_all-gone es set k a)
    | inr a ↦ inr (a, remove_all-kept es set k a)
  ]
    where
      found : (xs : List EvictionEntry) → Any (λ e. key_of e ≡ k) xs ⊎ All (λ e. key_of e ≢ k) xs
      found [] = inr tt
      found (x ∷ xs) = elim (Key-discrete (key_of x) k) [
        | yes p ↦ inl (inl p)
        | no p ↦ elim (found xs) [ inl a ↦ inl (inr a) | inr a ↦ inr (p, a) ]
      ]

  -- Entries of stored challenges that have expired are not those of one that has not.
  not-expired :
      (k : Key) (c : Challenge) (now : Instant) (set : cm.Map) (es : List EvictionEntry)
      → cm.get k set ≡ some c
      → now < c.expires_at
      → All (IsLive set) es
      → All (λ e. e.expires_at ≤ now) es
      → Any (λ e. key_of e ≡ k) es
      → ⊥
  not-expired k c now set (e ∷ es) h t ((c', stored, same), ls) (p, ps) (inl a) =
      let one : c' ≡ c = some-injective _ _ (sym stored ∙ ap (λ j. cm.get j set) a ∙ h) in
      omega (arith, ap (λ x. x.expires_at) one)
  not-expired k c now set (e ∷ es) h t (l, ls) (p, ps) (inr a) =
      not-expired k c now set es h t ls ps a
  not-expired k c now set [] h t ls ps a = elim a [ ]

  module _ (now : Instant) (s : Store cm) (tracked : IsTracked s) where
    open tracked use {has_entry, live}

    abbrev after_removal : List EvictionEntry → List EvictionEntry → Store cm
    after_removal es left = record {
      set = remove_all cm es s.set;
      queue = record s.queue { q = left };
    }

    module _ {es left : List EvictionEntry} {w : Option Instant}
        (d : Drained now s.queue.q es left w) where
      kept_unexpired :
          (k : Key) (c : Challenge)
          → cm.get k s.set ≡ some c
          → now < c.expires_at
          → cm.get k (remove_all cm es s.set) ≡ some c
      kept_unexpired k c h t = elim (kept_or_gone es s.set k) [
        | inl (a, _) ↦ absurd (
            not-expired k c now s.set es h t (Drained-All (IsLive s.set) d live).0
              (Drained-expired d) a)
        | inr (_, e) ↦ e ∙ h
      ]

      still_has_entry :
          (k : Key) (c : Challenge)
          → cm.get k (remove_all cm es s.set) ≡ some c
          → Any (IsFor k c) left
      still_has_entry k c h = elim (kept_or_gone es s.set k) [
        | inl (_, e) ↦ cc
        | inr (others, e) ↦ elim (Drained-Any (IsFor k c) d (has_entry k c (sym e ∙ h))) [
          | inl a ↦ Any-All (IsFor k c) (λ x. key_of x ≢ k) es (λ x p q. absurd (q p.0)) a others
          | inr a ↦ a
        ]
      ]

      still-IsTracked : IsTracked (after_removal es left)
      still-IsTracked = record {
        has_entry = still_has_entry;
        live =
            All-map2
              (λ x (c, stored, same) t. (c, kept_unexpired (key_of x) c stored (omega arith), same))
              left (Drained-All (IsLive s.set) d live).1 (Drained-IsEarliest d).1;
      }

      only_unexpired :
          (k : Key) (c : Challenge)
          → cm.get k (remove_all cm es s.set) ≡ some c
          → now < c.expires_at
      only_unexpired k c h =
          Any-All (IsFor k c) (λ x. now < x.expires_at) left (λ x p t. omega (arith, p.1))
            (still_has_entry k c h) (Drained-IsEarliest d).1

    -- On a store whose heap matches its set, `remove_expired` returns. Afterwards no challenge is
    -- stored that has expired, each other challenge is stored as before, the returned wakeup is the
    -- earliest expiry that is left, and the heap still matches the set.
    pub remove_expired_lem :
        (w : Option Instant) × (s' : Store cm) × (remove_expired cm now s ≡ some (w, s'))
        × ((k : Key) (c : Challenge) → cm.get k s'.set ≡ some c → now < c.expires_at)
        × ((k : Key) (c : Challenge)
            → cm.get k s.set ≡ some c
            → now < c.expires_at
            → cm.get k s'.set ≡ some c)
        × IsEarliest w s'.queue.q
        × IsTracked s'
    unfolding remove_expired
    remove_expired_lem =
        let (es, left, w, run, d) =
          drain-Drained (suc (length s.queue.q)) now s.queue.q (omega arith) in
        (
          w,
          after_removal es left,
          rw run refl,
          only_unexpired d,
          kept_unexpired d,
          (Drained-IsEarliest d).0,
          still-IsTracked d,
        )
