-- ===== src/Pow/Claims/Tracked.antt =====
-- The challenge set and the eviction heap of src/pow.rs under `get` and `check_solution`.
use mathlib.Core.Option
use mathlib.Core.Option.{some-injective}
use faucet_api.Common.{
  ℕ, ◌≡◌, ◌≢◌, refl, sym, ap, ◌∙◌, inl, inr, none, some, List, ◌∷◌, arith, All-map, Any-map,
  Option-cases,
}
use faucet_api.Chain.{Chain}
use faucet_api.Pow.Challenge.{
  Instant, Duration, Nonce, Solution, Challenge, Key, Key-discrete, mark_claimed,
}
use faucet_api.Pow.ChallengeSet.{ConcurrentMap, IsLawful}
use faucet_api.Pow.Eviction.{EvictionQueue, key_of, Store, new, add_challenge}
use faucet_api.Pow.Eviction.Removal.{IsTracked, IsFor}
use faucet_api.Pow.Claims.{get, check_solution}
use faucet_api.Pow.Claims.Get.{get_absent, get_present}
use faucet_api.Pow.Claims.Check.{check_solution-IsChecked}

module _ (cm : ConcurrentMap) (laws : IsLawful cm) where
  -- The stored challenges of two sets have the same keys and expire at the same times.
  pub record SameExpiry (old new : cm.Map) : Type 0 where
    pub kept :
        (k : Key) (c : Challenge)
        → cm.get k old ≡ some c
        → (c' : Challenge) × (cm.get k new ≡ some c') × (c'.expires_at ≡ c.expires_at)
    pub came :
        (k : Key) (c' : Challenge)
        → cm.get k new ≡ some c'
        → (c : Challenge) × (cm.get k old ≡ some c) × (c'.expires_at ≡ c.expires_at)

  pub IsTracked-SameExpiry :
      (s s' : Store cm)
      → SameExpiry s.set s'.set
      → s'.queue.q ≡ s.queue.q
      → IsTracked cm laws s
      → IsTracked cm laws s'
  IsTracked-SameExpiry s s' same q t = record {
    has_entry = λ k c' h.
        let (c, stored, e) = same.came k c' h in
        rw q (
          Any-map (IsFor cm laws k c) (IsFor cm laws k c') s.queue.q (λ x p. (p.0, p.1 ∙ sym e))
            (t.has_entry k c stored));
    live = rw q (
        All-map
          (λ x (c, stored, e).
            let (c', stored', e') = same.kept (key_of x) c stored in (c', stored', e' ∙ e))
          s.queue.q t.live);
  }

  -- Nothing is stored before the first request.
  pub new-IsTracked :
      (start : Instant) → IsTracked cm laws (record { set = cm.empty; queue = new start })
  unfolding new
  new-IsTracked start = record { has_entry = λ k c h. absurd (cc (laws.get-empty k)); live = tt }

  same_lookups :
      (s s' : Store cm) → ((j : Key) → cm.get j s'.set ≡ cm.get j s.set) → SameExpiry s.set s'.set
  same_lookups s s' e = record {
    kept = λ k c h. (c, e k ∙ h, refl);
    came = λ k c h. (c, sym (e k) ∙ h, refl);
  }

  pub q-add_challenge :
      (chain : Chain) (ip : ℕ) (c : Challenge) (eq : EvictionQueue)
      → (add_challenge c ip chain eq).q
        ≡ record { ip = ip; chain = chain; expires_at = c.expires_at } ∷ eq.q
  unfolding add_challenge
  q-add_challenge chain ip c eq = ground arith

  issued-IsTracked :
      (chain : Chain) (ip : ℕ) (c : Challenge) (s s' : Store cm)
      → cm.get (ip, chain) s.set ≡ none
      → cm.get (ip, chain) s'.set ≡ some c
      → ((j : Key) → j ≢ (ip, chain) → cm.get j s'.set ≡ cm.get j s.set)
      → s'.queue ≡ add_challenge c ip chain s.queue
      → IsTracked cm laws s
      → IsTracked cm laws s'
  issued-IsTracked chain ip c s s' absent stored others q t = record {
    has_entry = λ k c' h. rw heap (elim (Key-discrete k (ip, chain)) [
      | yes e ↦
          let same : c' ≡ c = some-injective _ _ (sym h ∙ rw e stored) in
          inl (sym e, ap (λ x. x.expires_at) (sym same))
      | no ne ↦ inr (t.has_entry k c' (sym (others k ne) ∙ h))
    ]);
    live = rw heap (
      (c, stored, refl),
      All-map
          (λ x (c', stored', e).
            (c', others (key_of x) (λ same. cc (ap (λ j. cm.get j s.set) same)) ∙ stored', e))
          s.queue.q t.live,
    );
  }
    where
      heap : s'.queue.q ≡ record { ip = ip; chain = chain; expires_at = c.expires_at } ∷ s.queue.q
      heap = ap (λ x. x.q) q ∙ q-add_challenge chain ip c s.queue

  -- If each stored challenge has an entry in the heap with its expiry, and each entry its challenge, this
  -- still holds after a call of `get` that returns.
  pub get-IsTracked :
      (chain : Chain) (ip difficulty : ℕ) (duration : Duration) (nonce : Nonce) (now : Instant)
      (s s' : Store cm) {c : Challenge}
      → IsTracked cm laws s
      → get cm chain ip difficulty duration nonce now s ≡ some (c, s')
      → IsTracked cm laws s'
  get-IsTracked chain ip difficulty duration nonce now s s' t e =
      elim (Option-cases (cm.get (ip, chain) s.set)) [
        | inl h ↦
            let (s₁, run, stored, others, q) =
              get_absent cm laws chain ip difficulty duration nonce now s h in
            rw (ap (λ r. r.1) (some-injective _ _ (sym run ∙ e))) at
              (issued-IsTracked chain ip _ s s₁ h stored others q t)
        | inr (c, h) ↦
            let (s₁, run, same, q) =
              get_present cm laws chain ip difficulty duration nonce now s h in
            rw (ap (λ r. r.1) (some-injective _ _ (sym run ∙ e))) at
              (IsTracked-SameExpiry s s₁ (same_lookups s s₁ same) (ap (λ x. x.q) q) t)
      ]

  -- If each stored challenge has an entry in the heap with its expiry, and each entry its challenge, this
  -- still holds after `check_solution`.
  pub check_solution-IsTracked :
      (sha256 : List ℕ → List ℕ) (chain : Chain) (ip : ℕ) (solution : Solution) (s : Store cm)
      → IsTracked cm laws s
      → IsTracked cm laws (check_solution cm sha256 chain ip solution s).1
  check_solution-IsTracked sha256 chain ip solution s t =
      IsTracked-SameExpiry s _ (record { kept = kept; came = came }) (ap (λ x. x.q) queue) t
    where
      s' : Store cm
      s' = (check_solution cm sha256 chain ip solution s).1

      open (check_solution-IsChecked cm laws sha256 chain ip solution s) use {marked, others, queue}

      kept :
          (k : Key) (c : Challenge)
          → cm.get k s.set ≡ some c
          → (c' : Challenge) × (cm.get k s'.set ≡ some c') × (c'.expires_at ≡ c.expires_at)
      kept k c h = elim (Key-discrete k (ip, chain)) [
        | yes e ↦ (mark_claimed c, rw e (marked ∙ ap (Option.map mark_claimed) (rw e at h)), refl)
        | no ne ↦ (c, others k ne ∙ h, refl)
      ]

      came :
          (k : Key) (c' : Challenge)
          → cm.get k s'.set ≡ some c'
          → (c : Challenge) × (cm.get k s.set ≡ some c) × (c'.expires_at ≡ c.expires_at)
      came k c' h = elim (Key-discrete k (ip, chain)) [
        | yes e ↦
            let m : Option.map mark_claimed (cm.get (ip, chain) s.set) ≡ some c' =
              sym marked ∙ rw e at h in
            elim (Option-cases (cm.get (ip, chain) s.set)) [
              | inl n ↦ cc (rw n at m)
              | inr (c, g) ↦
                  (c, rw e g, sym (ap (λ x. x.expires_at) (some-injective _ _ (rw g at m))))
            ]
        | no ne ↦ (c', sym (others k ne) ∙ h, refl)
      ]
