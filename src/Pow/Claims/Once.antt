-- ===== src/Pow/Claims/Once.antt =====
-- The eviction heap of src/pow.rs under `get`, `check_solution` and the arms of the task: no key stands in it twice.
use mathlib.Core.Option.{some-injective}
use faucet_api.Common.{
  ℕ, suc, ◌≤◌, ◌≡◌, ◌≢◌, sym, ap, ◌∙◌, inl, inr, none, some, List, ◌∷◌, arith, length, All, All-map,
  Option-cases, same, same_refl, same_other,
}
use faucet_api.Chain.{Chain}
use faucet_api.Pow.Challenge.{Instant, Duration, Nonce, Solution, Challenge, Key, Key-discrete}
use faucet_api.Pow.ChallengeSet.{ConcurrentMap, IsLawful}
use faucet_api.Pow.Eviction.{EvictionEntry, key_of, Store, set_wakeup, drain, remove_expired, wake}
use faucet_api.Pow.Eviction.Removal.{IsLive, IsTracked}
use faucet_api.Pow.Claims.{fresh, get, check_solution}
use faucet_api.Pow.Claims.Get.{get_absent, get_present}
use faucet_api.Pow.Claims.Check.{check_solution-IsChecked}
use faucet_api.Pow.Claims.Tracked.{q-add_challenge}
use faucet_api.Pow.Threads.Pending.{stands, Drained-stands, drain-some, none-stands}

-- No two entries are for one key.
abbrev pub IsOnce : List EvictionEntry → Type 0
IsOnce q = (k : Key) → stands k q ≤ 1

IsOnce-same : {q q' : List EvictionEntry} → q' ≡ q → IsOnce q → IsOnce q'
IsOnce-same same once = rw same once

pushed-IsOnce :
    (e : EvictionEntry) (q : List EvictionEntry)
    → All (λ x. key_of x ≢ key_of e) q
    → IsOnce q
    → IsOnce (e ∷ q)
pushed-IsOnce e q others once k = elim (Key-discrete k (key_of e)) [
  | yes own ↦
      let none_yet = none-stands k q (rw own others) in
      omega (arith, none_yet, same_refl Key-discrete k, ap (same Key-discrete k) own)
  | no n ↦ omega (arith, once k, same_other Key-discrete k (key_of e) n)
]

module _ (cm : ConcurrentMap) (laws : IsLawful cm) where
  -- While no challenge is stored for a key, no entry has it.
  absent-keys :
      (k : Key) (set : cm.Map) (q : List EvictionEntry)
      → cm.get k set ≡ none
      → All (IsLive cm laws set) q
      → All (λ x. key_of x ≢ k) q
  absent-keys k set q absent = All-map (λ x (c, stored, e) own. cc (ap (λ j. cm.get j set) own)) q

  pub get-IsOnce :
      (chain : Chain) (ip difficulty : ℕ) (duration : Duration) (nonce : Nonce) (now : Instant)
      (s s' : Store cm) {c : Challenge}
      → IsTracked cm laws s
      → get cm chain ip difficulty duration nonce now s ≡ some (c, s')
      → IsOnce s.queue.q
      → IsOnce s'.queue.q
  get-IsOnce chain ip difficulty duration nonce now s s' t e once =
      elim (Option-cases (cm.get (ip, chain) s.set)) [
        | inl h ↦
            let (s₁, run, stored, others, q) =
              get_absent cm laws chain ip difficulty duration nonce now s h in
            let end : s₁ ≡ s' = ap (λ r. r.1) (some-injective _ _ (sym run ∙ e)) in
            let c = fresh nonce difficulty duration now in
            let e : EvictionEntry = record { ip = ip; chain = chain; expires_at = c.expires_at } in
            IsOnce-same
              (ap (λ x. x.queue.q) (sym end)
                ∙ ap (λ x. x.q) q
                ∙ q-add_challenge cm laws chain ip c s.queue)
              (pushed-IsOnce e s.queue.q (absent-keys (ip, chain) s.set s.queue.q h t.live) once)
        | inr (c, h) ↦
            let (s₁, run, same, q) =
              get_present cm laws chain ip difficulty duration nonce now s h in
            let end : s₁ ≡ s' = ap (λ r. r.1) (some-injective _ _ (sym run ∙ e)) in
            IsOnce-same (ap (λ x. x.queue.q) (sym end) ∙ ap (λ x. x.q) q) once
      ]

  pub check_solution-IsOnce :
      (sha256 : List ℕ → List ℕ) (chain : Chain) (ip : ℕ) (solution : Solution) (s : Store cm)
      → IsOnce s.queue.q
      → IsOnce (check_solution cm sha256 chain ip solution s).1.queue.q
  check_solution-IsOnce sha256 chain ip solution s =
      IsOnce-same
        (ap (λ x. x.q) (check_solution-IsChecked cm laws sha256 chain ip solution s).queue)

  pub wake-IsOnce :
      (now : Instant) (s s' : Store cm)
      → wake cm now s ≡ some s'
      → IsOnce s.queue.q
      → IsOnce s'.queue.q
  unfolding wake remove_expired set_wakeup
  wake-IsOnce now s s' h once = elim (Option-cases (drain (suc (length s.queue.q)) now s.queue.q)) [
    | inl p ↦ ground arith
    | inr ((es, left, w), p) ↦
        let d = drain-some now s.queue.q es left w p in
        let same : s'.queue.q ≡ left = elim (Option-cases w) [
          | inl q ↦ ground arith
          | inr (t, q) ↦ ground arith
        ] in
        IsOnce-same same (λ k. omega (arith, once k, Drained-stands k d))
  ]
