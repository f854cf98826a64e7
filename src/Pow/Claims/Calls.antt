-- ===== src/Pow/Claims/Calls.antt =====
-- The store of src/pow.rs under calls of `Challenge::get` and `Challenge::check_solution` and the arms of the eviction
-- task, one at a time.
use mathlib.Core.Option.{get_or}
use mathlib.Core.Option.{some-injective}
use mathlib.Core.Path.{subst}
use faucet_api.Common.{arith, ℕ, ◌+◌, ◌<◌, ◌≡◌, refl, sym, ◌∙◌, Option, none, some, List}
use faucet_api.Chain.{Chain}
use faucet_api.Pow.Challenge.{Instant, Duration, Nonce, Solution, Challenge, Key}
use faucet_api.Pow.ChallengeSet.{ConcurrentMap, IsLawful}
use faucet_api.Pow.Eviction.{
  EvictionQueue, Store, new, set_wakeup, receive_wakeup, remove_expired, wake, far_off,
}
use faucet_api.Pow.Eviction.Scheduled.{receive_wakeup-q}
use faucet_api.Pow.Eviction.Removal.{IsTracked, remove_expired_lem}
use faucet_api.Pow.Claims.{get, check_solution}
use faucet_api.Pow.Claims.Once.{IsOnce, get-IsOnce, check_solution-IsOnce, wake-IsOnce}
use faucet_api.Pow.Claims.Tracked.{
  SameExpiry, IsTracked-SameExpiry, new-IsTracked, get-IsTracked, check_solution-IsTracked,
}

module _ (cm : ConcurrentMap) (laws : IsLawful cm) (sha256 : List ℕ → List ℕ) where
  pub data Calls (start : Instant) : Store cm → Type 0 where
    started : Calls start (record { set = cm.empty; queue = new start })
    gets :
        (chain : Chain) (ip difficulty : ℕ) (duration : Duration) (nonce : Nonce) (now : Instant)
        {s s' : Store cm} {c : Challenge}
        → Calls start s
        → get cm chain ip difficulty duration nonce now s ≡ some (c, s')
        → Calls start s'
    checks :
        (chain : Chain) (ip : ℕ) (solution : Solution) {s : Store cm}
        → Calls start s
        → Calls start (check_solution cm sha256 chain ip solution s).1
    receives :
        {s : Store cm} {queue : EvictionQueue}
        → Calls start s
        → receive_wakeup s.queue ≡ some queue
        → Calls start (record s { queue = queue })
    wakes :
        (now : Instant) {s s' : Store cm} → Calls start s → wake cm now s ≡ some s' → Calls start s'

  same_set : (s : Store cm) → SameExpiry cm laws s.set s.set
  same_set s = record { kept = λ k c h. (c, h, refl); came = λ k c h. (c, h, refl) }

  abbrev after_sleep : Option Instant → Store cm → Store cm
  after_sleep w s = record s { queue = set_wakeup (get_or w (s.queue.start + far_off)) s.queue }

  wake_def :
      (now : Instant) (s s₁ : Store cm) (w : Option Instant)
      → remove_expired cm now s ≡ some (w, s₁)
      → wake cm now s ≡ some (after_sleep w s₁)
  unfolding wake
  wake_def now s s₁ none run = rw run refl
  wake_def now s s₁ (some t) run = rw run refl

  -- The arm for the end of the sleep goes well, and what it leaves has not expired.
  wake-IsTracked :
      (now : Instant) (s : Store cm)
      → IsTracked cm laws s
      → (s' : Store cm) × (wake cm now s ≡ some s')
        × ((k : Key) (c : Challenge) → cm.get k s'.set ≡ some c → now < c.expires_at)
        × IsTracked cm laws s'
  unfolding set_wakeup
  wake-IsTracked now s t =
      let (w, s₁, run, unexpired, kept, earliest, tracked) = remove_expired_lem cm laws now s t in
      (
        after_sleep w s₁,
        wake_def now s s₁ w run,
        unexpired,
        IsTracked-SameExpiry cm laws s₁ (after_sleep w s₁) (same_set s₁) refl tracked,
      )

  Calls-IsTracked : {start : Instant} {s : Store cm} → Calls start s → IsTracked cm laws s
  Calls-IsTracked {start} started = new-IsTracked cm laws start
  Calls-IsTracked (gets chain ip difficulty duration nonce now {s} {s'} calls run) =
      get-IsTracked cm laws chain ip difficulty duration nonce now s s' (Calls-IsTracked calls) run
  Calls-IsTracked (checks chain ip solution {s} calls) =
      check_solution-IsTracked cm laws sha256 chain ip solution s (Calls-IsTracked calls)
  Calls-IsTracked (receives {s} {queue} calls run) =
      IsTracked-SameExpiry cm laws s (record s { queue = queue }) (same_set s)
        (receive_wakeup-q s.queue queue run) (Calls-IsTracked calls)
  Calls-IsTracked (wakes now {s} {s'} calls run) =
      let (s₁, ran, unexpired, tracked) = wake-IsTracked now s (Calls-IsTracked calls) in
      subst (IsTracked cm laws) (some-injective _ _ (sym ran ∙ run)) tracked

  Calls-IsOnce : {start : Instant} {s : Store cm} → Calls start s → IsOnce s.queue.q
  unfolding new
  Calls-IsOnce started = λ k. omega arith
  Calls-IsOnce (gets chain ip difficulty duration nonce now {s} {s'} calls run) =
      get-IsOnce cm laws chain ip difficulty duration nonce now s s' (Calls-IsTracked calls) run
        (Calls-IsOnce calls)
  Calls-IsOnce (checks chain ip solution {s} calls) =
      check_solution-IsOnce cm laws sha256 chain ip solution s (Calls-IsOnce calls)
  Calls-IsOnce (receives {s} {queue} calls run) =
      rw (receive_wakeup-q s.queue queue run) (Calls-IsOnce calls)
  Calls-IsOnce (wakes now {s} {s'} calls run) =
      wake-IsOnce cm laws now s s' run (Calls-IsOnce calls)

  -- In every state that calls of `get` and `check_solution` and the arms of the task lead to, one at a time: each
  -- stored challenge has an entry in the heap, with its expiry, each entry its challenge, and no key two entries; and at
  -- any time the arm for the end of the sleep meets no panic, leaves no challenge that has expired, and the two in step
  -- in the same way.
  pub Calls-evicts :
      (start now : Instant) (s : Store cm)
      → Calls start s
      → IsTracked cm laws s
        × IsOnce s.queue.q
        × (s' : Store cm) × (wake cm now s ≡ some s')
        × ((k : Key) (c : Challenge) → cm.get k s'.set ≡ some c → now < c.expires_at)
        × IsTracked cm laws s'
        × IsOnce s'.queue.q
  Calls-evicts start now s calls =
      let tracked = Calls-IsTracked calls in
      let (s', run, unexpired, still) = wake-IsTracked now s tracked in
      (tracked, Calls-IsOnce calls, s', run, unexpired, still, Calls-IsOnce (wakes now calls run))
