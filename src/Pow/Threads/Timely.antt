-- ===== src/Pow/Threads/Timely.antt =====
-- The wakeups of the eviction task of src/pow.rs, over all interleavings but those that reach into the moment between
-- `remove_expired` and the store of the next wakeup.
use mathlib.Core.Path.{subst}
use faucet_api.Common.{◌≡◌, sym, ◌⊎◌, All, arith}
use faucet_api.Pow.Challenge.{Instant}
use faucet_api.Pow.Eviction.Scheduled.{Covered}
use faucet_api.Pow.Threads.{idle, checking, adding, waiting}
use faucet_api.Pow.ChallengeSet.{ConcurrentMap}
use faucet_api.Pow.Claims.{fresh}
use faucet_api.Pow.Eviction.{new}
use faucet_api.Pow.Threads.{
  System, Step, init, issue, find, push, notify, read, win, lose, receive, awake, remove, unlock,
  store,
}
use faucet_api.Pow.Threads.Pending.{drain-some}
use faucet_api.Pow.Threads.Timed.{Awaits, Kept, IsAfter, IsTimed, moved-IsTimed, push-IsTimed}
use faucet_api.Pow.Threads.Told.{IsNotStoring, notify-IsTimed, receive-IsTimed}
use faucet_api.Pow.Threads.Stored.{awake-IsTimed, remove-IsTimed, unlock-IsTimed, store-IsTimed}

module _ (cm : ConcurrentMap) where
  -- A new challenge expires between the start and 2^64 ms later, and no request looks at the wakeup time while the task
  -- has a new one that it has yet to store.
  abbrev IsTimely : {s t : System cm} → Step cm s t → Type 0
  IsTimely {s} (issue i k difficulty duration nonce now at h) =
      IsAfter s.queue.start (fresh nonce difficulty duration now).expires_at
  IsTimely {s} (notify i c at) = IsNotStoring s.task
  IsTimely _ = Unit {0}

  pub data Timely (start : Instant) : System cm → Type 0 where
    started : Timely start (init cm start)
    then :
        {s t : System cm} → Timely start s → (step : Step cm s t) → IsTimely step → Timely start t

  abbrev IsOnTime : System cm → Type 0
  IsOnTime s = IsTimed s.task s.queue s.pc

  Step-IsOnTime : {s t : System cm} (step : Step cm s t) → IsTimely step → IsOnTime s → IsOnTime t
  Step-IsOnTime {s} (issue i k difficulty duration nonce now at h) r t =
      moved-IsTimed s.task s.queue i idle (adding k (fresh nonce difficulty duration now)) s.pc at
        tt r t
  Step-IsOnTime {s} (find i k c at h) r t = t
  Step-IsOnTime {s} (push i k c at lock) r t = push-IsTimed s.task s.queue i k c s.pc at lock t
  Step-IsOnTime {s} (notify i c at) r t = notify-IsTimed s.task s.queue i c s.pc at r t
  Step-IsOnTime {s} (read i k c at h) r t =
      moved-IsTimed s.task s.queue i idle (checking k c) s.pc at tt tt t
  Step-IsOnTime {s} (win i k c at h) r t =
      moved-IsTimed s.task s.queue i (checking k c) idle s.pc at tt tt t
  Step-IsOnTime {s} (lose i k c at h) r t =
      moved-IsTimed s.task s.queue i (checking k c) idle s.pc at tt tt t
  Step-IsOnTime {s} (receive {queue} at h) r t =
      subst (λ task. IsTimed task queue s.pc) (sym at)
        (receive-IsTimed s.queue queue s.pc h (subst (λ task. IsTimed task s.queue s.pc) at t))
  Step-IsOnTime {s} (awake now {es} {left} {w} at h) r t =
      awake-IsTimed s.queue s.pc (drain-some now s.queue.q es left w h)
        (subst (λ task. IsTimed task s.queue s.pc) at t)
  Step-IsOnTime {s} (remove e es w at) r t =
      remove-IsTimed e es w s.queue s.pc (subst (λ task. IsTimed task s.queue s.pc) at t)
  Step-IsOnTime {s} (unlock w at) r t =
      unlock-IsTimed w s.queue s.pc (subst (λ task. IsTimed task s.queue s.pc) at t)
  Step-IsOnTime {s} (store w at) r t =
      store-IsTimed w s.queue s.pc (subst (λ task. IsTimed task s.queue s.pc) at t)

  init-IsOnTime : (start : Instant) → IsOnTime (init cm start)
  unfolding new
  init-IsOnTime start = record {
    kept = tt;
    in_range = tt;
    messages_in_range = tt;
    threads = λ i. tt;
    planned = tt;
    stored = omega arith;
  }

  Timely-IsOnTime : {start : Instant} {s : System cm} → Timely start s → IsOnTime s
  Timely-IsOnTime {start} started = init-IsOnTime start
  Timely-IsOnTime (then before step r) = Step-IsOnTime step r (Timely-IsOnTime before)

  -- However requests and evictions interleave, if challenges expire between the start and 2^64 ms later and no
  -- request looks at the wakeup time between the return of `remove_expired` and the store of the next wakeup: while
  -- the task waits, each entry of the heap is one that it does not sleep past by a millisecond, or that a message in the
  -- channel will tell it of, or that a thread has pushed and is about to look at the wakeup time for.
  pub timely_wakeups :
      {start : Instant} {s : System cm}
      → Timely start s
      → s.task ≡ waiting
      → All (λ e. Covered s.queue e ⊎ Awaits s.pc e) s.queue.q
  timely_wakeups {s} steps at =
      subst (λ task. All (Kept task s.queue s.pc) s.queue.q) at (Timely-IsOnTime steps).kept
