-- ===== src/Tests/Threads.antt =====
-- Interleaved steps of src/pow.rs at concrete inputs.
use faucet_api.Common.{◌≤◌, ◌≡◌, ◌⊎◌, All, arith, some, refl}
use faucet_api.Pow.Eviction.{drain, set_wakeup, notify_task, push_entry, new}
use faucet_api.Pow.Eviction.Scheduled.{Covered}
use faucet_api.Chain.{l1}
use faucet_api.Pow.Challenge.{Key}
use faucet_api.Pow.ChallengeSet.Assoc.{function_map, function_map-IsLawful, compare_and_swap}
use faucet_api.Pow.Claims.{find_unclaimed, claim}
use faucet_api.Pow.Threads.{
  System, Reach, init, here, next, issue, push, notify, read, win, lose, awake, unlock, store,
  waiting, update, bump,
}
use faucet_api.Pow.Threads.Gate.{claims-le-issued}
use faucet_api.Pow.Threads.Pending.{IsPending}
use faucet_api.Pow.Threads.Eviction.{Reach-IsPending}
use faucet_api.Pow.Threads.Timed.{Awaits}
use faucet_api.Pow.Threads.Timely.{Timely, started, then, timely_wakeups}
use faucet_api.Tests.Challenges.{localhost, sample_nonce, first_challenge}

abbrev pub home : Key
home = (localhost, l1)

-- Thread 0 is issued a challenge; threads 1 and 2 both read it unclaimed; one claims it, one loses.
raced : (t : System function_map) × Reach function_map (init function_map 1000) t
unfolding update compare_and_swap find_unclaimed claim
raced = (
  _,
  next
      (next
        (next
          (next
            (next
              (next (next here (issue 0 home 12 500 sample_nonce 2000 refl refl))
                (push 0 home first_challenge refl tt))
              (notify 0 first_challenge refl))
            (read 1 home first_challenge refl refl))
          (read 2 home first_challenge refl refl))
        (win 2 home first_challenge refl refl))
      (lose 1 home first_challenge refl refl),
)

raced_counts : (raced.0.claims home ≡ 1) × (raced.0.issued home ≡ 1)
unfolding raced bump compare_and_swap
raced_counts = (refl, refl)

claims-le-issued_example : raced.0.claims home ≤ raced.0.issued home
claims-le-issued_example = claims-le-issued function_map function_map-IsLawful 1000 raced.1 home

Reach-IsPending_example : IsPending function_map raced.0
Reach-IsPending_example = Reach-IsPending function_map function_map-IsLawful 1000 raced.1

-- The task wakes up between the push of an entry and the look of its thread at the wakeup time.
overtaken : (s : System function_map) × Timely function_map 1000 s × (s.task ≡ waiting)
unfolding update compare_and_swap set_wakeup drain notify_task new push_entry find_unclaimed
overtaken = (
  _,
  then
      (then
        (then
          (then
            (then
              (then
                (then started (issue 0 home 12 500 sample_nonce 2000 refl refl)
                  (omega arith, omega arith))
                (push 0 home first_challenge refl tt) tt)
              (awake 2100 refl refl) tt)
            (unlock (some 2500) refl) tt)
          (store (some 2500) refl) tt)
        (read 1 home first_challenge refl refl) tt)
      (notify 0 first_challenge refl) tt,
  refl,
)

timely_wakeups_example :
    All (λ e. Covered overtaken.0.queue e ⊎ Awaits overtaken.0.pc e) overtaken.0.queue.q
timely_wakeups_example = timely_wakeups function_map overtaken.1 overtaken.2
