-- ===== src/Tests/Wakeups.antt =====
-- The wakeups of src/pow.rs at concrete inputs.
use faucet_api.Common.{◌+◌, ◌≡◌, refl, none, some, [], All, Any, arith}
use faucet_api.Chain.{l1, l2}
use faucet_api.Pow.Challenge.{Challenge}
use faucet_api.Pow.ChallengeSet.Assoc.{function_map, compare_and_swap}
use faucet_api.Pow.Claims.{fresh}
use faucet_api.Pow.Eviction.{
  EvictionQueue, new, add_challenge, far_off, receive_wakeup, drain, notify_task, push_entry,
}
use faucet_api.Pow.Eviction.Scheduled.{Covered}
use faucet_api.Pow.Eviction.Wakeups.{Serial, started, added, received, serial_wakeups}
use faucet_api.Pow.Threads.{
  System, Reach, init, waiting, here, next, issue, push, notify, receive, awake, remove, unlock,
  update,
}
use faucet_api.Pow.Threads.LostWakeup.{lost_wakeup}
use faucet_api.Tests.Challenges.{localhost, sample_nonce, first_challenge, at_start}
use faucet_api.Tests.Threads.{home}

told :
    (eq : EvictionQueue) × (receive_wakeup
        (add_challenge first_challenge localhost l1 at_start.queue)
      ≡ some eq)
unfolding receive_wakeup add_challenge new
told = (_, refl)

at_start_started : Serial function_map 1000 at_start
at_start_started = started refl

announced : Serial function_map 1000 (record at_start { queue = told.0 })
unfolding new
announced =
    received (added first_challenge localhost l1 at_start_started (omega arith, omega arith)) told.1

serial_wakeups_example : All (Covered told.0) told.0.q
serial_wakeups_example = serial_wakeups function_map announced

abbrev second_challenge : Challenge
second_challenge = fresh sample_nonce 12 500 3000

-- The first challenge is issued, announced and evicted; before the task stores that nothing is left,
-- a second one is issued.
nothing_left : (t : System function_map) × Reach function_map (init function_map 1000) t
unfolding update compare_and_swap new drain push_entry notify_task receive_wakeup
nothing_left = (
  _,
  next
      (next
        (next
          (next
            (next
              (next
                (next (next here (issue 0 home 12 500 sample_nonce 2000 refl refl))
                  (push 0 home first_challenge refl tt))
                (notify 0 first_challenge refl))
              (receive refl refl))
            (awake 2500 refl refl))
          (remove _ _ _ refl))
        (unlock none refl))
      (issue 1 (localhost, l2) 12 500 sample_nonce 3000 refl refl),
)

lost_wakeup_example :
    (t : System function_map) × Reach function_map nothing_left.0 t
    × (t.task ≡ waiting)
    × Any (λ e. e.expires_at ≡ 3500) t.queue.q
    × (t.queue.i_changed_the_wakeup ≡ [])
    × (t.queue.next_wakeup ≡ 1000 + far_off)
unfolding nothing_left
lost_wakeup_example =
    lost_wakeup function_map nothing_left.0 1 (localhost, l2) second_challenge refl refl
      (omega arith) refl
