-- ===== src/Pow/Threads/LostWakeup.antt =====
-- The race of src/pow.rs between a request and the task's store of the next wakeup.
use faucet_api.Common.{ℕ, ◌+◌, ◌≤◌, ◌≡◌, refl, ◌∙◌, inl, false, none, [], arith, ltb, Any}
use faucet_api.Pow.Challenge.{Challenge, Key}
use faucet_api.Pow.ChallengeSet.{ConcurrentMap}
use faucet_api.Pow.Eviction.{
  EvictionQueue, far_off, millis_from_start, push_entry, notify_task, set_wakeup,
}
use faucet_api.Pow.Threads.{
  idle, adding, notifying, waiting, storing, update, System, Reach, push, notify, store, here, next,
  wakeup_after,
}
use faucet_api.Pow.Threads.Pending.{update_same}

quiet : {a b : ℕ} → b ≤ a → ltb a b ≡ false
quiet h = ground arith

-- The queue after the request's push and its look at the wakeup time, and the task's store.
queue_after :
    (c : Challenge) (k : Key) (eq : EvictionQueue)
    → eq.next_wakeup_millis ≤ millis_from_start eq c.expires_at
    → let eq₁ = notify_task c (push_entry c k.0 k.1 eq) in
      let eq₂ = set_wakeup (wakeup_after none eq₁) eq₁ in
      Any (λ e. e.expires_at ≡ c.expires_at) eq₂.q
      × (eq₂.i_changed_the_wakeup ≡ eq.i_changed_the_wakeup)
      × (eq₂.next_wakeup ≡ eq.start + far_off)
unfolding notify_task push_entry set_wakeup
queue_after c k eq h = rw (quiet h) (inl refl, refl, refl)

module _ (cm : ConcurrentMap) where
  -- If `remove_expired` has found an empty heap and the task has not yet stored that, a request whose
  -- challenge expires no earlier than the wakeup just handled can be lost: there are steps after
  -- which its entry is in the heap, the channel is empty, and the task sleeps for 10000 years.
  pub lost_wakeup :
      (s : System cm) (i : ℕ) (k : Key) (c : Challenge)
      → s.task ≡ storing none
      → s.pc i ≡ adding k c
      → s.queue.next_wakeup_millis ≤ millis_from_start s.queue c.expires_at
      → s.queue.i_changed_the_wakeup ≡ []
      → (t : System cm) × Reach cm s t
        × (t.task ≡ waiting)
        × Any (λ e. e.expires_at ≡ c.expires_at) t.queue.q
        × (t.queue.i_changed_the_wakeup ≡ [])
        × (t.queue.next_wakeup ≡ s.queue.start + far_off)
  lost_wakeup s i k c task pc late channel =
      let s₁ : System cm = record s {
        queue = push_entry c k.0 k.1 s.queue;
        pc = update i (notifying c) s.pc;
      } in
      let s₂ : System cm = record s₁ { queue = notify_task c s₁.queue; pc = update i idle s₁.pc } in
      let t : System cm = record s₂ {
        queue = set_wakeup (wakeup_after none s₂.queue) s₂.queue;
        task = waiting;
      } in
      let (entry, silent, asleep) = queue_after c k s.queue late in
      (
        t,
        next
            (next (next here (push i k c pc (rw task tt)))
              (notify i c (update_same i (notifying c) s.pc)))
            (store none task),
        refl,
        entry,
        silent ∙ channel,
        asleep,
      )
