-- ===== src/Pow/Threads/Eviction.antt =====
-- The eviction task of src/pow.rs under interleaving: which challenges it removes, and that it misses none.
use mathlib.Core.Option
use faucet_api.Common.{Result-cases, ◌≡◌, refl, sym, ap, ◌∙◌, inl, inr, none, some, [], ◌++◌, arith}
use faucet_api.Pow.Challenge.{Instant, Challenge, Key, Key-discrete}
use faucet_api.Pow.ChallengeSet.{ConcurrentMap, IsLawful}
use faucet_api.Pow.Eviction.{EvictionQueue, new, notify_task, set_wakeup}
use faucet_api.Pow.Claims.{fresh, claim}
use faucet_api.Pow.Eviction.Scheduled.{receive_wakeup-q}
use faucet_api.Pow.Threads.{
  idle, checking, notifying, System, Step, Reach, init, issue, find, push, notify, read, win, lose,
  receive, awake, remove, unlock, store, here, next, wakeup_after,
}
use faucet_api.Pow.Threads.Gate.{cas-ok, cas-err, claim-ok, claim-err}
use faucet_api.Pow.Threads.Pending.{
  to_expire, expiry, IsPending, still-IsPending, update-back, update-forth,
}
use faucet_api.Pow.Threads.Adding.{IsQuiet-at, issue-IsPending, push-IsPending}
use faucet_api.Pow.Threads.Removing.{remove-IsPending, awake-IsPending}

notify_task-q : (c : Challenge) (eq : EvictionQueue) → (notify_task c eq).q ≡ eq.q
unfolding notify_task
notify_task-q c eq = ground arith

set_wakeup-q : (t : Instant) (eq : EvictionQueue) → (set_wakeup t eq).q ≡ eq.q
unfolding set_wakeup
set_wakeup-q t eq = refl

module _ (cm : ConcurrentMap) (laws : IsLawful cm) where
  open laws use {
    get-empty, get-cas_same, get-cas_failure, get-cas_other, get-remove_same, get-remove_other,
  }

  claim-expiry :
      (k : Key) (c : Challenge) (set : cm.Map) (j : Key)
      → expiry cm j (claim cm k c set).1 ≡ expiry cm j set
  claim-expiry k c set j = elim (Result-cases (claim cm k c set).0) [
    | inr (e, p) ↦ ap (Option.map (λ c. c.expires_at)) (claim-err cm laws k c set p j)
    | inl (_, p) ↦
        let (found, marked, others) = claim-ok cm laws k c set p in
        elim (Key-discrete j k) [
          | yes own ↦ rw (own, marked, found) refl
          | no n ↦ ap (Option.map (λ c. c.expires_at)) (others j n)
        ]
  ]

  Step-IsPending : {s t : System cm} → Step cm s t → IsPending cm s → IsPending cm t
  Step-IsPending {s} (issue i k difficulty duration nonce now at h) p =
      let t =
        issue-IsPending cm laws s i k (fresh nonce difficulty duration now) at
          (cas-ok cm laws k none _ s.set none h) p in
      record {
        thread = t.thread;
        alone = t.alone;
        entry = t.entry;
        once = t.once;
        covered = t.covered;
      }
  Step-IsPending {s} (find i k c at h) p =
      still-IsPending cm s _
        (λ j.
          ap (Option.map (λ c. c.expires_at))
            (get-cas_failure k j none (some c) s.set (cas-err cm laws k none (some c) s.set h)))
        refl (λ i k c h. h) (λ i k c h. h) p
  Step-IsPending {s} (push i k c at lock) p = push-IsPending cm laws s i k c at lock p
  Step-IsPending {s} (notify i c at) p =
      still-IsPending cm s _ (λ j. refl) (ap (λ q. q ++ to_expire s.task) (notify_task-q c s.queue))
        (update-back i idle s.pc tt)
        (update-forth i idle s.pc (IsQuiet-at s.pc i (notifying c) at tt)) p
  Step-IsPending {s} (read i k c at h) p =
      still-IsPending cm s _ (λ j. refl) refl (update-back i (checking k c) s.pc tt)
        (update-forth i (checking k c) s.pc (IsQuiet-at s.pc i idle at tt)) p
  Step-IsPending {s} (win i k c at h) p =
      still-IsPending cm s _ (claim-expiry k c s.set) refl (update-back i idle s.pc tt)
        (update-forth i idle s.pc (IsQuiet-at s.pc i (checking k c) at tt)) p
  Step-IsPending {s} (lose i k c at h) p =
      still-IsPending cm s _ (claim-expiry k c s.set) refl (update-back i idle s.pc tt)
        (update-forth i idle s.pc (IsQuiet-at s.pc i (checking k c) at tt)) p
  Step-IsPending {s} (receive {queue} at h) p =
      still-IsPending cm s _ (λ j. refl)
        (ap (λ q. q ++ to_expire s.task) (receive_wakeup-q s.queue queue h)) (λ i k c h. h)
        (λ i k c h. h) p
  Step-IsPending {s} (awake now {es} {left} {w} at h) p =
      awake-IsPending cm laws s now es left w at h p
  Step-IsPending {s} (remove e es w at) p = remove-IsPending cm laws s e es w at p
  Step-IsPending {s} (unlock w at) p =
      still-IsPending cm s _ (λ j. refl) (ap (λ task. s.queue.q ++ to_expire task) (sym at))
        (λ i k c h. h) (λ i k c h. h) p
  Step-IsPending {s} (store w at) p =
      still-IsPending cm s _ (λ j. refl)
        (ap (λ q. q ++ []) (set_wakeup-q (wakeup_after w s.queue) s.queue)
          ∙ ap (λ task. s.queue.q ++ to_expire task) (sym at))
        (λ i k c h. h) (λ i k c h. h) p

  init-IsPending : (start : Instant) → IsPending cm (init cm start)
  unfolding new
  init-IsPending start = record {
    thread = λ i k c h. cc;
    alone = λ i j k c c' h h'. cc;
    entry = tt;
    once = λ k. omega arith;
    covered = λ k t h.
        let gone : expiry cm k cm.empty ≡ none =
          ap (Option.map (λ c. c.expires_at)) (get-empty k) in
        ground arith;
  }

  -- However requests, evictions and their accesses interleave: every challenge that is stored has exactly one of
  -- a thread that has yet to push its entry, an entry in the heap, and an entry that the task is removing; and
  -- each of these is for a challenge that is stored, with the expiry that this one has.
  pub Reach-IsPending :
      (start : Instant) {t : System cm} → Reach cm (init cm start) t → IsPending cm t
  Reach-IsPending start here = init-IsPending start
  Reach-IsPending start (next steps step) = Step-IsPending step (Reach-IsPending start steps)
