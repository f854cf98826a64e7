-- ===== src/Pow/Eviction/Wakeups.antt =====
-- The wakeups of the eviction task of src/pow.rs, while requests and the arms of the task run one at a
-- time.
use faucet_api.Common.{
  ℕ, suc, ◌+◌, ◌≡◌, inl, Option, none, some, List, arith, length, All, All-map, Any-All,
}
use mathlib.Core.Option.{get_or}
use faucet_api.Chain.{Chain}
use faucet_api.Pow.Challenge.{Instant, Challenge}
use faucet_api.Pow.ChallengeSet.{ConcurrentMap}
use faucet_api.Pow.Eviction.{
  EvictionEntry, EvictionQueue, far_off, new, add_challenge, set_wakeup, receive_wakeup, drain,
  Store, wake,
}
use faucet_api.Pow.Eviction.Drain.{drain-Drained, Drained-All, Drained-IsEarliest, IsEarliest}
use faucet_api.Pow.Eviction.Scheduled.{
  Covered, InRange, IsScheduled, new-IsScheduled, add_challenge-IsScheduled,
  receive_wakeup-IsScheduled,
}

-- What the task sets after `remove_expired` fits the heap that is left.
set_wakeup-IsScheduled :
    (eq : EvictionQueue) (left : List EvictionEntry) (w : Option Instant)
    → All (λ e. InRange eq e.expires_at) left
    → All (InRange eq) eq.i_changed_the_wakeup
    → IsEarliest w left
    → IsScheduled (set_wakeup (get_or w (eq.start + far_off)) (record eq { q = left }))
unfolding set_wakeup
set_wakeup-IsScheduled eq left none r ms earliest = record {
  covered = rw earliest tt;
  in_range = r;
  messages_in_range = ms;
  stored = omega arith;
}
set_wakeup-IsScheduled eq left (some t) r ms (earliest, at) = record {
  covered = All-map (λ e l. inl (omega arith)) left earliest;
  in_range = r;
  messages_in_range = ms;
  stored =
      Any-All (λ e. e.expires_at ≡ t) (λ e. InRange eq e.expires_at) left
        (λ e same q. omega (arith, same, q.0, q.1)) at r;
}

module _ (cm : ConcurrentMap) where
  wake-queue :
      (now : Instant) (s s' : Store cm) (es left : List EvictionEntry) (w : Option Instant)
      → drain (suc (length s.queue.q)) now s.queue.q ≡ some (es, left, w)
      → wake cm now s ≡ some s'
      → s'.queue ≡ set_wakeup (get_or w (s.queue.start + far_off)) (record s.queue { q = left })
  unfolding wake
  wake-queue now s s' es left none drained run = ground arith
  wake-queue now s s' es left (some t) drained run = ground arith

  wake-IsScheduled :
      (now : Instant) (s s' : Store cm)
      → wake cm now s ≡ some s'
      → IsScheduled s.queue
      → IsScheduled s'.queue
  wake-IsScheduled now s s' run h =
      let (es, left, w, drained, d) =
        drain-Drained (suc (length s.queue.q)) now s.queue.q (omega arith) in
      rw (wake-queue now s s' es left w drained run) (
        set_wakeup-IsScheduled s.queue left w
          (Drained-All (λ e. InRange s.queue e.expires_at) d h.in_range).1 h.messages_in_range
          (Drained-IsEarliest d).0)

  -- The states that calls of `add_challenge` and the arms of the task, run one at a time, lead to.
  pub data Serial (start : Instant) : Store cm → Type 0 where
    started : {s : Store cm} → s.queue ≡ new start → Serial start s
    added :
        {s : Store cm} (c : Challenge) (ip : ℕ) (chain : Chain)
        → Serial start s
        → InRange s.queue c.expires_at
        → Serial start (record s { queue = add_challenge c ip chain s.queue })
    received :
        {s : Store cm} {eq : EvictionQueue}
        → Serial start s
        → receive_wakeup s.queue ≡ some eq
        → Serial start (record s { queue = eq })
    woken :
        {s s' : Store cm} (now : Instant)
        → Serial start s
        → wake cm now s ≡ some s'
        → Serial start s'

  Serial-IsScheduled : {start : Instant} {s : Store cm} → Serial start s → IsScheduled s.queue
  Serial-IsScheduled {start} (started p) = rw p (new-IsScheduled start)
  Serial-IsScheduled (added {s} c ip chain h r) =
      add_challenge-IsScheduled c ip chain s.queue r (Serial-IsScheduled h)
  Serial-IsScheduled (received {s} {eq} h p) =
      receive_wakeup-IsScheduled s.queue eq p (Serial-IsScheduled h)
  Serial-IsScheduled (woken {s} {s'} now h p) = wake-IsScheduled now s s' p (Serial-IsScheduled h)

  -- As long as calls of `add_challenge` and the arms of the task run one at a time, and expiries lie
  -- between the start and 2^64 ms after it, the task never sleeps a millisecond past the expiry of
  -- an entry without a message that tells it so.
  pub serial_wakeups :
      {start : Instant} {s : Store cm} → Serial start s → All (Covered s.queue) s.queue.q
  serial_wakeups h = (Serial-IsScheduled h).covered
