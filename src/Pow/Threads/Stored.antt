-- ===== src/Pow/Threads/Stored.antt =====
-- The run of `remove_expired` in the eviction task of src/pow.rs under interleaving, up to the store of the next
-- wakeup.
use faucet_api.Common.{
  ℕ, ◌-◌, ◌/◌, ◌≤◌, ◌≡◌, inl, inr, Option, none, some, List, [], ◌∷◌, All, All-map, Any-All, arith,
}
use faucet_api.Pow.Challenge.{Instant}
use faucet_api.Pow.Eviction.{EvictionEntry, EvictionQueue, set_wakeup}
use faucet_api.Pow.Eviction.Drain.{Drained, Drained-All, Drained-IsEarliest, IsEarliest}
use faucet_api.Pow.Eviction.Scheduled.{InRange}
use faucet_api.Pow.Threads.{Pc, waiting, removing, storing, wakeup_after}
use faucet_api.Pow.Threads.Timed.{Kept, IsPlanned, IsTimed}

-- `remove_expired` leaves a heap whose first expiry is the wakeup that it returns.
IsEarliest-IsPlanned :
    (eq : EvictionQueue) (w : Option Instant) (left : List EvictionEntry)
    → IsEarliest w left
    → All (λ e. InRange eq e.expires_at) left
    → IsPlanned eq.start w
IsEarliest-IsPlanned eq none left earliest r = tt
IsEarliest-IsPlanned eq (some t) left (earliest, at) r =
    Any-All (λ e. e.expires_at ≡ t) (λ e. InRange eq e.expires_at) left
      (λ e same q. (omega (arith, same, q.0), omega (arith, same, q.1))) at r

IsEarliest-Kept :
    (es : List EvictionEntry) (eq : EvictionQueue) (pc : ℕ → Pc) (w : Option Instant)
    (left : List EvictionEntry)
    → IsEarliest w left
    → All (Kept (removing es w) (record eq { q = left }) pc) left
IsEarliest-Kept es eq pc none left earliest = rw earliest tt
IsEarliest-Kept es eq pc (some t) left (earliest, at) = earliest

pub awake-IsTimed :
    (eq : EvictionQueue) (pc : ℕ → Pc) {now : Instant} {es left : List EvictionEntry}
    {w : Option Instant}
    → Drained now eq.q es left w
    → IsTimed waiting eq pc
    → IsTimed (removing es w) (record eq { q = left }) pc
awake-IsTimed eq pc {es} {left} {w} d h =
    let (earliest, _) = Drained-IsEarliest d in
    let (_, r) = Drained-All (λ e. InRange eq e.expires_at) d h.in_range in
    record {
      kept = IsEarliest-Kept es eq pc w left earliest;
      in_range = r;
      messages_in_range = h.messages_in_range;
      threads = h.threads;
      planned = IsEarliest-IsPlanned eq w left earliest r;
      stored = h.stored;
    }

pub remove-IsTimed :
    (e : EvictionEntry) (es : List EvictionEntry) (w : Option Instant) (eq : EvictionQueue)
    (pc : ℕ → Pc)
    → IsTimed (removing (e ∷ es) w) eq pc
    → IsTimed (removing es w) eq pc
remove-IsTimed e es w eq pc h = record {
  kept = h.kept;
  in_range = h.in_range;
  messages_in_range = h.messages_in_range;
  threads = h.threads;
  planned = h.planned;
  stored = h.stored;
}

pub unlock-IsTimed :
    (w : Option Instant) (eq : EvictionQueue) (pc : ℕ → Pc)
    → IsTimed (removing [] w) eq pc
    → IsTimed (storing w) eq pc
unlock-IsTimed w eq pc h = record {
  kept = All-map (λ e k. inl k) eq.q h.kept;
  in_range = h.in_range;
  messages_in_range = h.messages_in_range;
  threads = h.threads;
  planned = h.planned;
  stored = h.stored;
}

stored-planned :
    (w : Option Instant) (eq : EvictionQueue)
    → IsPlanned eq.start w
    → let eq' = set_wakeup (wakeup_after w eq) eq in
      (eq'.next_wakeup - eq'.start) / 1_000_000 ≤ eq'.next_wakeup_millis
unfolding set_wakeup
stored-planned none eq r = omega arith
stored-planned (some t) eq (after, before) = omega arith

pub store-IsTimed :
    (w : Option Instant) (eq : EvictionQueue) (pc : ℕ → Pc)
    → IsTimed (storing w) eq pc
    → IsTimed waiting (set_wakeup (wakeup_after w eq) eq) pc
unfolding set_wakeup
store-IsTimed w eq pc h = record {
  kept =
      All-map
        (λ e k. elim k [
          | inl due ↦ inl (inl (omega arith))
          | inr (inl told) ↦ inl (inr told)
          | inr (inr a) ↦ inr a
        ])
        eq.q h.kept;
  in_range = h.in_range;
  messages_in_range = h.messages_in_range;
  threads = h.threads;
  planned = tt;
  stored = stored-planned w eq h.planned;
}
