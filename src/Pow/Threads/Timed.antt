-- ===== src/Pow/Threads/Timed.antt =====
-- The wakeups of the eviction task of src/pow.rs under interleaving: what each step leaves of the entries that the
-- task will wake up for, or will be told of.
use mathlib.Core.Path.{subst}
use faucet_api.Common.{
  ℕ, ◌+◌, ◌-◌, ◌*◌, ◌/◌, ◌^◌, ◌≤◌, ◌<◌, ◌≡◌, ◌≢◌, refl, sym, ap, ◌∙◌, ◌⊎◌, inl, inr, Option, none,
  some, All, All-map, Any, arith, Bool-cases, ◌==◌,
}
use faucet_api.Pow.Challenge.{Instant, Challenge, Key}
use faucet_api.Pow.Eviction.{EvictionEntry, EvictionQueue, push_entry}
use faucet_api.Pow.Eviction.Scheduled.{Covered, InRange}
use faucet_api.Pow.Threads.{
  Pc, adding, notifying, Task, waiting, removing, storing, IsUnlocked, update, wakeup_after,
}
use faucet_api.Pow.Threads.Pending.{update_same, update_away}

-- Some thread has pushed an entry with this expiry and has yet to look at the wakeup time.
abbrev pub Awaits : (ℕ → Pc) → EvictionEntry → Type 0
Awaits pc e = (i : ℕ) × (c : Challenge) × (pc i ≡ notifying c) × (c.expires_at ≡ e.expires_at)

abbrev pub Told : EvictionQueue → EvictionEntry → Type 0
Told eq e = Any (λ m. m ≤ e.expires_at) eq.i_changed_the_wakeup

-- What there is for an entry of the heap, by where the task stands.
abbrev pub Kept : Task → EvictionQueue → (ℕ → Pc) → EvictionEntry → Type 0
Kept waiting eq pc e = Covered eq e ⊎ Awaits pc e
Kept (removing es w) eq pc e = wakeup_after w eq ≤ e.expires_at
Kept (storing w) eq pc e = (wakeup_after w eq ≤ e.expires_at) ⊎ (Told eq e ⊎ Awaits pc e)

-- `InRange`, by the start of the queue.
abbrev pub IsAfter : Instant → Instant → Type 0
IsAfter start t = (start ≤ t) × (t < start + 2 ^ 64 * 1_000_000)

abbrev pub IsPlanned : Instant → Option Instant → Type 0
IsPlanned start none = Unit {0}
IsPlanned start (some t) = IsAfter start t

-- The wakeup that the task is about to store.
abbrev pub Planned : Instant → Task → Type 0
Planned start waiting = Unit {0}
Planned start (removing es w) = IsPlanned start w
Planned start (storing w) = IsPlanned start w

abbrev pub InFlight : Instant → Pc → Type 0
InFlight start (adding k c) = IsAfter start c.expires_at
InFlight start (notifying c) = IsAfter start c.expires_at
InFlight start _ = Unit {0}

pub ℕ-cases : (m n : ℕ) → (m ≡ n) ⊎ (m ≢ n)
ℕ-cases m n = elim (Bool-cases (m == n)) [ inl t ↦ inl (ground arith) | inr f ↦ inr (ground arith) ]

pub record IsTimed (task : Task) (eq : EvictionQueue) (pc : ℕ → Pc) : Type 0 where
  pub kept : All (Kept task eq pc) eq.q
  pub in_range : All (λ e. InRange eq e.expires_at) eq.q
  pub messages_in_range : All (InRange eq) eq.i_changed_the_wakeup
  pub threads : (i : ℕ) → InFlight eq.start (pc i)
  pub planned : Planned eq.start task
  pub stored : (eq.next_wakeup - eq.start) / 1_000_000 ≤ eq.next_wakeup_millis

abbrev pub IsSilent : Pc → Type 0
IsSilent (notifying _) = ⊥
IsSilent _ = Unit {0}

Awaits-update :
    (i : ℕ) (p : Pc) (pc : ℕ → Pc) (e : EvictionEntry)
    → IsSilent (pc i)
    → Awaits pc e
    → Awaits (update i p pc) e
Awaits-update i p pc e silent (j, c, at, same) =
    let away : j ≢ i = λ own. subst IsSilent (ap pc (sym own) ∙ at) silent in
    (j, c, update_away i j p pc away ∙ at, same)

pub InFlight-update :
    (start : Instant) (i : ℕ) (p : Pc) (pc : ℕ → Pc)
    → InFlight start p
    → ((j : ℕ) → InFlight start (pc j))
    → (j : ℕ) → InFlight start (update i p pc j)
unfolding update
InFlight-update start i p pc r h j = elim (Bool-cases (j == i)) [
  | inl t ↦ rw t r
  | inr f ↦ rw f (h j)
]

Kept-update :
    (task : Task) (eq : EvictionQueue) (i : ℕ) (p : Pc) (pc : ℕ → Pc) (e : EvictionEntry)
    → IsSilent (pc i)
    → Kept task eq pc e
    → Kept task eq (update i p pc) e
Kept-update waiting eq i p pc e silent (inl c) = inl c
Kept-update waiting eq i p pc e silent (inr a) = inr (Awaits-update i p pc e silent a)
Kept-update (removing es w) eq i p pc e silent h = h
Kept-update (storing w) eq i p pc e silent (inl c) = inl c
Kept-update (storing w) eq i p pc e silent (inr (inl t)) = inr (inl t)
Kept-update (storing w) eq i p pc e silent (inr (inr a)) =
    inr (inr (Awaits-update i p pc e silent a))

-- A thread that has nothing to look at goes on.
pub moved-IsTimed :
    (task : Task) (eq : EvictionQueue) (i : ℕ) (p q : Pc) (pc : ℕ → Pc)
    → pc i ≡ p
    → IsSilent p
    → InFlight eq.start q
    → IsTimed task eq pc
    → IsTimed task eq (update i q pc)
moved-IsTimed task eq i p q pc at silent r h = record {
  kept = All-map (λ e. Kept-update task eq i q pc e (subst IsSilent (sym at) silent)) eq.q h.kept;
  in_range = h.in_range;
  messages_in_range = h.messages_in_range;
  threads = InFlight-update eq.start i q pc r h.threads;
  planned = h.planned;
  stored = h.stored;
}

new-Kept :
    (task : Task) (eq : EvictionQueue) (pc : ℕ → Pc) (e : EvictionEntry)
    → IsUnlocked task
    → Awaits pc e
    → Kept task eq pc e
new-Kept waiting eq pc e u a = inr a
new-Kept (removing es w) eq pc e u a = absurd u
new-Kept (storing w) eq pc e u a = inr (inr a)

pushed-Kept :
    (task : Task) (c : Challenge) (k : Key) (eq : EvictionQueue) (pc : ℕ → Pc) (e : EvictionEntry)
    → IsUnlocked task
    → Kept task eq pc e
    → Kept task (push_entry c k.0 k.1 eq) pc e
unfolding push_entry
pushed-Kept waiting c k eq pc e u h = h
pushed-Kept (removing es w) c k eq pc e u h = absurd u
pushed-Kept (storing none) c k eq pc e u h = h
pushed-Kept (storing (some t)) c k eq pc e u h = h

pub push-IsTimed :
    (task : Task) (eq : EvictionQueue) (i : ℕ) (k : Key) (c : Challenge) (pc : ℕ → Pc)
    → pc i ≡ adding k c
    → IsUnlocked task
    → IsTimed task eq pc
    → IsTimed task (push_entry c k.0 k.1 eq) (update i (notifying c) pc)
unfolding push_entry
push-IsTimed task eq i k c pc at unlocked h =
    let r : IsAfter eq.start c.expires_at = subst (InFlight eq.start) at (h.threads i) in
    let silent : IsSilent (pc i) = subst IsSilent (sym at) tt in
    let pc' : ℕ → Pc = update i (notifying c) pc in
    record {
      kept = (
        new-Kept task (push_entry c k.0 k.1 eq) pc' _ unlocked
            (i, c, update_same i (notifying c) pc, refl),
        All-map
            (λ e old.
              Kept-update task (push_entry c k.0 k.1 eq) i (notifying c) pc e silent
                (pushed-Kept task c k eq pc e unlocked old))
            eq.q h.kept,
      );
      in_range = (r, h.in_range);
      messages_in_range = h.messages_in_range;
      threads = InFlight-update eq.start i (notifying c) pc r h.threads;
      planned = h.planned;
      stored = h.stored;
    }
