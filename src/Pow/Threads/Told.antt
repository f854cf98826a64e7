-- ===== src/Pow/Threads/Told.antt =====
-- The messages to the eviction task of src/pow.rs under interleaving: a request's look at the wakeup time, and the
-- task's receipt of a message.
use mathlib.Core.Path.{subst}
use faucet_api.Common.{
  ℕ, ◌-◌, ◌/◌, ◌≤◌, ◌<◌, ◌≡◌, sym, ap, ◌∙◌, ◌⊎◌, inl, inr, Option, none, some, List, [], ◌∷◌, ◌++◌,
  All, All-map, All-map2, All-append, arith,
}
use faucet_api.Pow.Challenge.{Instant, Challenge}
use faucet_api.Pow.Eviction.{
  EvictionEntry, EvictionQueue, notify_task, set_wakeup, receive_wakeup, millis_from_start,
}
use faucet_api.Pow.Eviction.Scheduled.{
  Covered, InRange, IsScheduled, Any-append, Any-last, receive-cases, notify-cases,
  earlier-IsScheduled, later-IsScheduled,
}
use faucet_api.Pow.Threads.{Pc, idle, notifying, Task, waiting, removing, storing, update}
use faucet_api.Pow.Threads.Pending.{update_away}
use faucet_api.Pow.Threads.Timed.{
  Awaits, Kept, IsAfter, InFlight, IsTimed, ℕ-cases, InFlight-update,
}

-- The task has not returned from `remove_expired` with a wakeup that it has yet to store.
abbrev pub IsNotStoring : Task → Type 0
IsNotStoring (storing _) = ⊥
IsNotStoring _ = Unit {0}

notified_same : {c c' : Challenge} → notifying c ≡ notifying c' → c ≡ c'
notified_same h = cc

-- An entry that waited for this thread was waiting for its challenge; the others wait on.
Awaits-notified :
    (i : ℕ) (c : Challenge) (pc : ℕ → Pc) (e : EvictionEntry)
    → pc i ≡ notifying c
    → Awaits pc e
    → (c.expires_at ≡ e.expires_at) ⊎ Awaits (update i idle pc) e
Awaits-notified i c pc e at (j, c', at', same) = elim (ℕ-cases j i) [
  | inl own ↦
      let mine : c ≡ c' = notified_same (sym at ∙ ap pc (sym own) ∙ at') in
      inl (ap (λ c. c.expires_at) mine ∙ same)
  | inr away ↦ inr (j, c', update_away i j idle pc away ∙ at', same)
]

told-Kept :
    (c : Challenge) (eq : EvictionQueue) (i : ℕ) (pc : ℕ → Pc) (e : EvictionEntry)
    → pc i ≡ notifying c
    → Kept waiting eq pc e
    → Kept waiting
        (record eq { i_changed_the_wakeup = eq.i_changed_the_wakeup ++ (c.expires_at ∷ []) })
        (update i idle pc)
        e
told-Kept c eq i pc e at (inl (inl w)) = inl (inl w)
told-Kept c eq i pc e at (inl (inr m)) =
    inl (inr (Any-append (λ m. m ≤ e.expires_at) eq.i_changed_the_wakeup (c.expires_at ∷ []) m))
told-Kept c eq i pc e at (inr a) = elim (Awaits-notified i c pc e at a) [
  | inl same ↦ inl (
      inr (
        Any-last (λ m. m ≤ e.expires_at) c.expires_at eq.i_changed_the_wakeup
          (omega (arith, same))))
  | inr a' ↦ inr a'
]

silent-Kept :
    (c : Challenge) (eq : EvictionQueue) (i : ℕ) (pc : ℕ → Pc) (e : EvictionEntry)
    → pc i ≡ notifying c
    → eq.start ≤ c.expires_at
    → (eq.next_wakeup - eq.start) / 1_000_000 ≤ eq.next_wakeup_millis
    → eq.next_wakeup_millis ≤ millis_from_start eq c.expires_at
    → Kept waiting eq pc e
    → Kept waiting eq (update i idle pc) e
silent-Kept c eq i pc e at after stored late (inl h) = inl h
silent-Kept c eq i pc e at after stored late (inr a) = elim (Awaits-notified i c pc e at a) [
  | inl same ↦ inl (inl (omega arith))
  | inr a' ↦ inr a'
]

planned-Kept :
    (es : List EvictionEntry) (w : Option Instant) (eq : EvictionQueue) (ms : List Instant)
    (pc pc' : ℕ → Pc) (e : EvictionEntry)
    → Kept (removing es w) eq pc e
    → Kept (removing es w) (record eq { i_changed_the_wakeup = ms }) pc' e
planned-Kept es none eq ms pc pc' e h = h
planned-Kept es (some t) eq ms pc pc' e h = h

notified-Kept :
    (task : Task) (c : Challenge) (eq : EvictionQueue) (i : ℕ) (pc : ℕ → Pc)
    → pc i ≡ notifying c
    → IsNotStoring task
    → IsTimed task eq pc
    → All (Kept task (notify_task c eq) (update i idle pc)) eq.q
notified-Kept waiting c eq i pc at unstored h =
    let r : IsAfter eq.start c.expires_at = subst (InFlight eq.start) at (h.threads i) in
    elim (notify-cases c eq) [
      | inl same ↦ rw (← same) (All-map (λ e. told-Kept c eq i pc e at) eq.q h.kept)
      | inr (late, same) ↦
          rw (← same) (All-map (λ e. silent-Kept c eq i pc e at r.0 h.stored late) eq.q h.kept)
    ]
notified-Kept (removing es w) c eq i pc at unstored h = elim (notify-cases c eq) [
  | inl same ↦
      rw (← same) (All-map (λ e. planned-Kept es w eq _ pc (update i idle pc) e) eq.q h.kept)
  | inr (late, same) ↦ rw (← same) h.kept
]
notified-Kept (storing w) c eq i pc at unstored h = absurd unstored

pub notify-IsTimed :
    (task : Task) (eq : EvictionQueue) (i : ℕ) (c : Challenge) (pc : ℕ → Pc)
    → pc i ≡ notifying c
    → IsNotStoring task
    → IsTimed task eq pc
    → IsTimed task (notify_task c eq) (update i idle pc)
notify-IsTimed task eq i c pc at unstored h =
    let r : IsAfter eq.start c.expires_at = subst (InFlight eq.start) at (h.threads i) in
    let kept = notified-Kept task c eq i pc at unstored h in
    let threads = InFlight-update eq.start i idle pc tt h.threads in
    elim (notify-cases c eq) [
      | inl same ↦ rw (← same) (record {
        kept = rw (← same) at kept;
        in_range = h.in_range;
        messages_in_range =
            All-append (InRange eq) eq.i_changed_the_wakeup (c.expires_at ∷ []) h.messages_in_range
              (r, tt);
        threads = threads;
        planned = h.planned;
        stored = h.stored;
      })
      | inr (late, same) ↦ rw (← same) (record {
        kept = rw (← same) at kept;
        in_range = h.in_range;
        messages_in_range = h.messages_in_range;
        threads = threads;
        planned = h.planned;
        stored = h.stored;
      })
    ]

-- The part of the queue that one entry, or none, needs.
only-IsScheduled :
    (eq : EvictionQueue) (pc : ℕ → Pc) (es : List EvictionEntry)
    → IsTimed waiting eq pc
    → All (Covered eq) es
    → All (λ e. InRange eq e.expires_at) es
    → IsScheduled (record eq { q = es })
only-IsScheduled eq pc es h covered in_range = record {
  covered = covered;
  in_range = in_range;
  messages_in_range = h.messages_in_range;
  stored = h.stored;
}

earlier-IsTimed :
    (eq : EvictionQueue) (m : Instant) (rest : List Instant) (pc : ℕ → Pc)
    → eq.i_changed_the_wakeup ≡ m ∷ rest
    → m < eq.next_wakeup
    → IsTimed waiting eq pc
    → IsTimed waiting (set_wakeup m (record eq { i_changed_the_wakeup = rest })) pc
unfolding set_wakeup
earlier-IsTimed eq m rest pc p before h =
    let none_left =
      earlier-IsScheduled (record eq { q = [] }) m rest p before
        (only-IsScheduled eq pc [] h tt tt) in
    record {
      kept =
          All-map2
            (λ e r k. elim k [
              | inl c ↦
                  inl
                    (earlier-IsScheduled (record eq { q = e ∷ [] }) m rest p before
                      (only-IsScheduled eq pc (e ∷ []) h (c, tt) (r, tt))).covered.0
              | inr a ↦ inr a
            ])
            eq.q h.in_range h.kept;
      in_range = h.in_range;
      messages_in_range = none_left.messages_in_range;
      threads = h.threads;
      planned = tt;
      stored = none_left.stored;
    }

later-IsTimed :
    (eq : EvictionQueue) (m : Instant) (rest : List Instant) (pc : ℕ → Pc)
    → eq.i_changed_the_wakeup ≡ m ∷ rest
    → eq.next_wakeup ≤ m
    → IsTimed waiting eq pc
    → IsTimed waiting (record eq { i_changed_the_wakeup = rest }) pc
later-IsTimed eq m rest pc p after h =
    let none_left =
      later-IsScheduled (record eq { q = [] }) m rest p after (only-IsScheduled eq pc [] h tt tt) in
    record {
      kept =
          All-map2
            (λ e r k. elim k [
              | inl c ↦
                  inl
                    (later-IsScheduled (record eq { q = e ∷ [] }) m rest p after
                      (only-IsScheduled eq pc (e ∷ []) h (c, tt) (r, tt))).covered.0
              | inr a ↦ inr a
            ])
            eq.q h.in_range h.kept;
      in_range = h.in_range;
      messages_in_range = none_left.messages_in_range;
      threads = h.threads;
      planned = tt;
      stored = none_left.stored;
    }

pub receive-IsTimed :
    (eq eq' : EvictionQueue) (pc : ℕ → Pc)
    → receive_wakeup eq ≡ some eq'
    → IsTimed waiting eq pc
    → IsTimed waiting eq' pc
receive-IsTimed eq eq' pc run h =
    let (m, rest, p, outcome) = receive-cases eq eq' run in
    elim outcome [
      | inl (before, same) ↦ rw (← same) (earlier-IsTimed eq m rest pc p before h)
      | inr (after, same) ↦ rw (← same) (later-IsTimed eq m rest pc p after h)
    ]
