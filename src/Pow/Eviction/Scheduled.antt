-- ===== src/Pow/Eviction/Scheduled.antt =====
-- The wakeup time of src/pow.rs and the messages of requests: what they cover of the heap.
use native.Mathlib.Nat.{le_refl}
use faucet_api.Common.{
  ℕ, ◌+◌, ◌-◌, ◌*◌, ◌/◌, ◌^◌, ◌≤◌, ◌<◌, ◌≡◌, refl, inl, inr, ◌⊎◌, some, List, [], ◌∷◌, ◌++◌, arith,
  ltb, All, All-map, All-append, Any, Bool-cases, ltb→lt, not-ltb→le,
}
use faucet_api.Chain.{Chain}
use faucet_api.Pow.Challenge.{Instant, Challenge}
use faucet_api.Pow.Eviction.{
  EvictionEntry, EvictionQueue, new, notify_task, millis_from_start, add_challenge, set_wakeup,
  receive_wakeup,
}

-- The task does not sleep a millisecond past the entry's expiry, or will be told of a time no later.
abbrev pub Covered : EvictionQueue → EvictionEntry → Type 0
Covered eq e =
    (eq.next_wakeup < e.expires_at + 1_000_000)
    ⊎ Any (λ m. m ≤ e.expires_at) eq.i_changed_the_wakeup

-- From the start on, and less than 2^64 ms later.
abbrev pub InRange : EvictionQueue → Instant → Type 0
InRange eq t = (eq.start ≤ t) × (t < eq.start + 2 ^ 64 * 1_000_000)

pub record IsScheduled (eq : EvictionQueue) : Type 0 where
  pub covered : All (Covered eq) eq.q
  pub in_range : All (λ e. InRange eq e.expires_at) eq.q
  pub messages_in_range : All (InRange eq) eq.i_changed_the_wakeup
  pub stored : (eq.next_wakeup - eq.start) / 1_000_000 ≤ eq.next_wakeup_millis

pub new-IsScheduled : (start : Instant) → IsScheduled (new start)
unfolding new
new-IsScheduled start = record {
  covered = tt;
  in_range = tt;
  messages_in_range = tt;
  stored = omega arith;
}

pub Any-append : {A : Type 0} (P : A → Type 0) (xs ys : List A) → Any P xs → Any P (xs ++ ys)
Any-append P [] ys h = elim h [ ]
Any-append P (x ∷ xs) ys (inl h) = inl h
Any-append P (x ∷ xs) ys (inr h) = inr (Any-append P xs ys h)

pub Any-last : {A : Type 0} (P : A → Type 0) (y : A) (xs : List A) → P y → Any P (xs ++ (y ∷ []))
Any-last P y [] h = inl h
Any-last P y (x ∷ xs) h = inr (Any-last P y xs h)

List-cases : {A : Type 0} (xs : List A) → (xs ≡ []) ⊎ ((x : A) × (rest : List A) × (xs ≡ x ∷ rest))
List-cases [] = inl refl
List-cases (x ∷ rest) = inr (x, rest, refl)

pub add_challenge-IsScheduled :
    (c : Challenge) (ip : ℕ) (chain : Chain) (eq : EvictionQueue)
    → InRange eq c.expires_at
    → IsScheduled eq
    → IsScheduled (add_challenge c ip chain eq)
unfolding add_challenge
add_challenge-IsScheduled c ip chain eq r h =
    elim (Bool-cases (ltb (millis_from_start eq c.expires_at) eq.next_wakeup_millis)) [
      | inl t ↦ rw t (record {
        covered = (
          inr (Any-last (λ m. m ≤ c.expires_at) c.expires_at eq.i_changed_the_wakeup (le_refl _)),
          All-map
              (λ e v. elim v [
                | inl w ↦ inl w
                | inr m ↦ inr (
                    Any-append (λ m. m ≤ e.expires_at) eq.i_changed_the_wakeup (c.expires_at ∷ [])
                      m)
              ])
              eq.q h.covered,
        );
        in_range = (r, h.in_range);
        messages_in_range =
            All-append (InRange eq) eq.i_changed_the_wakeup (c.expires_at ∷ []) h.messages_in_range
              (r, tt);
        stored = h.stored;
      })
      | inr f ↦ rw f (record {
        covered = (inl (omega (arith, not-ltb→le _ _ f, h.stored, r.0)), h.covered);
        in_range = (r, h.in_range);
        messages_in_range = h.messages_in_range;
        stored = h.stored;
      })
    ]

-- A message takes effect if its time is earlier, and says nothing new if not.
Covered-earlier :
    (eq : EvictionQueue) (m : Instant) (rest : List Instant) (e : EvictionEntry)
    → eq.i_changed_the_wakeup ≡ m ∷ rest
    → Covered eq e
    → (eq.next_wakeup < e.expires_at + 1_000_000)
      ⊎ ((m ≤ e.expires_at) ⊎ Any (λ m. m ≤ e.expires_at) rest)
Covered-earlier eq m rest e p (inl w) = inl w
Covered-earlier eq m rest e p (inr a) = inr (rw p at a)

pub earlier-IsScheduled :
    (eq : EvictionQueue) (m : Instant) (rest : List Instant)
    → eq.i_changed_the_wakeup ≡ m ∷ rest
    → m < eq.next_wakeup
    → IsScheduled eq
    → IsScheduled (set_wakeup m (record eq { i_changed_the_wakeup = rest }))
unfolding set_wakeup
earlier-IsScheduled eq m rest p before h =
    let (r, rs) : All (InRange eq) (m ∷ rest) = rw p at h.messages_in_range in
    record {
      covered =
          All-map
            (λ e v. elim (Covered-earlier eq m rest e p v) [
              | inl w ↦ inl (omega arith)
              | inr (inl l) ↦ inl (omega arith)
              | inr (inr a) ↦ inr a
            ])
            eq.q h.covered;
      in_range = h.in_range;
      messages_in_range = rs;
      stored = omega (arith, r.0, r.1);
    }

pub later-IsScheduled :
    (eq : EvictionQueue) (m : Instant) (rest : List Instant)
    → eq.i_changed_the_wakeup ≡ m ∷ rest
    → eq.next_wakeup ≤ m
    → IsScheduled eq
    → IsScheduled (record eq { i_changed_the_wakeup = rest })
later-IsScheduled eq m rest p after h =
    let (r, rs) : All (InRange eq) (m ∷ rest) = rw p at h.messages_in_range in
    record {
      covered =
          All-map
            (λ e v. elim (Covered-earlier eq m rest e p v) [
              | inl w ↦ inl w
              | inr (inl l) ↦ inl (omega arith)
              | inr (inr a) ↦ inr a
            ])
            eq.q h.covered;
      in_range = h.in_range;
      messages_in_range = rs;
      stored = h.stored;
    }

-- What a message does, and what a look at the wakeup time does.
pub receive-cases :
    (eq eq' : EvictionQueue)
    → receive_wakeup eq ≡ some eq'
    → (m : Instant) × (rest : List Instant) × (eq.i_changed_the_wakeup ≡ m ∷ rest)
      × (((m < eq.next_wakeup) × (set_wakeup m (record eq { i_changed_the_wakeup = rest }) ≡ eq'))
          ⊎ ((eq.next_wakeup ≤ m) × (record eq { i_changed_the_wakeup = rest } ≡ eq')))
unfolding receive_wakeup
receive-cases eq eq' run = elim (List-cases eq.i_changed_the_wakeup) [
  | inl p ↦ absurd (ground arith)
  | inr (m, rest, p) ↦ elim (Bool-cases (ltb m eq.next_wakeup)) [
    | inl t ↦ (m, rest, p, inl (ltb→lt _ _ t, ground arith))
    | inr f ↦ (m, rest, p, inr (not-ltb→le _ _ f, ground arith))
  ]
]

pub notify-cases :
    (c : Challenge) (eq : EvictionQueue)
    → ((record eq { i_changed_the_wakeup = eq.i_changed_the_wakeup ++ (c.expires_at ∷ []) }
        ≡ notify_task c eq))
      ⊎ ((eq.next_wakeup_millis ≤ millis_from_start eq c.expires_at) × (eq ≡ notify_task c eq))
unfolding notify_task
notify-cases c eq =
    elim (Bool-cases (ltb (millis_from_start eq c.expires_at) eq.next_wakeup_millis)) [
      | inl t ↦ inl (rw t refl)
      | inr f ↦ inr (not-ltb→le _ _ f, rw f refl)
    ]

pub receive_wakeup-IsScheduled :
    (eq eq' : EvictionQueue) → receive_wakeup eq ≡ some eq' → IsScheduled eq → IsScheduled eq'
receive_wakeup-IsScheduled eq eq' run h =
    let (m, rest, p, outcome) = receive-cases eq eq' run in
    elim outcome [
      | inl (before, same) ↦ rw (← same) (earlier-IsScheduled eq m rest p before h)
      | inr (after, same) ↦ rw (← same) (later-IsScheduled eq m rest p after h)
    ]

pub receive_wakeup-q : (eq eq' : EvictionQueue) → receive_wakeup eq ≡ some eq' → eq'.q ≡ eq.q
unfolding receive_wakeup set_wakeup
receive_wakeup-q eq eq' h = ground arith
