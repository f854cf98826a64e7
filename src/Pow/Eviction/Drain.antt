-- ===== src/Pow/Eviction/Drain.antt =====
-- The loop of `remove_expired` of src/pow.rs: its end, what it takes, and the next wakeup.
use mathlib.Core.List.{Perm}
use mathlib.Core.List.Perm
use faucet_api.Common.{
  ℕ, zero, suc, ◌≤◌, ◌<◌, ◌≡◌, refl, inl, inr, ◌⊎◌, Option, none, some, List, [], ◌∷◌, ◌++◌, arith,
  leb, leb→le, not-leb→lt, length, All, All-map, Any, Option-cases, Bool-cases,
}
use faucet_api.Pow.Challenge.{Instant}
use faucet_api.Pow.BinaryHeap.{
  IsTotal, pop, peek, pop-none, Popped, pop-Popped, Popped-length, Popped-perm, Popped-All,
  Popped-Any, Popped-greatest, All-Popped, Any-Popped,
}
use native.Mathlib.Nat.{le_refl}
use faucet_api.Pow.Eviction.{EvictionEntry, entry_ord, drain}

entry-IsTotal : IsTotal EvictionEntry
entry-IsTotal = record {
  le_trans = λ a b c p q. ground arith;
  le_of_not-le = λ a b p. ground arith;
}

-- What the loop does to a heap: what it takes, what it leaves, and the wakeup it breaks with.
pub data Drained (now : Instant)
    : List EvictionEntry → List EvictionEntry → List EvictionEntry → Option Instant → Type 0 where
  finished : Drained now [] [] [] none
  stopped :
      {heap rest : List EvictionEntry} {e : EvictionEntry}
      → Popped heap e rest
      → now < e.expires_at
      → Drained now heap [] heap (some e.expires_at)
  taken :
      {heap rest es left : List EvictionEntry} {e : EvictionEntry} {w : Option Instant}
      → Popped heap e rest
      → e.expires_at ≤ now
      → Drained now rest es left w
      → Drained now heap (e ∷ es) left w

-- Fuel beyond the size of the heap is enough, and no `unwrap` panics.
pub drain-Drained :
    (fuel : ℕ) (now : Instant) (heap : List EvictionEntry)
    → length heap < fuel
    → (es : List EvictionEntry) × (left : List EvictionEntry) × (w : Option Instant) × (drain fuel
          now heap
        ≡ some (es, left, w))
      × Drained now heap es left w
unfolding drain peek
drain-Drained zero now heap h = absurd (omega arith)
drain-Drained (suc fuel) now heap h = elim (Option-cases (pop heap)) [
  | inl p ↦ ([], [], none, ground (arith, pop-none heap p), rw (pop-none heap p) finished)
  | inr ((e, rest), p) ↦
      let popped = pop-Popped heap p in
      elim (Bool-cases (leb e.expires_at now)) [
        | inl t ↦
            let (es, left, w, run, d) =
              drain-Drained fuel now rest (omega (arith, Popped-length popped)) in
            (e ∷ es, left, w, ground arith, taken popped (leb→le _ _ t) d)
        | inr f ↦ ([], heap, some e.expires_at, ground arith, stopped popped (not-leb→lt _ _ f))
      ]
]

pub Drained-All :
    (P : EvictionEntry → Type 0) {now : Instant} {heap es left : List EvictionEntry}
    {w : Option Instant}
    → Drained now heap es left w
    → All P heap
    → All P es × All P left
Drained-All P finished h = (tt, tt)
Drained-All P (stopped p t) h = (tt, h)
Drained-All P (taken p t d) h =
    let (b, bs) = Popped-All P p h in let (x, y) = Drained-All P d bs in ((b, x), y)

pub Drained-Any :
    (P : EvictionEntry → Type 0) {now : Instant} {heap es left : List EvictionEntry}
    {w : Option Instant}
    → Drained now heap es left w
    → Any P heap
    → Any P es ⊎ Any P left
Drained-Any P finished h = inl h
Drained-Any P (stopped p t) h = inr h
Drained-Any P (taken p t d) h = elim (Popped-Any P p h) [
  | inl b ↦ inl (inl b)
  | inr r ↦ elim (Drained-Any P d r) [ inl x ↦ inl (inr x) | inr y ↦ inr y ]
]

pub Drained-expired :
    {now : Instant} {heap es left : List EvictionEntry} {w : Option Instant}
    → Drained now heap es left w
    → All (λ e. e.expires_at ≤ now) es
Drained-expired finished = tt
Drained-expired (stopped p t) = tt
Drained-expired (taken p t d) = (t, Drained-expired d)

pub Drained-perm :
    {now : Instant} {heap es left : List EvictionEntry} {w : Option Instant}
    → Drained now heap es left w
    → Perm heap (es ++ left)
Drained-perm finished = Perm.refl _
Drained-perm (stopped p t) = Perm.refl _
Drained-perm (taken p t d) = Perm.trans (Popped-perm p) (Perm.cons _ (Drained-perm d))

-- The wakeup is the earliest expiry of the heap, or none if the heap is empty.
abbrev pub IsEarliest : Option Instant → List EvictionEntry → Type 0
IsEarliest none left = left ≡ []
IsEarliest (some t) left = All (λ e. t ≤ e.expires_at) left × Any (λ e. e.expires_at ≡ t) left

Popped-earliest :
    {heap rest : List EvictionEntry} {e : EvictionEntry}
    → Popped heap e rest
    → All (λ x. e.expires_at ≤ x.expires_at) heap
Popped-earliest {heap} {rest} {e} p =
    let P : EvictionEntry → Type 0 = λ x. e.expires_at ≤ x.expires_at in
    All-Popped P p (le_refl _)
      (All-map (λ x t. ground arith) rest (Popped-greatest entry-IsTotal p))

pub Drained-IsEarliest :
    {now : Instant} {heap es left : List EvictionEntry} {w : Option Instant}
    → Drained now heap es left w
    → IsEarliest w left × All (λ e. now < e.expires_at) left
Drained-IsEarliest finished = (refl, tt)
Drained-IsEarliest {now} {heap} (stopped {e} p t) =
    let earliest = Popped-earliest p in
    (
      (earliest, Any-Popped (λ x. x.expires_at ≡ e.expires_at) p refl),
      All-map (λ x h. omega arith) heap earliest,
    )
Drained-IsEarliest (taken p t d) = Drained-IsEarliest d
