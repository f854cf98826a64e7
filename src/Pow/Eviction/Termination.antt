-- ===== src/Pow/Eviction/Termination.antt =====
-- The loop of `remove_expired` of src/pow.rs and the turn of the task around it: that they end.
use native.Mathlib.Nat.{zero-add, suc-add}
use faucet_api.Common.{
  ℕ, zero, suc, ◌+◌, ◌≤◌, ◌<◌, ◌≡◌, inl, inr, Option, some, List, arith, leb, length, All,
  Option-cases, Bool-cases,
}
use faucet_api.Pow.Challenge.{Instant}
use faucet_api.Pow.BinaryHeap.{peek, pop, Popped-length}
use faucet_api.Pow.Eviction.{EvictionEntry, entry_ord, drain}
use faucet_api.Pow.Eviction.Drain.{
  Drained, finished, stopped, taken, drain-Drained, Drained-expired, Drained-IsEarliest,
}

abbrev Outcome : Type 0
Outcome = List EvictionEntry × List EvictionEntry × Option Instant

drain-suc :
    (fuel : ℕ) (now : Instant) (heap : List EvictionEntry) (r : Outcome)
    → drain fuel now heap ≡ some r
    → drain (suc fuel) now heap ≡ some r
unfolding drain
drain-suc zero now heap r h = absurd (ground arith)
drain-suc (suc fuel) now heap r h = elim (Option-cases (peek heap)) [
  | inl p ↦ ground arith
  | inr (entry, p) ↦ elim (Bool-cases (leb entry.expires_at now)) [
    | inr q ↦ ground arith
    | inl q ↦ elim (Option-cases (pop heap)) [
      | inl t ↦ ground arith
      | inr ((e, rest), t) ↦ elim (Option-cases (drain fuel now rest)) [
        | inl u ↦ ground arith
        | inr (r', u) ↦ let more = drain-suc fuel now rest r' u in ground arith
      ]
    ]
  ]
]

drain-more :
    (k fuel : ℕ) (now : Instant) (heap : List EvictionEntry) (r : Outcome)
    → drain fuel now heap ≡ some r
    → drain (k + fuel) now heap ≡ some r
drain-more zero fuel now heap r h = rw (zero-add fuel) h
drain-more (suc k) fuel now heap r h =
    rw (suc-add k fuel) (drain-suc (k + fuel) now heap r (drain-more k fuel now heap r h))

Drained-length :
    {now : Instant} {heap es left : List EvictionEntry} {w : Option Instant}
    → Drained now heap es left w
    → length heap ≡ length es + length left
Drained-length finished = omega arith
Drained-length (stopped p t) = omega arith
Drained-length (taken p t d) = omega (arith, Popped-length p, Drained-length d)

-- The loop of `remove_expired` ends and no `unwrap` panics, for every heap and clock: given one round more than
-- the heap has entries, and with the same outcome given any number more. It takes out entries that have expired,
-- those that are left have not, and both together are as many as the heap had.
pub drain_ends :
    (now : Instant) (heap : List EvictionEntry) (more : ℕ)
    → (es : List EvictionEntry) × (left : List EvictionEntry) × (w : Option Instant) × (drain
          (suc (length heap))
          now
          heap
        ≡ some (es, left, w))
      × (drain (more + suc (length heap)) now heap ≡ some (es, left, w))
      × All (λ e. e.expires_at ≤ now) es
      × All (λ e. now < e.expires_at) left
      × (length heap ≡ length es + length left)
drain_ends now heap more =
    let (es, left, w, run, drained) = drain-Drained (suc (length heap)) now heap (omega arith) in
    (
      es,
      left,
      w,
      run,
      drain-more more (suc (length heap)) now heap (es, left, w) run,
      Drained-expired drained,
      (Drained-IsEarliest drained).1,
      Drained-length drained,
    )
