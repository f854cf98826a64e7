-- ===== src/Pow/Eviction.antt =====
-- `EvictionQueue` of src/pow.rs: the heap of entries, the wakeup time that is shared with the
-- background task, the channel to it, and `remove_expired`.
pub mod Drain
pub mod Removal
pub mod Termination
pub mod Scheduled
pub mod Wakeups
use Prim.Native.Nat.{compare}
use mathlib.Core.Option
use faucet_api.Common.{
  ℕ, zero, suc, ◌+◌, ◌-◌, ◌*◌, ◌^◌, true, false, Option, none, some, List, [], ◌∷◌, ◌++◌, ltb, leb,
  if◌then◌else◌, length,
}
use faucet_api.Chain.{Chain}
use faucet_api.Pow.Challenge.{Instant, Key, Challenge, as_millis}
use faucet_api.Pow.ChallengeSet.{ConcurrentMap}
use faucet_api.Pow.BinaryHeap.{Ord, pop, peek, push}

pub record EvictionEntry : Type 0 where
  pub ip : ℕ
  pub chain : Chain
  pub expires_at : Instant

-- `(ip.to_bits(), chain)`
abbrev pub key_of : EvictionEntry → Key
key_of e = (e.ip, e.chain)

-- Inverted: the greatest entry is the one that expires first.
instance abbrev pub entry_ord : Ord EvictionEntry
entry_ord = record { cmp = λ self other. compare other.expires_at self.expires_at }

pub record EvictionQueue : Type 0 where
  pub q : List EvictionEntry
  pub next_wakeup_millis : ℕ
  -- what was sent and is not yet received, oldest first
  pub i_changed_the_wakeup : List Instant
  pub start : Instant
  -- the local of the background task: `honk_shoo` sleeps until then
  pub next_wakeup : Instant

-- 10000 years, in nanoseconds
abbrev pub far_off : ℕ
far_off = 60 * 60 * 24 * 365 * 10_000 * 1_000_000_000

abbrev pub u64_max : ℕ
u64_max = 2 ^ 64 - 1

-- `EvictionQueue::new`, with the state of the task that it spawns.
unfoldable pub new : Instant → EvictionQueue
new start = record {
  q = [];
  next_wakeup_millis = u64_max;
  i_changed_the_wakeup = [];
  start = start;
  next_wakeup = start + far_off;
}

-- `t.duration_since(start).as_millis() as u64`; `duration_since` is zero for an earlier time.
abbrev pub millis_from_start : EvictionQueue → Instant → ℕ
millis_from_start eq t = as_millis (t - eq.start)

-- The first statement of `add_challenge`, under the lock of the heap.
unfoldable pub push_entry : Challenge → ℕ → Chain → EvictionQueue → EvictionQueue
unfolding push
push_entry challenge ip chain eq =
    let entry : EvictionEntry = record {
      ip = ip;
      chain = chain;
      expires_at = challenge.expires_at;
    } in
    record eq { q = push entry eq.q }

-- The rest of `add_challenge`: the task is told of an earlier wakeup.
unfoldable pub notify_task : Challenge → EvictionQueue → EvictionQueue
notify_task challenge eq =
    if ltb (millis_from_start eq challenge.expires_at) eq.next_wakeup_millis
    then record eq { i_changed_the_wakeup = eq.i_changed_the_wakeup ++ (challenge.expires_at ∷ []) }
    else eq

unfoldable pub add_challenge : Challenge → ℕ → Chain → EvictionQueue → EvictionQueue
unfolding push_entry notify_task
add_challenge challenge ip chain eq = notify_task challenge (push_entry challenge ip chain eq)

-- The store of the task: its local and the shared copy.
unfoldable pub set_wakeup : Instant → EvictionQueue → EvictionQueue
set_wakeup t eq = record eq { next_wakeup = t; next_wakeup_millis = millis_from_start eq t }

-- The task's arm for a message; `none` while the channel is empty.
unfoldable pub receive_wakeup : EvictionQueue → Option EvictionQueue
unfolding set_wakeup
receive_wakeup eq = elim eq.i_changed_the_wakeup [
  | [] ↦ none
  | new_wakeup ∷ rest ↦
      let eq' : EvictionQueue = record eq { i_changed_the_wakeup = rest } in
      some (if ltb new_wakeup eq.next_wakeup then set_wakeup new_wakeup eq' else eq')
]

-- The loop of `remove_expired`: what has expired, the heap that is left, and the next wakeup. `none`
-- is an `unwrap` that panics, or fuel that runs out.
unfoldable pub drain :
    ℕ
    → Instant
    → List EvictionEntry
    → Option (List EvictionEntry × List EvictionEntry × Option Instant)
unfolding peek
drain zero now heap = none
drain (suc fuel) now heap = elim (peek heap) [
  | none ↦ some ([], heap, none)
  | some entry ↦ elim (leb entry.expires_at now) [
    | true ↦ elim (pop heap) [
      | none ↦ none
      | some (e, rest) ↦ Option.map (λ r. (e ∷ r.0, r.1, r.2)) (drain fuel now rest)
    ]
    | false ↦ some ([], heap, some entry.expires_at)
  ]
]

module _ (cm : ConcurrentMap) where
  -- The challenge set and the queue, which the threads share.
  pub record Store : Type 0 where
    pub set : cm.Map
    pub queue : EvictionQueue

  -- `for EvictionEntry { ip, chain, .. } in to_expire { cs.remove(&(ip.to_bits(), chain)); }`
  unfoldable pub remove_all : List EvictionEntry → cm.Map → cm.Map
  remove_all [] set = set
  remove_all (e ∷ es) set = remove_all es (cm.remove (key_of e) set).1

  -- With one round of the loop more than there are entries.
  unfoldable pub remove_expired : Instant → Store → Option (Option Instant × Store)
  unfolding drain remove_all
  remove_expired now s =
      Option.map
        (λ r. (r.2, record { set = remove_all r.0 s.set; queue = record s.queue { q = r.1 } }))
        (drain (suc (length s.queue.q)) now s.queue.q)

  -- The task's arm for the end of its sleep.
  unfoldable pub wake : Instant → Store → Option Store
  unfolding remove_expired set_wakeup
  wake now s =
      Option.map
        (λ r. elim r.0 [
          | some wakeup_time ↦ record (r.1) { queue = set_wakeup wakeup_time r.1.queue }
          | none ↦ record (r.1) { queue = set_wakeup (r.1.queue.start + far_off) r.1.queue }
        ])
        (remove_expired now s)
