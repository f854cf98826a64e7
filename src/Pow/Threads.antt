-- ===== src/Pow/Threads.antt =====
-- The requests of src/pow.rs and its eviction task as interleaved steps: each access to the challenge
-- set or the heap is one step, and so are a request's look at the wakeup time with its message, and
-- the task's receipt of a message with its store of the wakeup time. The two functions `issued` and
-- `claims` only record what happened.
pub mod Gate
pub mod LostWakeup
pub mod Pending
pub mod Adding
pub mod Removing
pub mod Eviction
pub mod Timed
pub mod Told
pub mod Stored
pub mod Timely
use mathlib.Core.Logic.{ite}
use faucet_api.Common.{
  ℕ, suc, ◌+◌, ◌≡◌, ◌==◌, if◌then◌else◌, Option, none, some, List, [], ◌∷◌, Result, ok, err, length,
}
use faucet_api.Chain.{Chain}
use faucet_api.Pow.Challenge.{Instant, Duration, Nonce, Challenge, Key, Key-discrete, PowError}
use faucet_api.Pow.ChallengeSet.{CasFailure, ConcurrentMap}
use faucet_api.Pow.Eviction.{
  EvictionEntry, EvictionQueue, key_of, far_off, new, push_entry, notify_task, set_wakeup,
  receive_wakeup, drain, Store,
}
use faucet_api.Pow.Claims.{fresh, find_unclaimed, claim}

-- Where a request stands, with the locals that are live there.
pub data Pc : Type 0 where
  idle : Pc
  checking : (k : Key) (old_challenge : Challenge) → Pc  -- `check_solution`, before its `cas`
  adding : (k : Key) (challenge : Challenge) → Pc  -- `add_challenge`, before the push
  notifying : (challenge : Challenge) → Pc  -- `add_challenge`, after the push

-- Where the eviction task stands. From `removing` on it holds the lock of the heap.
pub data Task : Type 0 where
  waiting : Task  -- in `select!`
  removing : (to_expire : List EvictionEntry) (next_wakeup : Option Instant) → Task
  storing : (next_wakeup : Option Instant) → Task  -- `remove_expired` has returned

-- The heap is not locked by the task.
abbrev pub IsUnlocked : Task → Type 0
IsUnlocked (removing _ _) = ⊥
IsUnlocked _ = Unit

unfoldable pub update : ℕ → Pc → (ℕ → Pc) → ℕ → Pc
update i p pc j = if j == i then p else pc j

unfoldable pub bump : Key → (Key → ℕ) → Key → ℕ
bump k count j = ite (Key-discrete j k) (suc (count j)) (count j)

-- The wakeup that the task sets after `remove_expired`.
abbrev pub wakeup_after : Option Instant → EvictionQueue → Instant
wakeup_after none eq = eq.start + far_off
wakeup_after (some t) eq = t

module _ (cm : ConcurrentMap) where
  pub record System : Type 0 where
    pub set : cm.Map
    pub queue : EvictionQueue
    pub pc : ℕ → Pc
    pub task : Task
    pub issued : Key → ℕ  -- challenges put into the set
    pub claims : Key → ℕ  -- attempts that got past the gate of `check_solution`

  pub data Step (s : System) : System → Type 0 where
    -- `get`: the compare-and-swap issues a challenge, or finds one.
    issue :
        (i : ℕ) (k : Key) (difficulty : ℕ) (duration : Duration) (nonce : Nonce) (now : Instant)
        → s.pc i ≡ idle
        → (cm.cas k none (some (fresh nonce difficulty duration now)) s.set).0 ≡ ok none
        → Step s (record s {
          set = (cm.cas k none (some (fresh nonce difficulty duration now)) s.set).1;
          pc = update i (adding k (fresh nonce difficulty duration now)) s.pc;
          issued = bump k s.issued;
        })
    find :
        (i : ℕ) (k : Key) (c : Challenge) {failure : CasFailure}
        → s.pc i ≡ idle
        → (cm.cas k none (some c) s.set).0 ≡ err failure
        → Step s (record s { set = (cm.cas k none (some c) s.set).1 })
    push :
        (i : ℕ) (k : Key) (c : Challenge)
        → s.pc i ≡ adding k c
        → IsUnlocked s.task
        → Step s
            (record s { queue = push_entry c k.0 k.1 s.queue; pc = update i (notifying c) s.pc })
    notify :
        (i : ℕ) (c : Challenge)
        → s.pc i ≡ notifying c
        → Step s (record s { queue = notify_task c s.queue; pc = update i idle s.pc })
    -- `check_solution`: the read, and the compare-and-swap that wins or loses.
    read :
        (i : ℕ) (k : Key) (c : Challenge)
        → s.pc i ≡ idle
        → find_unclaimed cm k s.set ≡ ok c
        → Step s (record s { pc = update i (checking k c) s.pc })
    win :
        (i : ℕ) (k : Key) (c : Challenge)
        → s.pc i ≡ checking k c
        → (claim cm k c s.set).0 ≡ ok tt
        → Step s (record s {
          set = (claim cm k c s.set).1;
          pc = update i idle s.pc;
          claims = bump k s.claims;
        })
    lose :
        (i : ℕ) (k : Key) (c : Challenge) {e : PowError}
        → s.pc i ≡ checking k c
        → (claim cm k c s.set).0 ≡ err e
        → Step s (record s { set = (claim cm k c s.set).1; pc = update i idle s.pc })
    -- the task
    receive :
        {queue : EvictionQueue}
        → s.task ≡ waiting
        → receive_wakeup s.queue ≡ some queue
        → Step s (record s { queue = queue })
    awake :
        (now : Instant) {es left : List EvictionEntry} {w : Option Instant}
        → s.task ≡ waiting
        → drain (suc (length s.queue.q)) now s.queue.q ≡ some (es, left, w)
        → Step s (record s { queue = record s.queue { q = left }; task = removing es w })
    remove :
        (e : EvictionEntry) (es : List EvictionEntry) (w : Option Instant)
        → s.task ≡ removing (e ∷ es) w
        → Step s (record s { set = (cm.remove (key_of e) s.set).1; task = removing es w })
    unlock : (w : Option Instant) → s.task ≡ removing [] w → Step s (record s { task = storing w })
    store :
        (w : Option Instant)
        → s.task ≡ storing w
        → Step s (record s { queue = set_wakeup (wakeup_after w s.queue) s.queue; task = waiting })

  -- Before the first request.
  abbrev pub init : Instant → System
  init start = record {
    set = cm.empty;
    queue = new start;
    pc = λ _. idle;
    task = waiting;
    issued = λ _. 0;
    claims = λ _. 0;
  }

  -- Any number of steps from one state.
  pub data Reach (s : System) : System → Type 0 where
    here : Reach s s
    next : {t u : System} → Reach s t → Step t u → Reach s u
