-- ===== src/Pow/Threads/Pending.antt =====
-- The challenges of src/pow.rs and what will evict them, under interleaving: the thread that has yet to push
-- the entry of a challenge, its entry in the heap, or its entry among those that the task is removing.
use mathlib.Core.Option
use mathlib.Core.Path.{subst}
use faucet_api.Common.{
  ℕ, suc, ◌+◌, ◌≤◌, ◌≡◌, ◌≢◌, refl, sym, ap, ◌∙◌, ◌⊎◌, inl, inr, Option, none, some, List, [], ◌∷◌,
  ◌++◌, All, All-map, length, ◌==◌, Bool-cases, arith, same, same_refl, same_other, total,
}
use faucet_api.Pow.Challenge.{Instant, Challenge, Key, Key-discrete}
use faucet_api.Pow.BinaryHeap.{Popped, only, first, later}
use faucet_api.Pow.Eviction.{EvictionEntry, key_of, entry_ord, drain}
use faucet_api.Pow.Eviction.Drain.{Drained, finished, stopped, taken, drain-Drained}
use faucet_api.Pow.Threads.{Pc, adding, update, Task, removing, System}
use faucet_api.Pow.ChallengeSet.{ConcurrentMap}

-- 1 for the entries of a key
abbrev pub standing : Key → EvictionEntry → ℕ
standing k e = same Key-discrete k (key_of e)

abbrev pub stands : Key → List EvictionEntry → ℕ
stands k = total (standing k)

-- The entries that the task has taken out of the heap and not yet acted on.
abbrev pub to_expire : Task → List EvictionEntry
to_expire (removing es w) = es
to_expire _ = []

Popped-stands :
    (k : Key) {heap rest : List EvictionEntry} {e : EvictionEntry}
    → Popped heap e rest
    → stands k heap ≡ standing k e + stands k rest
Popped-stands k (only x) = omega arith
Popped-stands k (first p t) = omega (arith, Popped-stands k p)
Popped-stands k (later p f) = omega (arith, Popped-stands k p)

pub Drained-stands :
    (k : Key) {now : Instant} {heap es left : List EvictionEntry} {w : Option Instant}
    → Drained now heap es left w
    → stands k heap ≡ stands k es + stands k left
Drained-stands k finished = omega arith
Drained-stands k (stopped p t) = omega arith
Drained-stands k (taken p t d) = omega (arith, Popped-stands k p, Drained-stands k d)

pub drain-some :
    (now : Instant) (heap es left : List EvictionEntry) (w : Option Instant)
    → drain (suc (length heap)) now heap ≡ some (es, left, w)
    → Drained now heap es left w
drain-some now heap es left w h =
    let (es', left', w', run, d) = drain-Drained (suc (length heap)) now heap (omega arith) in
    let (a, b, c) : (es' ≡ es) × (left' ≡ left) × (w' ≡ w) = ground arith in rw (← a, ← b, ← c) d

pub stands-none : (k : Key) (es : List EvictionEntry) → stands k es ≡ 0 → All (λ e. key_of e ≢ k) es
stands-none k [] h = tt
stands-none k (e ∷ es) h = (
  λ own. omega (arith, same_refl Key-discrete k, ap (same Key-discrete k) own),
  stands-none k es (omega arith),
)

pub none-stands : (k : Key) (es : List EvictionEntry) → All (λ e. key_of e ≢ k) es → stands k es ≡ 0
none-stands k [] h = refl
none-stands k (e ∷ es) (h, hs) =
    omega (arith, same_other Key-discrete k (key_of e) (λ p. h (sym p)), none-stands k es hs)

module _ (cm : ConcurrentMap) where
  -- When the challenge that is stored for a key expires.
  abbrev pub expiry : Key → cm.Map → Option Instant
  expiry k set = Option.map (λ c. c.expires_at) (cm.get k set)

  -- The entries that stand for a later removal.
  abbrev pub entries : System cm → List EvictionEntry
  entries s = s.queue.q ++ to_expire s.task

  -- Every thread that has yet to push, and every entry, is for a challenge that is stored, with its expiry, and
  -- alone; and every stored challenge has one of them.
  pub record IsPending (s : System cm) : Type 0 where
    pub thread :
        (i : ℕ) (k : Key) (c : Challenge)
        → s.pc i ≡ adding k c
        → (expiry k s.set ≡ some c.expires_at) × (stands k (entries s) ≡ 0)
    pub alone :
        (i j : ℕ) (k : Key) (c c' : Challenge) → s.pc i ≡ adding k c → s.pc j ≡ adding k c' → i ≡ j
    pub entry : All (λ e. expiry (key_of e) s.set ≡ some e.expires_at) (entries s)
    pub once : (k : Key) → stands k (entries s) ≤ 1
    pub covered :
        (k : Key) (t : Instant)
        → expiry k s.set ≡ some t
        → ((i : ℕ) × (c : Challenge) × (s.pc i ≡ adding k c)) ⊎ (1 ≤ stands k (entries s))

  -- Without a challenge nothing stands for the key.
  pub missing-stands :
      (s : System cm) → IsPending s → (k : Key) → expiry k s.set ≡ none → stands k (entries s) ≡ 0
  missing-stands s p k h = none-stands k (entries s) (
      All-map
        (λ e found own.
          let gone : expiry (key_of e) s.set ≡ none = ap (λ j. expiry j s.set) own ∙ h in
          ground arith)
        (entries s) p.entry)

  -- A step that changes no expiry, only the order of entries, and no thread that has yet to push.
  pub shuffled-IsPending :
      (s t : System cm)
      → ((k : Key) → expiry k t.set ≡ expiry k s.set)
      → ((k : Key) → stands k (entries t) ≡ stands k (entries s))
      → All (λ e. expiry (key_of e) t.set ≡ some e.expires_at) (entries t)
      → ((i : ℕ) (k : Key) (c : Challenge) → t.pc i ≡ adding k c → s.pc i ≡ adding k c)
      → ((i : ℕ) (k : Key) (c : Challenge) → s.pc i ≡ adding k c → t.pc i ≡ adding k c)
      → IsPending s
      → IsPending t
  shuffled-IsPending s t sets counts entry back forth p = record {
    thread = λ i k c h.
        let (stored, none_stands) = p.thread i k c (back i k c h) in
        (sets k ∙ stored, counts k ∙ none_stands);
    alone = λ i j k c c' h h'. p.alone i j k c c' (back i k c h) (back j k c' h');
    entry = entry;
    once = λ k. omega (arith, p.once k, counts k);
    covered = λ k t' h. elim (p.covered k t' (sym (sets k) ∙ h)) [
      | inl (i, c, at) ↦ inl (i, c, forth i k c at)
      | inr here ↦ inr (omega (arith, here, counts k))
    ];
  }

  pub still-IsPending :
      (s t : System cm)
      → ((k : Key) → expiry k t.set ≡ expiry k s.set)
      → entries t ≡ entries s
      → ((i : ℕ) (k : Key) (c : Challenge) → t.pc i ≡ adding k c → s.pc i ≡ adding k c)
      → ((i : ℕ) (k : Key) (c : Challenge) → s.pc i ≡ adding k c → t.pc i ≡ adding k c)
      → IsPending s
      → IsPending t
  still-IsPending s t sets same_entries back forth p =
      shuffled-IsPending s t sets (λ k. ap (stands k) same_entries)
        (rw same_entries (All-map (λ e found. sets (key_of e) ∙ found) (entries s) p.entry)) back
        forth p

abbrev pub IsQuiet : Pc → Type 0
IsQuiet (adding _ _) = ⊥
IsQuiet _ = Unit

pub update-back :
    (i : ℕ) (p : Pc) (pc : ℕ → Pc)
    → IsQuiet p
    → (j : ℕ) (k : Key) (c : Challenge) → update i p pc j ≡ adding k c
    → pc j ≡ adding k c
unfolding update
update-back i p pc quiet j k c h = elim (Bool-cases (j == i)) [
  | inr f ↦ ground arith
  | inl t ↦ let moved : p ≡ adding k c = ground arith in absurd (subst IsQuiet moved quiet)
]

pub update-forth :
    (i : ℕ) (p : Pc) (pc : ℕ → Pc)
    → IsQuiet (pc i)
    → (j : ℕ) (k : Key) (c : Challenge) → pc j ≡ adding k c
    → update i p pc j ≡ adding k c
unfolding update
update-forth i p pc quiet j k c h = elim (Bool-cases (j == i)) [
  | inr f ↦ ground arith
  | inl t ↦
      let same_thread : j ≡ i = ground arith in
      absurd (subst IsQuiet (ap pc (sym same_thread) ∙ h) quiet)
]

pub update_same : (i : ℕ) (p : Pc) (pc : ℕ → Pc) → update i p pc i ≡ p
unfolding update
update_same i p pc = ground arith

pub update_away : (i j : ℕ) (p : Pc) (pc : ℕ → Pc) → j ≢ i → update i p pc j ≡ pc j
unfolding update
update_away i j p pc n = ground arith

pub update-cases :
    (i : ℕ) (p q : Pc) (pc : ℕ → Pc) (j : ℕ)
    → update i p pc j ≡ q
    → ((j ≡ i) × (p ≡ q)) ⊎ ((j ≢ i) × (pc j ≡ q))
unfolding update
update-cases i p q pc j h = elim (Bool-cases (j == i)) [
  | inl t ↦ inl (ground arith, ground arith)
  | inr f ↦ inr (ground arith, ground arith)
]
