-- ===== src/Pow/Threads/Adding.antt =====
-- A request of src/pow.rs that is issued a challenge, and its push of the entry.
use mathlib.Core.Option
use mathlib.Core.Path.{subst}
use faucet_api.Common.{
  ℕ, ◌≡◌, ◌≢◌, sym, ap, ◌∙◌, inl, inr, none, some, All-map2, arith, same, same_refl, same_other,
}
use faucet_api.Pow.Challenge.{Challenge, Key, Key-discrete}
use faucet_api.Pow.ChallengeSet.{ConcurrentMap, IsLawful}
use faucet_api.Pow.Eviction.{key_of, push_entry}
use faucet_api.Pow.BinaryHeap
use faucet_api.Pow.Threads.{Pc, idle, adding, notifying, IsUnlocked, update, System}
use faucet_api.Pow.Threads.Pending.{
  stands, stands-none, expiry, entries, IsPending, missing-stands, update_same, update_away,
  update-cases, IsQuiet, update-back, update-forth,
}

adding_key : {k k' : Key} {c c' : Challenge} → adding k c ≡ adding k' c' → k' ≡ k
adding_key h = cc

pub IsQuiet-at : (pc : ℕ → Pc) (i : ℕ) (p : Pc) → pc i ≡ p → IsQuiet p → IsQuiet (pc i)
IsQuiet-at pc i p at q = subst IsQuiet (sym at) q

module _ (cm : ConcurrentMap) (laws : IsLawful cm) where
  open laws use {
    get-empty, get-cas_same, get-cas_failure, get-cas_other, get-remove_same, get-remove_other,
  }

  pub issue-IsPending :
      (s : System cm) (i : ℕ) (k : Key) (c : Challenge)
      → s.pc i ≡ idle
      → cm.get k s.set ≡ none
      → IsPending cm s
      → IsPending cm
          (record s { set = (cm.cas k none (some c) s.set).1; pc = update i (adding k c) s.pc })
  issue-IsPending s i k c at absent p =
      let set : cm.Map = (cm.cas k none (some c) s.set).1 in
      let missing : expiry cm k s.set ≡ none = ap (Option.map (λ c. c.expires_at)) absent in
      let mine : expiry cm k set ≡ some c.expires_at =
        ap (Option.map (λ c. c.expires_at)) (get-cas_same k none (some c) s.set absent) in
      let others : (j : Key) → j ≢ k → expiry cm j set ≡ expiry cm j s.set =
        λ j n. ap (Option.map (λ c. c.expires_at)) (get-cas_other k j none (some c) s.set n) in
      let nothing : stands k (entries cm s) ≡ 0 = missing-stands cm s p k missing in
      let no_thread : (j : ℕ) (c' : Challenge) → s.pc j ≡ adding k c' → ⊥ =
        λ j c' h. let stored = (p.thread j k c' h).0 in ground arith in
      let away : (j : ℕ) (k' : Key) (c' : Challenge) → s.pc j ≡ adding k' c' → k' ≢ k =
        λ j k' c' h same_key. no_thread j c' (h ∙ ap (λ x. adding x c') same_key) in
      record {
        thread = λ j k' c' h. elim (update-cases i (adding k c) (adding k' c') s.pc j h) [
          | inl (e, f) ↦
              let same_key : k ≡ k' = cc in
              let same_challenge : c ≡ c' = cc in rw (← same_key, ← same_challenge) (mine, nothing)
          | inr (n, old) ↦
              let (stored, none_stands) = p.thread j k' c' old in
              (others k' (away j k' c' old) ∙ stored, none_stands)
        ];
        alone = λ j j' k' c' c'' h h'. elim (update-cases i (adding k c) (adding k' c') s.pc j h) [
          | inl (e, f) ↦ elim (update-cases i (adding k c) (adding k' c'') s.pc j' h') [
            | inl (e', f') ↦ e ∙ sym e'
            | inr (n', old') ↦ absurd (away j' k' c'' old' (adding_key f))
          ]
          | inr (n, old) ↦ elim (update-cases i (adding k c) (adding k' c'') s.pc j' h') [
            | inl (e', f') ↦ absurd (away j k' c' old (adding_key f'))
            | inr (n', old') ↦ p.alone j j' k' c' c'' old old'
          ]
        ];
        entry =
            All-map2 (λ e stored n. others (key_of e) n ∙ stored) (entries cm s) p.entry
              (stands-none k (entries cm s) nothing);
        once = p.once;
        covered = λ k' t h. elim (Key-discrete k' k) [
          | yes own ↦ inl (i, c, update_same i (adding k c) s.pc ∙ ap (λ x. adding x c) (sym own))
          | no n ↦ elim (p.covered k' t (sym (others k' n) ∙ h)) [
            | inl (j, c', old) ↦
                inl (
                  j,
                  c',
                  update-forth i (adding k c) s.pc (IsQuiet-at s.pc i idle at tt) j k' c' old,
                )
            | inr stays ↦ inr stays
          ]
        ];
      }

  pub push-IsPending :
      (s : System cm) (i : ℕ) (k : Key) (c : Challenge)
      → s.pc i ≡ adding k c
      → IsUnlocked s.task
      → IsPending cm s
      → IsPending cm
          (record s { queue = push_entry c k.0 k.1 s.queue; pc = update i (notifying c) s.pc })
  unfolding push_entry BinaryHeap.push
  push-IsPending s i k c at lock p =
      let (stored, nothing) = p.thread i k c at in
      let back = update-back i (notifying c) s.pc tt in
      let moved : (j : ℕ) (k' : Key) (c' : Challenge)
          → update i (notifying c) s.pc j ≡ adding k' c'
          → j ≢ i =
        λ j k' c' h e.
          subst IsQuiet
            (sym (update_same i (notifying c) s.pc) ∙ ap (update i (notifying c) s.pc) (sym e) ∙ h)
            tt in
      record {
        thread = λ j k' c' h.
            let old = back j k' c' h in
            let (stored', nothing') = p.thread j k' c' old in
            let away : k' ≢ k = λ same_key.
              moved j k' c' h (p.alone j i k c' c (old ∙ ap (λ x. adding x c') same_key) at) in
            (stored', omega (arith, nothing', same_other Key-discrete k' k away));
        alone = λ j j' k' c' c'' h h'. p.alone j j' k' c' c'' (back j k' c' h) (back j' k' c'' h');
        entry = (stored, p.entry);
        once = λ k'. elim (Key-discrete k' k) [
          | yes own ↦ omega (
            arith,
            ap (λ x. same Key-discrete x k) own,
            ap (λ x. stands x (entries cm s)) own,
            same_refl Key-discrete k,
            nothing,
          )
          | no n ↦ omega (arith, same_other Key-discrete k' k n, p.once k')
        ];
        covered = λ k' t h. elim (Key-discrete k' k) [
          | yes own ↦ inr (rw own (omega (arith, same_refl Key-discrete k)))
          | no n ↦ elim (p.covered k' t h) [
            | inl (j, c', old) ↦ inl (
              j,
              c',
              update_away i j (notifying c) s.pc
                    (λ e. n (adding_key (sym at ∙ ap s.pc (sym e) ∙ old)))
                  ∙ old,
            )
            | inr stays ↦ inr (omega (arith, stays))
          ]
        ];
      }
