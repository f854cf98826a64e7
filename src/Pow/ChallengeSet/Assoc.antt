-- ===== src/Pow/ChallengeSet/Assoc.antt =====
-- A `ConcurrentMap` for src/pow.rs that is a function of the key.
use mathlib.Core.Logic.{ite, if_pos, if_neg}
use faucet_api.Common.{◌≡◌, ◌≢◌, refl, ap, Option, none, Result, ok, err}
use faucet_api.Pow.Challenge.{Key, Challenge, Key-discrete, Challenge-discrete}
use faucet_api.Pow.ChallengeSet.{CasFailure, ConcurrentMap, IsLawful}

abbrev pub KeyMap : Type 0
KeyMap = Key → Option Challenge

unfoldable pub Entry-discrete : Discrete (Option Challenge)
unfolding Challenge-discrete
Entry-discrete = hlevel Challenge-discrete

unfoldable pub put : Key → Option Challenge → KeyMap → KeyMap
unfolding Key-discrete
put k v m j = ite (Key-discrete j k) v (m j)

unfoldable pub compare_and_swap :
    Key
    → Option Challenge
    → Option Challenge
    → KeyMap
    → Result (Option Challenge) CasFailure × KeyMap
unfolding put Entry-discrete
compare_and_swap k old new m =
    ite (Entry-discrete (m k) old) (ok old, put k new m)
      (err (record { actual = m k; returned_new_value = new }), m)

abbrev pub function_map : ConcurrentMap
function_map = record {
  Map = KeyMap;
  empty = λ k. none;
  get = λ k m. m k;
  cas = compare_and_swap;
  remove = λ k m. (m k, put k none m);
}

put_same : (k : Key) (v : Option Challenge) (m : KeyMap) → put k v m k ≡ v
unfolding put
put_same k v m = if_pos (Key-discrete k k) refl v (m k)

put_other : (k j : Key) (v : Option Challenge) (m : KeyMap) → j ≢ k → put k v m j ≡ m j
unfolding put
put_other k j v m h = if_neg (Key-discrete j k) h v (m j)

cas_swaps :
    (k : Key) (old new : Option Challenge) (m : KeyMap)
    → m k ≡ old
    → compare_and_swap k old new m ≡ (ok old, put k new m)
unfolding compare_and_swap
cas_swaps k old new m h = if_pos (Entry-discrete (m k) old) h _ _

cas_refuses :
    (k : Key) (old new : Option Challenge) (m : KeyMap)
    → m k ≢ old
    → compare_and_swap k old new m ≡ (err (record { actual = m k; returned_new_value = new }), m)
unfolding compare_and_swap
cas_refuses k old new m h = if_neg (Entry-discrete (m k) old) h _ _

cas_other :
    (k j : Key) (old new : Option Challenge) (m : KeyMap)
    → j ≢ k
    → (compare_and_swap k old new m).1 j ≡ m j
cas_other k j old new m h = elim (Entry-discrete (m k) old) [
  | yes e ↦ rw (cas_swaps k old new m e) (put_other k j new m h)
  | no n ↦ rw (cas_refuses k old new m n) refl
]

pub function_map-IsLawful : IsLawful function_map
function_map-IsLawful = record {
  get-empty = λ k. refl;
  cas_success = λ k old new m h. ap (λ r. r.0) (cas_swaps k old new m h);
  cas_failure = λ k old new m h. ap (λ r. r.0) (cas_refuses k old new m h);
  get-cas_same = λ k old new m h. rw (cas_swaps k old new m h) (put_same k new m);
  get-cas_failure = λ k j old new m h. ap (λ r. r.1 j) (cas_refuses k old new m h);
  get-cas_other = cas_other;
  get-remove_same = λ k m. put_same k none m;
  get-remove_other = λ k j m h. put_other k j none m h;
}
