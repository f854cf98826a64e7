-- ===== src/Pow/ChallengeSet.antt =====
-- `ChallengeSet` of src/pow.rs is a `ConcurrentMap` of the crate `concurrent_map`: a parameter of the
-- model, with the laws that the code relies on. A call is one atomic step on a shared map.
pub mod Assoc
use faucet_api.Common.{◌≡◌, ◌≢◌, Option, none, Result, ok, err}
use faucet_api.Pow.Challenge.{Key, Challenge}

-- The error of `cas`.
pub record CasFailure : Type 0 where
  pub actual : Option Challenge
  pub returned_new_value : Option Challenge

pub record ConcurrentMap : Type 1 where
  pub Map : Type 0
  pub empty : Map
  pub get : Key → Map → Option Challenge
  -- key, expected value, new value
  pub cas :
      Key → Option Challenge → Option Challenge → Map → Result (Option Challenge) CasFailure × Map
  pub remove : Key → Map → Option Challenge × Map

-- The documented behaviour.
pub record IsLawful (cm : ConcurrentMap) : Type 0 where
  pub get-empty : (k : Key) → cm.get k cm.empty ≡ none
  pub cas_success :
      (k : Key) (old new : Option Challenge) (m : cm.Map)
      → cm.get k m ≡ old
      → (cm.cas k old new m).0 ≡ ok old
  pub cas_failure :
      (k : Key) (old new : Option Challenge) (m : cm.Map)
      → cm.get k m ≢ old
      → (cm.cas k old new m).0 ≡ err (record { actual = cm.get k m; returned_new_value = new })
  pub get-cas_same :
      (k : Key) (old new : Option Challenge) (m : cm.Map)
      → cm.get k m ≡ old
      → cm.get k (cm.cas k old new m).1 ≡ new
  pub get-cas_failure :
      (k j : Key) (old new : Option Challenge) (m : cm.Map)
      → cm.get k m ≢ old
      → cm.get j (cm.cas k old new m).1 ≡ cm.get j m
  pub get-cas_other :
      (k j : Key) (old new : Option Challenge) (m : cm.Map)
      → j ≢ k
      → cm.get j (cm.cas k old new m).1 ≡ cm.get j m
  pub get-remove_same : (k : Key) (m : cm.Map) → cm.get k (cm.remove k m).1 ≡ none
  pub get-remove_other : (k j : Key) (m : cm.Map) → j ≢ k → cm.get j (cm.remove k m).1 ≡ cm.get j m
