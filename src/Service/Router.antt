-- ===== src/Service/Router.antt =====
-- src/main.rs: the routes, and the handler that each one has.
use Prim.Native.String.{String}
use faucet_api.Common.{ℕ, Option, none, some, List, [], ◌∷◌, Result, ok, err}
use faucet_api.Chain
use faucet_api.Chain.{Chain, l1, l2, IpAddr, v4, v6}
use faucet_api.Pow.Challenge.{Instant, Nonce, Solution, Challenge, Key, PowError}
use faucet_api.Pow.ChallengeSet.{ConcurrentMap}
use faucet_api.Pow.Eviction.{Store}
use faucet_api.Pow.Claims.{check_solution}
use faucet_api.Server.{
  HttpError, ProvidedChallenge, Layers, Faucet, get_pow_challenge, claim_l1, claim_l2, get_balance,
  get_sats_per_claim,
}

-- A request, by its route and the parts of its path.
pub data Request (Unchecked L2Address : Type 0) : Type 0 where
  pow_challenge : (chain : String) → Request Unchecked L2Address
  claims_l1 : (solution : Solution) (address : Unchecked) → Request Unchecked L2Address
  claims_l2 : (solution : Solution) (address : L2Address) → Request Unchecked L2Address
  balance : (chain : String) → Request Unchecked L2Address
  sats_to_claim : (chain : String) → Request Unchecked L2Address

-- A request with what it finds when it arrives: the client's address, the clock, random bytes, the balances,
-- and the L2 node's answer to a transaction.
pub record Arrival (Unchecked L2Address : Type 0) : Type 0 where
  pub request : Request Unchecked L2Address
  pub ip : IpAddr
  pub now : Instant
  pub nonce : Nonce
  pub l1_balance : ℕ
  pub l2_balance : Result ℕ (Unit {0})
  pub l2_answer : Result String (Unit {0})

pub data Answer : Type 0 where
  a_challenge : ProvidedChallenge → Answer
  nothing : Answer
  a_text : String → Answer
  a_number : ℕ → Answer
  an_error : HttpError → Answer

abbrev answer_with : {A : Type 0} → (A → Answer) → Result A HttpError → Answer
answer_with f (ok a) = f a
answer_with f (err e) = an_error e

module _ (cm : ConcurrentMap) (sha256 : List ℕ → List ℕ) (Unchecked Address L2Address : Type 0)
    (layers : Layers) (require_network : Unchecked → Option Address) where
  abbrev Site : Type 0
  Site = Faucet cm sha256 Unchecked Address L2Address

  -- The routes of `main`.
  unfoldable pub route :
      Request Unchecked L2Address → Arrival Unchecked L2Address → Site → Option (Answer × Site)
  unfolding get_pow_challenge claim_l1 claim_l2 get_balance get_sats_per_claim
  route (pow_challenge chain) a f =
      elim (get_pow_challenge cm layers a.l1_balance a.l2_balance a.ip chain a.nonce a.now
        f.store) [
          | none ↦ none
          | some (r, store) ↦ some (answer_with a_challenge r, record f { store = store })
        ]
  route (claims_l1 solution address) a f =
      elim (claim_l1 cm sha256 Unchecked Address L2Address layers.l1.amount_per_claim
        require_network a.ip solution address f) [
          | none ↦ none
          | some (r, f') ↦ some (answer_with (λ _. nothing) r, f')
        ]
  route (claims_l2 solution address) a f =
      let (r, f') =
        claim_l2 cm sha256 Unchecked Address L2Address layers.l2.amount_per_claim a.l2_answer a.ip
          solution address f in
      some (answer_with a_text r, f')
  route (balance chain) a f = elim (get_balance chain a.l1_balance a.l2_balance) [
    | none ↦ none
    | some r ↦ some (answer_with a_number r, f)
  ]
  route (sats_to_claim chain) a f = some (answer_with a_number (get_sats_per_claim layers chain), f)

  unfoldable pub serve : Arrival Unchecked L2Address → Site → Option (Answer × Site)
  unfolding route
  serve a f = route a.request a f

abbrev pub key_for : IpAddr → Result Chain HttpError → Option Key
key_for (v4 ip) (ok chain) = some (ip, chain)
key_for (v4 ip) (err _) = none
key_for (v6 _) _ = none

abbrev pub new_with : Key → Option Challenge → Option Challenge → List Key
new_with k (some _) after = []
new_with k none none = []
new_with k none (some _) = k ∷ []

abbrev pub passed_with : Key → Result (Unit {0}) PowError → List Key
passed_with k (ok _) = k ∷ []
passed_with k (err _) = []

module _ (cm : ConcurrentMap) where
  -- The key of a challenge that was not there before.
  abbrev pub new_at : Option Key → Store cm → Store cm → List Key
  new_at none before after = []
  new_at (some k) before after = new_with k (cm.get k before.set) (cm.get k after.set)

  -- The keys of the challenges that a request was the first to be given, from the store before and after.
  unfoldable pub issued_by :
      {Unchecked L2Address : Type 0}
      → Request Unchecked L2Address
      → IpAddr
      → Store cm
      → Store cm
      → List Key
  unfolding Chain.try_from
  issued_by (pow_challenge chain) ip before after =
      new_at (key_for ip (Chain.try_from chain)) before after
  issued_by _ ip before after = []

  module _ (sha256 : List ℕ → List ℕ) where
    abbrev pub passed_at : Chain → IpAddr → Solution → Store cm → List Key
    passed_at chain (v6 _) solution before = []
    passed_at chain (v4 ip) solution before =
        passed_with (ip, chain) (check_solution cm sha256 chain ip solution before).0

    -- The key of a claim whose solution passed.
    unfoldable pub passed_by :
        {Unchecked L2Address : Type 0} → Request Unchecked L2Address → IpAddr → Store cm → List Key
    passed_by (claims_l1 solution _) ip before = passed_at l1 ip solution before
    passed_by (claims_l2 solution _) ip before = passed_at l2 ip solution before
    passed_by _ ip before = []
