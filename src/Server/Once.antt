-- ===== src/Server/Once.antt =====
-- src/main.rs, `claim_l1`: two calls in a row.
use faucet_api.Common.{true, ℕ, ◌≡◌, refl, Option, some, List, Result, err, arith}
use faucet_api.Chain.{l1, v4, bad_request}
use faucet_api.Pow.Challenge.{Solution, Challenge, already_claimed}
use faucet_api.Pow.ChallengeSet.{ConcurrentMap, IsLawful}
use faucet_api.Pow.Claims.{check_solution}
use faucet_api.Pow.Claims.Gate.{check_solution_once}
use faucet_api.Server.{HttpError, Faucet, to_string, claim_l1}
use faucet_api.Server.Claims.{claim_l1-L1Claim}

module _ (cm : ConcurrentMap) (sha256 : List ℕ → List ℕ)
    (Unchecked Address L2Address : Type 0) where
  abbrev Site : Type 0
  Site = Faucet cm sha256 Unchecked Address L2Address

  -- A refused solution is answered, and nothing is queued.
  claim_l1-err :
      (amount : ℕ) (require_network : Unchecked → Option Address) (ip : ℕ) (solution : Solution)
      (address : Unchecked) (s : Site)
      → (check_solution cm sha256 l1 ip solution s.store).0 ≡ err already_claimed
      → (s' : Site) × (claim_l1 cm sha256 Unchecked Address L2Address amount require_network
            (v4 ip)
            solution
            address
            s
          ≡ some (err (bad_request, to_string already_claimed), s'))
        × (s'.payout_sender ≡ s.payout_sender)
  unfolding claim_l1
  claim_l1-err amount require_network ip solution address s h =
      (record s { store = (check_solution cm sha256 l1 ip solution s.store).1 }, ground arith, refl)

  -- While the batcher runs and a challenge is stored for the address, the first `claim_l1` uses it up,
  -- whatever comes of it: a second one, with any solution for any address, is answered that tokens
  -- were claimed already, and queues nothing.
  pub claim_l1_once :
      (laws : IsLawful cm) (amount : ℕ) (require_network : Unchecked → Option Address) (ip : ℕ)
      (solution solution' : Solution) (address address' : Unchecked) (s : Site) (c : Challenge)
      (sent : List (Address × ℕ))
      → s.payout_sender ≡ some (record { is_open = true; sent = sent })
      → cm.get (ip, l1) s.store.set ≡ some c
      → (r : Result (Unit {0}) HttpError) × (s' : Site) × (s'' : Site) × (claim_l1 cm sha256
            Unchecked Address L2Address amount require_network
            (v4 ip)
            solution
            address
            s
          ≡ some (r, s'))
        × (claim_l1 cm sha256 Unchecked Address L2Address amount require_network
              (v4 ip)
              solution'
              address'
              s'
            ≡ some (err (bad_request, to_string already_claimed), s''))
        × (s''.payout_sender ≡ s'.payout_sender)
  claim_l1_once laws amount require_network ip solution solution' address address' s c sent started
        stored =
      let (r, s', run, kept, _) =
        claim_l1-L1Claim cm sha256 Unchecked Address L2Address amount require_network ip solution
          address s sent started in
      let spent : (check_solution cm sha256 l1 ip solution' s'.store).0 ≡ err already_claimed =
        rw kept (check_solution_once cm laws sha256 l1 ip solution solution' s.store c stored) in
      let (s'', run', same) = claim_l1-err amount require_network ip solution' address' s' spent in
      (r, s', s'', run, run', same)
