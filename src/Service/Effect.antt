-- ===== src/Service/Effect.antt =====
-- src/main.rs: what a claim may change, on the gate and on what is owed.
use Prim.Native.String.{String}
use faucet_api.Common.{
  ℕ, ◌+◌, ◌*◌, ◌≤◌, ◌≡◌, refl, inl, inr, Option, none, some, List, [], ◌∷◌, ◌++◌, Result, arith,
  Result-cases, Bool-cases, total, total-append,
}
use faucet_api.Chain.{Chain, l1, l2, IpAddr, v4, v6}
use faucet_api.Pow.Challenge.{Solution, Key}
use faucet_api.Pow.ChallengeSet.{ConcurrentMap, IsLawful}
use faucet_api.Pow.Eviction.{Store}
use faucet_api.Pow.Claims.{check_solution}
use faucet_api.Batcher.{Channel, queue_payout_request}
use faucet_api.Server.{HttpError, Layers, Faucet, pay_l1, claim_l1, claim_l2, value_of}
use faucet_api.Service.Router.{passed_at}
use faucet_api.Service.Gate.{times, open_at, passed_at-open}

-- 1 for the keys of a chain
abbrev pub on : Chain → Key → ℕ
on l1 (ip, l1) = 1
on l1 (ip, l2) = 0
on l2 (ip, l1) = 0
on l2 (ip, l2) = 1

-- What waits in the channel to the batcher, in sats.
abbrev pub amount_of : {Address : Type 0} → Address × ℕ → ℕ
amount_of r = r.1

abbrev pub waiting : {Address : Type 0} → Option (Channel (Address × ℕ)) → ℕ
waiting none = 0
waiting (some channel) = total amount_of channel.sent

module _ (cm : ConcurrentMap) (laws : IsLawful cm) (sha256 : List ℕ → List ℕ)
    (Unchecked Address L2Address : Type 0) (layers : Layers)
    (require_network : Unchecked → Option Address) where
  abbrev Site : Type 0
  Site = Faucet cm sha256 Unchecked Address L2Address

  abbrev a_value : ℕ
  a_value = value_of cm sha256 Unchecked Address L2Address layers.l2.amount_per_claim

  -- With the keys whose claims passed and whose challenges are new.
  pub record Effect (passed issued : List Key) (f f' : Site) : Type 0 where
    pub gate :
        (j : Key)
        → times j passed + open_at cm laws sha256 j f'.store
          ≤ open_at cm laws sha256 j f.store + times j issued
    pub owed :
        waiting f'.payout_sender
        ≤ waiting f.payout_sender + layers.l1.amount_per_claim * total (on l1) passed
    pub asked :
        total amount_of f'.l2_sent ≤ total amount_of f.l2_sent + a_value * total (on l2) passed

  pub nothing-Effect : (f : Site) → Effect [] [] f f
  nothing-Effect f = record { gate = λ j. omega arith; owed = omega arith; asked = omega arith }

  queued-waiting :
      (req : Address × ℕ) (sender : Option (Channel (Address × ℕ)))
      → waiting (queue_payout_request req sender).1 ≤ waiting sender + amount_of req
  unfolding queue_payout_request
  queued-waiting req none = omega arith
  queued-waiting req (some tx) = elim (Bool-cases tx.is_open) [
    | inl p ↦ simp p (omega (arith, total-append amount_of tx.sent (req ∷ [])))
    | inr p ↦ simp p (omega arith)
  ]

  -- `pay_l1` changes the channel alone, by at most one payout of the amount.
  pay_l1-waiting :
      (address : Option Address) (f f' : Site) (r : Result (Unit {0}) HttpError)
      → pay_l1 cm sha256 Unchecked Address L2Address layers.l1.amount_per_claim address f
        ≡ some (r, f')
      → (f'.store ≡ f.store)
        × (f'.l2_sent ≡ f.l2_sent)
        × (waiting f'.payout_sender ≤ waiting f.payout_sender + layers.l1.amount_per_claim)
  unfolding pay_l1
  pay_l1-waiting none f f' r h = let e : f ≡ f' = ground arith in rw (← e) (refl, refl, omega arith)
  pay_l1-waiting (some address) f f' r h =
      let queued : Result (Unit {0}) _ × _ =
        queue_payout_request (address, layers.l1.amount_per_claim) f.payout_sender in
      elim (Result-cases queued.0) [
        | inr (e, p) ↦ ground arith
        | inl (_, p) ↦
            let e : record f { payout_sender = queued.1 } ≡ f' = ground arith in
            let more : waiting queued.1 ≤ waiting f.payout_sender + layers.l1.amount_per_claim =
              queued-waiting (address, layers.l1.amount_per_claim) f.payout_sender in
            rw (← e) (refl, refl, omega (arith, more))
      ]

  -- A claim by an IPv6 address, or one whose solution does not pass, changes neither.
  pub claim_l1-Effect :
      (ip : IpAddr) (solution : Solution) (address : Unchecked) (f f' : Site)
      (r : Result (Unit {0}) HttpError)
      → claim_l1 cm sha256 Unchecked Address L2Address layers.l1.amount_per_claim require_network ip
          solution address f
        ≡ some (r, f')
      → Effect (passed_at cm sha256 l1 ip solution f.store) [] f f'
  unfolding claim_l1
  claim_l1-Effect (v6 a) solution address f f' r h =
      let e : f ≡ f' = ground arith in rw (← e) (nothing-Effect f)
  claim_l1-Effect (v4 a) solution address f f' r h =
      let checked : Result (Unit {0}) _ × Store cm =
        check_solution cm sha256 l1 a solution f.store in
      let gate = passed_at-open cm laws sha256 l1 (v4 a) solution f.store in
      elim (Result-cases checked.0) [
        | inr (e, p) ↦
            let same : record f { store = checked.1 } ≡ f' = ground arith in
            rw (← same) (record {
              gate = λ j. omega (arith, gate j);
              owed = omega arith;
              asked = omega arith;
            })
        | inl (_, p) ↦
            let (store, l2_sent, more) =
              pay_l1-waiting (require_network address) (record f { store = checked.1 }) f' r
                (ground arith) in
            record {
              gate = λ j. rw store (omega (arith, gate j));
              owed = rw p (omega (arith, more));
              asked = rw l2_sent (omega arith);
            }
      ]

  pub claim_l2-Effect :
      (answer : Result String (Unit {0})) (ip : IpAddr) (solution : Solution) (address : L2Address)
      (f f' : Site) (r : Result String HttpError)
      → claim_l2 cm sha256 Unchecked Address L2Address layers.l2.amount_per_claim answer ip solution
          address f
        ≡ (r, f')
      → Effect (passed_at cm sha256 l2 ip solution f.store) [] f f'
  unfolding claim_l2
  claim_l2-Effect answer (v6 a) solution address f f' r h =
      let e : f ≡ f' = ground arith in rw (← e) (nothing-Effect f)
  claim_l2-Effect answer (v4 a) solution address f f' r h =
      let checked : Result (Unit {0}) _ × Store cm =
        check_solution cm sha256 l2 a solution f.store in
      let gate = passed_at-open cm laws sha256 l2 (v4 a) solution f.store in
      elim (Result-cases checked.0) [
        | inr (e, p) ↦
            let same : record f { store = checked.1 } ≡ f' = ground arith in
            rw (← same) (record {
              gate = λ j. omega (arith, gate j);
              owed = omega arith;
              asked = omega arith;
            })
        | inl (_, p) ↦
            let same : record f {
              store = checked.1;
              l2_sent = f.l2_sent ++ ((address, a_value) ∷ []);
            }
                ≡ f' =
              ground arith in
            rw (← same, p)
              (record {
                gate = λ j. let g = rw p at gate j in omega (arith, g);
                owed = omega arith;
                asked = omega (arith, total-append amount_of f.l2_sent ((address, a_value) ∷ []));
              })
      ]
