-- ===== src/Service/Served.antt =====
-- src/main.rs: what a request that is served may change, on the gate and on what is owed.
use Prim.Native.String.{String}
use faucet_api.Common.{ℕ, ◌≡◌, refl, inl, inr, Option, some, List, Result, arith, Option-cases}
use faucet_api.Pow.Challenge.{Key}
use faucet_api.Pow.ChallengeSet.{ConcurrentMap, IsLawful}
use faucet_api.Server.{
  HttpError, Layers, Faucet, get_balance, get_pow_challenge, claim_l1, claim_l2,
}
use faucet_api.Service.Router.{
  Request, pow_challenge, claims_l1, claims_l2, balance, sats_to_claim, Arrival, Answer, route,
  serve, issued_by, passed_by,
}
use faucet_api.Service.Gate.{get_pow_challenge-open}
use faucet_api.Service.Effect.{Effect, nothing-Effect, claim_l1-Effect, claim_l2-Effect}

module _ (cm : ConcurrentMap) (laws : IsLawful cm) (sha256 : List ℕ → List ℕ)
    (Unchecked Address L2Address : Type 0) (layers : Layers)
    (require_network : Unchecked → Option Address) where
  abbrev Site : Type 0
  Site = Faucet cm sha256 Unchecked Address L2Address

  abbrev Changes : List Key → List Key → Site → Site → Type 0
  Changes = Effect cm laws sha256 Unchecked Address L2Address layers require_network

  route-Effect :
      (request : Request Unchecked L2Address) (a : Arrival Unchecked L2Address) (f f' : Site)
      (answer : Answer)
      → route cm sha256 Unchecked Address L2Address layers require_network request a f
        ≡ some (answer, f')
      → Changes
          (passed_by cm sha256 request a.ip f.store)
          (issued_by cm request a.ip f.store f'.store)
          f
          f'
  unfolding route passed_by issued_by
  route-Effect (pow_challenge text) a f f' answer h =
      elim (Option-cases
        (get_pow_challenge cm layers a.l1_balance a.l2_balance a.ip text a.nonce a.now f.store)) [
          | inl p ↦ ground arith
          | inr ((r, store), p) ↦
              let same : record f { store = store } ≡ f' = ground arith in
              let gate =
                get_pow_challenge-open cm laws sha256 Unchecked Address L2Address layers
                  require_network a.l1_balance a.l2_balance a.ip text a.nonce a.now f.store store r
                  p in
              rw (← same) (record {
                gate = λ j. omega (arith, gate j);
                owed = omega arith;
                asked = omega arith;
              })
        ]
  route-Effect (claims_l1 solution address) a f f' answer h =
      elim (Option-cases (
        claim_l1 cm sha256 Unchecked Address L2Address layers.l1.amount_per_claim require_network
          a.ip solution address f)) [
            | inl p ↦ ground arith
            | inr ((r, f₁), p) ↦
                let same : f₁ ≡ f' = ground arith in
                claim_l1-Effect cm laws sha256 Unchecked Address L2Address layers require_network
                  a.ip solution address f f' r (rw same at p)
          ]
  route-Effect (claims_l2 solution address) a f f' answer h =
      let ran : Result String HttpError × Site =
        claim_l2 cm sha256 Unchecked Address L2Address layers.l2.amount_per_claim a.l2_answer a.ip
          solution address f in
      let same : ran.1 ≡ f' = ground arith in
      rw (← same) (
        claim_l2-Effect cm laws sha256 Unchecked Address L2Address layers require_network
          a.l2_answer a.ip solution address f ran.1 ran.0 refl)
  route-Effect (balance chain) a f f' answer h =
      elim (Option-cases (get_balance chain a.l1_balance a.l2_balance)) [
        | inl p ↦ ground arith
        | inr (r, p) ↦
            let same : f ≡ f' = ground arith in
            rw (← same)
              (nothing-Effect cm laws sha256 Unchecked Address L2Address layers require_network f)
      ]
  route-Effect (sats_to_claim chain) a f f' answer h =
      let same : f ≡ f' = ground arith in
      rw (← same)
        (nothing-Effect cm laws sha256 Unchecked Address L2Address layers require_network f)

  -- A request that is answered uses up the challenges of the claims that it lets pass, adds at most one
  -- payout for a claim on L1 and one transaction for a claim on L2, and opens the gate only with challenges
  -- that are new.
  pub serve-Effect :
      (a : Arrival Unchecked L2Address) (f f' : Site) (answer : Answer)
      → serve cm sha256 Unchecked Address L2Address layers require_network a f ≡ some (answer, f')
      → Changes
          (passed_by cm sha256 a.request a.ip f.store)
          (issued_by cm a.request a.ip f.store f'.store)
          f
          f'
  unfolding serve
  serve-Effect a f f' answer h = route-Effect a.request a f f' answer h
