-- ===== src/Server/Claims.antt =====
-- src/main.rs, `claim_l1` and `claim_l2`: what is paid, and for what.
use Prim.Native.String.{String}
use faucet_api.Common.{
  ℕ, ◌*◌, ◌≤◌, ◌≡◌, refl, inl, inr, ◌⊎◌, true, Option, none, some, List, [], ◌∷◌, ◌++◌, Result, ok,
  err, arith, Option-cases, Result-cases,
}
use faucet_api.Chain.{l1, l2, v4, bad_request}
use faucet_api.Pow.Challenge.{Solution, PowError}
use faucet_api.Pow.ChallengeSet.{ConcurrentMap}
use faucet_api.Pow.Claims.{check_solution}
use faucet_api.Settings.{max_sats_per_claim}
use faucet_api.Server.{
  HttpError, Faucet, to_string, pay_l1, claim_l1, claim_l2, value_of, sats_to_wei,
}

module _ (cm : ConcurrentMap) (sha256 : List ℕ → List ℕ)
    (Unchecked Address L2Address : Type 0) where
  abbrev TheFaucet : Type 0
  TheFaucet = Faucet cm sha256 Unchecked Address L2Address

  -- What a run of `claim_l1` from an IPv4 address may come to: the payout was queued because the
  -- solution passed and the address fits the network, or an error and nothing queued.
  pub data L1Claim (amount : ℕ) (require_network : Unchecked → Option Address) (ip : ℕ)
      (solution : Solution) (address : Unchecked) (s : TheFaucet) (sent : List (Address × ℕ))
      : Result (Unit {0}) HttpError → TheFaucet → Type 0 where
    paid :
        {a : Address} {s' : TheFaucet}
        → (check_solution cm sha256 l1 ip solution s.store).0 ≡ ok tt
        → require_network address ≡ some a
        → s'.payout_sender ≡ some (record { is_open = true; sent = sent ++ ((a, amount) ∷ []) })
        → L1Claim amount require_network ip solution address s sent (ok tt) s'
    refused :
        {e : PowError} {s' : TheFaucet}
        → (check_solution cm sha256 l1 ip solution s.store).0 ≡ err e
        → s'.payout_sender ≡ s.payout_sender
        → L1Claim amount require_network ip solution address s sent
            (err (bad_request, to_string e))
            s'
    wrong_network :
        {s' : TheFaucet}
        → (check_solution cm sha256 l1 ip solution s.store).0 ≡ ok tt
        → require_network address ≡ none
        → s'.payout_sender ≡ s.payout_sender
        → L1Claim amount require_network ip solution address s sent
            (err (bad_request, "wrong address network type"))
            s'

  pay_l1-L1Claim :
      (amount : ℕ) (require_network : Unchecked → Option Address) (ip : ℕ) (solution : Solution)
      (address : Unchecked) (s s₁ : TheFaucet) (sent : List (Address × ℕ))
      → s.payout_sender ≡ some (record { is_open = true; sent = sent })
      → s₁.payout_sender ≡ s.payout_sender
      → (check_solution cm sha256 l1 ip solution s.store).0 ≡ ok tt
      → (r : Result (Unit {0}) HttpError) × (s' : TheFaucet) × (pay_l1 cm sha256 Unchecked Address
            L2Address amount
            (require_network address)
            s₁
          ≡ some (r, s'))
        × (s'.store ≡ s₁.store)
        × L1Claim amount require_network ip solution address s sent r s'
  unfolding pay_l1
  pay_l1-L1Claim amount require_network ip solution address s s₁ sent started same passed =
      elim (Option-cases (require_network address)) [
        | inl n ↦ (
          err (bad_request, "wrong address network type"),
          s₁,
          ground arith,
          refl,
          wrong_network passed n same,
        )
        | inr (a, p) ↦ (
          ok tt,
          record s₁ {
            payout_sender = some (record { is_open = true; sent = sent ++ ((a, amount) ∷ []) });
          },
          ground arith,
          refl,
          paid passed p refl,
        )
      ]

  -- While the batcher runs, `claim_l1` from an IPv4 address never panics. It queues one payout of
  -- the configured amount, to the given address, exactly when the solution passes and the address
  -- is of the network; in all other cases it answers an error and queues nothing. The store is
  -- always the one that `check_solution` leaves.
  pub claim_l1-L1Claim :
      (amount : ℕ) (require_network : Unchecked → Option Address) (ip : ℕ) (solution : Solution)
      (address : Unchecked) (s : TheFaucet) (sent : List (Address × ℕ))
      → s.payout_sender ≡ some (record { is_open = true; sent = sent })
      → (r : Result (Unit {0}) HttpError) × (s' : TheFaucet) × (claim_l1 cm sha256 Unchecked Address
            L2Address amount require_network
            (v4 ip)
            solution
            address
            s
          ≡ some (r, s'))
        × (s'.store ≡ (check_solution cm sha256 l1 ip solution s.store).1)
        × L1Claim amount require_network ip solution address s sent r s'
  unfolding claim_l1
  claim_l1-L1Claim amount require_network ip solution address s sent started =
      let (checked, store) = check_solution cm sha256 l1 ip solution s.store in
      let s₁ : TheFaucet = record s { store = store } in
      elim (Result-cases checked) [
        | inr (e, p) ↦ (err (bad_request, to_string e), s₁, ground arith, refl, refused p refl)
        | inl (u, p) ↦
            let (r, s', run, kept, claim) =
              pay_l1-L1Claim amount require_network ip solution address s s₁ sent started refl p in
            (r, s', ground arith, kept, claim)
      ]

  pub value_of-small :
      (amount : ℕ)
      → amount ≤ max_sats_per_claim
      → value_of cm sha256 Unchecked Address L2Address amount ≡ amount * sats_to_wei
  unfolding value_of
  value_of-small amount small = omega arith

  -- For an amount that the settings let through and an IPv4 address, `claim_l2` asks the node once
  -- for the amount in wei, with no wrap-around, if the solution passes, and otherwise for nothing
  -- and answers the error.
  pub claim_l2_pays :
      (amount : ℕ) (answer : Result String (Unit {0})) (ip : ℕ) (solution : Solution)
      (address : L2Address) (s : TheFaucet)
      → amount ≤ max_sats_per_claim
      → let (r, s') =
          claim_l2 cm sha256 Unchecked Address L2Address amount answer (v4 ip) solution address s in
        (((check_solution cm sha256 l2 ip solution s.store).0 ≡ ok tt)
          × (s'.l2_sent ≡ s.l2_sent ++ ((address, amount * sats_to_wei) ∷ [])))
        ⊎ ((e : PowError) × ((check_solution cm sha256 l2 ip solution s.store).0 ≡ err e)
            × (r ≡ err (bad_request, to_string e))
            × (s'.l2_sent ≡ s.l2_sent))
  unfolding claim_l2
  claim_l2_pays amount answer ip solution address s small =
      elim (Result-cases (check_solution cm sha256 l2 ip solution s.store).0) [
        | inl (u, p) ↦ inl (p, ground (arith, value_of-small amount small))
        | inr (e, p) ↦ inr (e, p, ground arith, ground arith)
      ]
