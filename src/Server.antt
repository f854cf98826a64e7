-- ===== src/Server.antt =====
-- The handlers of src/main.rs. What a request finds outside of them (the client's address, balances, the
-- clock, random bytes, the answer of the L2 node) is an argument; a panic is `none`.
pub mod Claims
pub mod Once
pub mod PowChallenge
use Prim.Native.String.{String}
use faucet_api.Common.{
  ℕ, ◌+◌, ◌*◌, ◌/◌, ◌%◌, ◌^◌, Bool, true, false, Option, none, some, List, [], ◌∷◌, ◌++◌, Result,
  ok, err, map_err, if◌then◌else◌, ltb,
}
use faucet_api.Chain
use faucet_api.Chain.{
  Chain, l1, l2, IpAddr, v4, v6, StatusCode, bad_request, unprocessable_entity,
  internal_server_error,
}
use faucet_api.L2.{get_default_signer_balance}
use mathlib.Core.Option
use faucet_api.Pow.Challenge.{
  Instant, instant_end, Duration, Nonce, Solution, Challenge, PowError, nonce_not_found,
  bad_proof_of_work, already_claimed,
}
use faucet_api.Pow.ChallengeSet.{ConcurrentMap}
use faucet_api.Pow.Eviction.{Store}
use faucet_api.Pow.Claims.{get, check_solution}
use faucet_api.Pow.Difficulty.{DifficultyConfig, calculate_difficulty}
use faucet_api.Settings.{LayerConfig}
use faucet_api.Batcher.{Channel, queue_payout_request}

-- The text that the handlers answer with for an error of `check_solution`.
unfoldable pub to_string : PowError → String
to_string already_claimed =
    "You have already claimed tokens from the faucet. Please wait and try again."
to_string bad_proof_of_work = "Proof of Work is invalid. Please try again."
to_string nonce_not_found = "Proof of Work took too long. The challenge is no longer valid."

abbrev pub btc_to_sats : ℕ
btc_to_sats = 100_000_000

abbrev pub btc_to_wei : ℕ
btc_to_wei = 10 ^ 18

abbrev pub sats_to_wei : ℕ
sats_to_wei = btc_to_wei / btc_to_sats

abbrev pub HttpError : Type 0
HttpError = StatusCode × String

pub record ProvidedChallenge : Type 0 where
  pub nonce : Nonce
  pub difficulty : ℕ

-- The settings and difficulty configurations that the handlers read.
pub record Layers : Type 0 where
  pub l1 : LayerConfig
  pub l2 : LayerConfig
  pub l1_difficulty_config : DifficultyConfig
  pub l2_difficulty_config : DifficultyConfig

-- `(wei_bal / (SATS_TO_WEI as u128)) as u64`
abbrev pub sats_of_wei : ℕ → ℕ
sats_of_wei wei_bal = wei_bal / sats_to_wei % 2 ^ 64

-- The balance in sats of the chain's wallet, from what the node answered; `none` is the panic of the L2 balance.
unfoldable pub balance_of : Chain → ℕ → Result ℕ (Unit {0}) → Option (Result ℕ HttpError)
unfolding get_default_signer_balance
balance_of l1 l1_balance l2_balance = some (ok l1_balance)
balance_of l2 l1_balance l2_balance = elim (get_default_signer_balance l2_balance) [
  | none ↦ none
  | some (ok wei_bal) ↦ some (ok (sats_of_wei wei_bal))
  | some (err e) ↦ some (err (internal_server_error, e))
]

unfoldable pub layer_of : Chain → Layers → LayerConfig × DifficultyConfig
layer_of l1 s = (s.l1, s.l1_difficulty_config)
layer_of l2 s = (s.l2, s.l2_difficulty_config)

-- `get_balance`: a number of sats on L1, of wei on L2, which the answer prints in decimal.
unfoldable pub get_balance : String → ℕ → Result ℕ (Unit {0}) → Option (Result ℕ HttpError)
unfolding Chain.try_from get_default_signer_balance
get_balance chain l1_balance l2_balance = elim (Chain.try_from chain) [
  | err e ↦ some (err e)
  | ok c ↦ elim c [
    | l1 ↦ some (ok l1_balance)
    | l2 ↦
        Option.map (map_err (λ e. (internal_server_error, e)))
          (get_default_signer_balance l2_balance)
  ]
]

-- `get_sats_per_claim`, also printed in decimal.
unfoldable pub get_sats_per_claim : Layers → String → Result ℕ HttpError
unfolding Chain.try_from layer_of
get_sats_per_claim layers chain = elim (Chain.try_from chain) [
  | err e ↦ err e
  | ok c ↦ ok (layer_of c layers).0.amount_per_claim
]

module _ (cm : ConcurrentMap) where
  -- The end of `get_pow_challenge`, for the client's address. `Challenge::get` first computes the expiry of what it
  -- offers, which panics from `instant_end` on.
  unfoldable pub provide :
      IpAddr
      → Chain
      → ℕ
      → Duration
      → Nonce
      → Instant
      → Store cm
      → Option (Result ProvidedChallenge HttpError × Store cm)
  unfolding get
  provide (v6 _) chain difficulty duration nonce now s =
      some (err (unprocessable_entity, "IPV6 is not supported at the moment"), s)
  provide (v4 ip) chain difficulty duration nonce now s =
      if ltb (now + duration) instant_end
      then elim (get cm chain ip difficulty duration nonce now s) [
        | none ↦ none
        | some (c, s') ↦ some (ok (record { nonce = c.nonce; difficulty = c.difficulty }), s')
      ]
      else none

  -- `get_pow_challenge` for a chain that was understood.
  unfoldable pub challenge_for :
      Layers
      → ℕ
      → Result ℕ (Unit {0})
      → IpAddr
      → Chain
      → Nonce
      → Instant
      → Store cm
      → Option (Result ProvidedChallenge HttpError × Store cm)
  unfolding balance_of layer_of
  challenge_for layers l1_balance l2_balance ip chain nonce now s =
      let (layer_config, difficulty_config) = layer_of chain layers in
      elim (balance_of chain l1_balance l2_balance) [
        | none ↦ none
        | some (err e) ↦ some (err e, s)
        | some (ok balance) ↦
            provide ip chain (calculate_difficulty difficulty_config balance)
              layer_config.challenge_duration nonce now s
      ]

  -- `get_pow_challenge`
  unfoldable pub get_pow_challenge :
      Layers
      → ℕ
      → Result ℕ (Unit {0})
      → IpAddr
      → String
      → Nonce
      → Instant
      → Store cm
      → Option (Result ProvidedChallenge HttpError × Store cm)
  unfolding Chain.try_from
  get_pow_challenge layers l1_balance l2_balance ip chain nonce now s =
      elim (Chain.try_from chain) [
        | err e ↦ some (err e, s)
        | ok c ↦ challenge_for layers l1_balance l2_balance ip c nonce now s
      ]

  module _ (sha256 : List ℕ → List ℕ) (Unchecked Address L2Address : Type 0) where
    -- What the claim handlers change: the store, the batcher's channel, and what was asked of the L2
    -- node, as addresses and values in wei.
    pub record Faucet : Type 0 where
      pub store : Store cm
      pub payout_sender : Option (Channel (Address × ℕ))
      pub l2_sent : List (L2Address × ℕ)

    -- `claim_l1` from `require_network` on, with what that returned.
    unfoldable pub pay_l1 :
        ℕ → Option Address → Faucet → Option (Result (Unit {0}) HttpError × Faucet)
    unfolding queue_payout_request
    pay_l1 amount_per_claim none s = some (err (bad_request, "wrong address network type"), s)
    pay_l1 amount_per_claim (some address) s =
        let (queued, sender) = queue_payout_request (address, amount_per_claim) s.payout_sender in
        elim queued [ err _ ↦ none | ok _ ↦ some (ok tt, record s { payout_sender = sender }) ]

    -- `claim_l1`
    unfoldable pub claim_l1 :
        ℕ
        → (Unchecked → Option Address)
        → IpAddr
        → Solution
        → Unchecked
        → Faucet
        → Option (Result (Unit {0}) HttpError × Faucet)
    unfolding pay_l1
    claim_l1 amount_per_claim require_network (v6 _) solution address s =
        some (err (bad_request, "IPV6 is not supported at this time"), s)
    claim_l1 amount_per_claim require_network (v4 ip) solution address s =
        let (checked, store) = check_solution cm sha256 l1 ip solution s.store in
        let s' : Faucet = record s { store = store } in
        elim checked [
          | err e ↦ some (err (bad_request, to_string e), s')
          | ok _ ↦ pay_l1 amount_per_claim (require_network address) s'
        ]

    -- The value of an L2 claim: a product of two `u64`s, which wraps in a release build.
    unfoldable pub value_of : ℕ → ℕ
    value_of amount_per_claim = amount_per_claim * sats_to_wei % 2 ^ 64

    -- `claim_l2`; `sent` is the node's answer, a transaction id or an error.
    unfoldable pub claim_l2 :
        ℕ
        → Result String (Unit {0})
        → IpAddr
        → Solution
        → L2Address
        → Faucet
        → Result String HttpError × Faucet
    unfolding value_of
    claim_l2 amount_per_claim sent (v6 _) solution address s =
        (err (bad_request, "IPV6 is not unavailable"), s)
    claim_l2 amount_per_claim sent (v4 ip) solution address s =
        let (checked, store) = check_solution cm sha256 l2 ip solution s.store in
        let s' : Faucet = record s { store = store } in
        elim checked [
          | err e ↦ (err (bad_request, to_string e), s')
          | ok _ ↦ (
            elim sent [
              | ok txid ↦ ok txid
              | err _ ↦ err (internal_server_error, "error sending tx")
            ],
            record s' { l2_sent = s.l2_sent ++ ((address, value_of amount_per_claim) ∷ []) },
          )
        ]
