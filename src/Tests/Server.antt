-- ===== src/Tests/Server.antt =====
-- src/main.rs at concrete inputs.
use faucet_api.Common.{
  ℕ, ◌*◌, ◌^◌, ◌≡◌, ◌⊎◌, refl, true, false, Option, none, some, [], ◌∷◌, Result, ok, err, arith,
  ltb, if◌then◌else◌,
}
use mathlib.Core.Option
use faucet_api.Chain
use faucet_api.Chain.{Chain, l1, l2, IpAddr, v4, v6, bad_request}
use faucet_api.Float
use faucet_api.Float.{finite}
use faucet_api.Pow.Challenge.{PowError, already_claimed}
use faucet_api.Pow.ChallengeSet.Assoc.{put, compare_and_swap, function_map, function_map-IsLawful}
use faucet_api.Pow.Eviction.{Store, new, add_challenge}
use faucet_api.Pow.LeadingZeros.{count_leading_zeros}
use faucet_api.Pow.Claims.{check_solution}
use faucet_api.Pow.Difficulty.{DifficultyConfig}
use faucet_api.Settings.{LayerConfig}
use faucet_api.Server.{
  HttpError, ProvidedChallenge, Layers, Faucet, to_string, get_pow_challenge, claim_l1, claim_l2,
  sats_to_wei, layer_of,
}
use faucet_api.Server.PowChallenge.{IsAnswer, Panics, get_pow_challenge-IsAnswer}
use faucet_api.Server.Once.{claim_l1_once}
use faucet_api.Server.Claims.{L1Claim, claim_l1-L1Claim, claim_l2_pays}
use faucet_api.Tests.Challenges.{
  stored, toy_sha256, sample_solution, sample_nonce, localhost, first_challenge, requested,
  at_start,
}

abbrev pub layer_config : LayerConfig
layer_config = record {
  min_difficulty = 18;
  max_difficulty = 64;
  min_balance = 0;
  amount_per_claim = 1000;
  difficulty_increase_coeff = finite false (20 * Float.one);
  challenge_duration = 120 * 10 ^ 9;
}

abbrev pub always_20 : DifficultyConfig
always_20 = record {
  big_m = 64;
  m = 18;
  b = finite false 0;
  min_diff_start = finite false (20 * Float.one);
  precompute_big_a = finite false 0;
  precompute_big_b = finite false 0;
}

understood : Chain.try_from "l1" ≡ ok l1
unfolding Chain.try_from
understood = refl

abbrev pub layers : Layers
layers = record {
  l1 = layer_config;
  l2 = layer_config;
  l1_difficulty_config = always_20;
  l2_difficulty_config = always_20;
}

get_pow_challenge-IsAnswer_example :
    ((get_pow_challenge function_map layers 10_000
          (ok 0)
          (v4 localhost)
          "l1"
          sample_nonce
          2000
          at_start
        ≡ none)
      × Panics l1 (ok 0) layer_config.challenge_duration 2000)
    ⊎ ((answer : Result ProvidedChallenge HttpError) × (s' : Store function_map)
        × (get_pow_challenge function_map layers 10_000
              (ok 0)
              (v4 localhost)
              "l1"
              sample_nonce
              2000
              at_start
            ≡ some (answer, s'))
        × IsAnswer function_map function_map-IsLawful (v4 localhost) l1 at_start answer s')
unfolding layer_of
get_pow_challenge-IsAnswer_example =
    get_pow_challenge-IsAnswer function_map function_map-IsLawful layers 10_000 (ok 0)
      (v4 localhost) "l1" l1 sample_nonce 2000 at_start understood

-- Every address below 100 is of the network.
abbrev pub require_network : ℕ → Option ℕ
require_network a = if ltb a 100 then some a else none

abbrev pub started : Faucet function_map toy_sha256 ℕ ℕ ℕ
started = record {
  store = requested;
  payout_sender = some (record { is_open = true; sent = [] });
  l2_sent = [];
}

claim_l1_runs :
    Option.map
      (λ r. r.1.payout_sender)
      (claim_l1 function_map toy_sha256 ℕ ℕ ℕ 1000 require_network
        (v4 localhost)
        sample_solution
        7
        started)
    ≡ some (some (record { is_open = true; sent = (7, 1000) ∷ [] }))
unfolding claim_l1 check_solution count_leading_zeros compare_and_swap
claim_l1_runs = refl

-- An address of another network: nothing is queued, and the challenge is spent.
wrong_network_spends :
    Option.map {B = Result (Unit {0}) HttpError × Result (Unit {0}) PowError}
      (λ r.
        (r.0, (check_solution function_map toy_sha256 l1 localhost sample_solution r.1.store).0))
      (claim_l1 function_map toy_sha256 ℕ ℕ ℕ 1000 require_network
        (v4 localhost)
        sample_solution
        700
        started)
    ≡ some (err (bad_request, "wrong address network type"), err already_claimed)
unfolding claim_l1 check_solution count_leading_zeros compare_and_swap
wrong_network_spends = refl

claim_l1-L1Claim_example :
    (r : Result (Unit {0}) HttpError) × (s' : Faucet function_map toy_sha256 ℕ ℕ ℕ) × (claim_l1
        function_map toy_sha256 ℕ ℕ ℕ 1000 require_network
        (v4 localhost)
        sample_solution
        7
        started
      ≡ some (r, s'))
    × (s'.store ≡ (check_solution function_map toy_sha256 l1 localhost sample_solution requested).1)
    × L1Claim function_map toy_sha256 ℕ ℕ ℕ 1000 require_network localhost sample_solution 7 started
        [] r s'
claim_l1-L1Claim_example =
    claim_l1-L1Claim function_map toy_sha256 ℕ ℕ ℕ 1000 require_network localhost sample_solution 7
      started [] refl

claim_l1_once_example :
    (r : Result (Unit {0}) HttpError) × (s' : Faucet function_map toy_sha256 ℕ ℕ ℕ) × (s'' : Faucet
      function_map toy_sha256 ℕ ℕ ℕ)
    × (claim_l1 function_map toy_sha256 ℕ ℕ ℕ 1000 require_network
          (v4 localhost)
          sample_solution
          7
          started
        ≡ some (r, s'))
    × (claim_l1 function_map toy_sha256 ℕ ℕ ℕ 1000 require_network (v4 localhost) sample_nonce 8 s'
        ≡ some (err (bad_request, to_string already_claimed), s''))
    × (s''.payout_sender ≡ s'.payout_sender)
claim_l1_once_example =
    claim_l1_once function_map toy_sha256 ℕ ℕ ℕ function_map-IsLawful 1000 require_network localhost
      sample_solution sample_nonce 7 8 started first_challenge [] refl stored

abbrev on_l2 : Faucet function_map toy_sha256 ℕ ℕ ℕ
on_l2 = record started {
  store = record {
    set = put (localhost, l2) (some first_challenge) function_map.empty;
    queue = add_challenge first_challenge localhost l2 (new 1000);
  };
}

claim_l2_runs :
    (claim_l2 function_map toy_sha256 ℕ ℕ ℕ 1000
      (err tt)
      (v4 localhost)
      sample_solution
      7
      on_l2).1.l2_sent
    ≡ (7, 10_000_000_000_000) ∷ []
unfolding claim_l2 check_solution count_leading_zeros compare_and_swap
claim_l2_runs = refl

claim_l2_pays_example :
    let (r, s') =
      claim_l2 function_map toy_sha256 ℕ ℕ ℕ 1000
        (ok "0xab")
        (v4 localhost)
        sample_solution
        7
        on_l2 in
    (((check_solution function_map toy_sha256 l2 localhost sample_solution on_l2.store).0 ≡ ok tt)
      × (s'.l2_sent ≡ (7, 1000 * sats_to_wei) ∷ []))
    ⊎ ((e : PowError) × ((check_solution function_map toy_sha256 l2 localhost sample_solution
            on_l2.store).0
          ≡ err e)
        × (r ≡ err (bad_request, to_string e))
        × (s'.l2_sent ≡ []))
claim_l2_pays_example =
    claim_l2_pays function_map toy_sha256 ℕ ℕ ℕ 1000 (ok "0xab") localhost sample_solution 7 on_l2
      (omega arith)
