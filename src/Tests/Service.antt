-- ===== src/Tests/Service.antt =====
-- The running server on concrete inputs: a challenge, a claim on it, and its payout.
use faucet_api.Common.{ℕ, ◌≡◌, ◌+◌, ◌*◌, ◌≤◌, refl, true, some, [], ◌∷◌, ok, err, arith}
use faucet_api.Chain.{l1, v4}
use faucet_api.Pow.ChallengeSet.Assoc.{put, compare_and_swap, function_map, function_map-IsLawful}
use faucet_api.Pow.Difficulty.{calculate_difficulty}
use faucet_api.Pow.Claims.{check_solution}
use faucet_api.Pow.LeadingZeros.{count_leading_zeros}
use faucet_api.Batcher.{tick, receive}
use faucet_api.Server.{Layers, Faucet, sats_to_wei, challenge_for, provide, claim_l1}
use faucet_api.Service.{Service, Reach, here, next, serves, delivers, ticks, init}
use faucet_api.Service.Router.{
  Arrival, Request, pow_challenge, claims_l1, nothing, serve, issued_by, passed_by,
}
use faucet_api.Service.Effect.{waiting}
use faucet_api.Service.Funds.{held}
use faucet_api.Service.Solvency.{solvency}
use faucet_api.Service.Delivery.{Works}
use faucet_api.Service.Payout.{served, claim_is_paid}
use faucet_api.Batcher.Payout.{CanPay, all_paid, next_paid}
use faucet_api.Service.Delivery.{requests}
use faucet_api.Batcher.Payments.{outputs}
use faucet_api.Tests.Batcher.{toy_api, toy_honest, two_per_tx, idle_state}
use faucet_api.Tests.Server.{layers, layer_config, always_20, require_network, started}
use faucet_api.Tests.Challenges.{toy_sha256, sample_solution, sample_nonce, localhost, requested}

abbrev pub arrival : Request ℕ ℕ → Arrival ℕ ℕ
arrival request = record {
  request = request;
  ip = v4 localhost;
  now = 2000;
  nonce = sample_nonce;
  l1_balance = 10_000;
  l2_balance = ok 0;
  l2_answer = err tt;
}

-- Challenges of 12 bits, for half a microsecond.
abbrev easy : Layers
easy = record layers {
  l1 = record layer_config { challenge_duration = 500 };
  l1_difficulty_config = record always_20 { m = 12 };
}

abbrev The : Type 0
The = Service function_map toy_sha256 toy_api ℕ ℕ easy require_network two_per_tx

abbrev the_start : The
the_start = init function_map toy_sha256 toy_api ℕ ℕ easy require_network two_per_tx 1000 0

abbrev challenged : The
challenged = record the_start { faucet = started; issued = (localhost, l1) ∷ [] }

abbrev claimed : The
claimed = record challenged {
  faucet = record started {
    store = (check_solution function_map toy_sha256 l1 localhost sample_solution requested).1;
    payout_sender = some (record { is_open = true; sent = (7, 1000) ∷ [] });
  };
  passed = (localhost, l1) ∷ [];
}

abbrev delivered : The
delivered = record claimed {
  faucet = record claimed.faucet { payout_sender = started.payout_sender };
  batcher = record idle_state { l1_payout_queue = record { address = 7; amount = 1000 } ∷ [] };
}

abbrev paid_in_full : The
paid_in_full = record delivered {
  batcher = record idle_state {
    spawned = record { tx = (7, 1000) ∷ []; total_sent = 1000; num_to_deque = 1 } ∷ [];
  };
}

-- A challenge, a claim, and its payout.
trace :
    Reach function_map toy_sha256 toy_api ℕ ℕ easy require_network two_per_tx the_start paid_in_full
unfolding serve issued_by passed_by receive tick challenge_for provide compare_and_swap claim_l1
    check_solution count_leading_zeros calculate_difficulty
trace =
    next
      (next
        (next (next here (serves (arrival (pow_challenge "l1")) refl))
          (serves (arrival (claims_l1 sample_solution 7)) refl))
        (delivers refl))
      (ticks 250 refl)

solvency_example :
    (held toy_api (λ tx. tx) toy_honest paid_in_full.batcher
        + waiting paid_in_full.faucet.payout_sender
      ≤ 1000 * 1)
    × (0 ≤ 1000 * sats_to_wei * 0)
solvency_example =
    solvency function_map function_map-IsLawful toy_sha256 toy_api ℕ ℕ easy require_network
      two_per_tx (λ tx. tx) toy_honest 1000 0 paid_in_full trace (omega arith)

-- One payout is queued and one was sent.
abbrev busy : Service function_map toy_sha256 toy_api ℕ ℕ easy require_network two_per_tx
busy = record {
  faucet = record started {
    payout_sender = some (record { is_open = true; sent = (3, 500) ∷ [] });
  };
  batcher = record {
    l1_payout_queue = record { address = 9; amount = 400 } ∷ [];
    l1_wallet = 0;
    spawned = [];
  };
  issued = (localhost, l1) ∷ [];
  passed = [];
}

passes_here :
    (check_solution function_map toy_sha256 l1 localhost sample_solution requested).0 ≡ ok tt
unfolding check_solution count_leading_zeros compare_and_swap put
passes_here = refl

-- Two transactions, of 900 and of 1000 sats.
busy-CanPay :
    CanPay toy_api two_per_tx 250
      (record { address = 9; amount = 400 } ∷ requests toy_api ((3, 500) ∷ (7, 1000) ∷ []))
      0
busy-CanPay = next_paid refl refl refl (next_paid refl refl refl all_paid)

claim_is_paid_example :
    (f : Faucet function_map toy_sha256 ℕ ℕ ℕ) × (serve function_map toy_sha256 ℕ ℕ ℕ easy
        require_network
        (arrival (claims_l1 sample_solution 7))
        busy.faucet
      ≡ some (nothing, f))
    × (s' : Service function_map toy_sha256 toy_api ℕ ℕ easy require_network two_per_tx) × Works
        function_map toy_sha256 toy_api ℕ ℕ easy require_network two_per_tx
        (served function_map toy_sha256 toy_api ℕ ℕ easy require_network two_per_tx
          (arrival (claims_l1 sample_solution 7))
          busy
          f)
        s'
    × (outputs toy_api (λ tx. tx) toy_honest s'.batcher.spawned
        ≡ (9, 400) ∷ (3, 500) ∷ (7, 1000) ∷ [])
claim_is_paid_example =
    claim_is_paid function_map toy_sha256 toy_api ℕ ℕ easy require_network two_per_tx (λ tx. tx)
      toy_honest busy (arrival (claims_l1 sample_solution 7)) localhost sample_solution 7 7
      ((3, 500) ∷ []) 250 refl refl passes_here refl refl (omega arith) (omega arith) busy-CanPay
      (omega arith, tt) (omega arith, tt) (omega arith)
