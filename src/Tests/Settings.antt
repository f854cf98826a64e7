-- ===== src/Tests/Settings.antt =====
-- src/settings.rs, src/seed.rs and src/l1.rs at concrete inputs.
use faucet_api.Common.{
  false, ℕ, ◌*◌, ◌^◌, ◌≤◌, ◌<◌, ◌≡◌, ◌⊎◌, refl, true, false, none, some, [], ◌∷◌, ok, err, arith,
  length,
}
use faucet_api.Server.{sats_to_wei}
use faucet_api.Settings.{
  ReadableLayerConfig, ReadableSettings, Settings, max_sats_per_claim, settings_path, try_from,
}
use faucet_api.Settings.Limits.{try_from_iff}
use faucet_api.Seed.{Seed, Disk, load_or_create}
use faucet_api.Seed.Reload.{HasSeed, load_or_create_again, load_or_create_outcome}
use faucet_api.L1.{run_fee_task}
use faucet_api.L1.FeeRate.{run_fee_task_lem}

abbrev layer : ℕ → ReadableLayerConfig
layer n = record {
  min_difficulty = none;
  max_difficulty = none;
  min_balance = none;
  amount_per_claim = n;
  difficulty_increase_coeff = none;
  challenge_duration = none;
}

-- The network and the source of addresses are numbers here.
abbrev pub readable : ReadableSettings ℕ ℕ 2
readable = record {
  host = none;
  port = none;
  ip_src = 0;
  seed_file = none;
  sqlite_file = none;
  network = none;
  esplora = "https://esplora";
  l2_http_endpoint = "https://l2";
  batcher = none;
  l1 = layer 1_844_674_407;
  l2 = layer 20_000;
}

paths :
    (settings_path ("faucet-api" ∷ "--config" ∷ "a.toml" ∷ []) ≡ some "a.toml")
    × (settings_path ("faucet-api" ∷ "-c" ∷ []) ≡ none)
unfolding settings_path
paths = (refl, refl)

too_high_stops : try_from ℕ ℕ 2 (record readable { l1 = layer 1_844_674_408 }) ≡ none
unfolding try_from
too_high_stops = refl

try_from_iff_example :
    ((1_844_674_407 ≤ max_sats_per_claim)
      × (20_000 ≤ max_sats_per_claim)
      × ((s : Settings ℕ ℕ 2) × (try_from ℕ ℕ 2 readable ≡ some (ok s))
          × (s.l1.amount_per_claim ≡ 1_844_674_407)
          × (s.l2.amount_per_claim ≡ 20_000)
          × (s.l2.amount_per_claim * sats_to_wei < 2 ^ 64)))
    ⊎ (((max_sats_per_claim < 1_844_674_407) ⊎ (max_sats_per_claim < 20_000))
        × (try_from ℕ ℕ 2 readable ≡ none))
try_from_iff_example = try_from_iff ℕ ℕ 2 readable

abbrev pub bytes32 : ℕ → Seed
bytes32 n =
    n ∷ 0 ∷ 0 ∷ 0 ∷ 0 ∷ 0 ∷ 0 ∷ 0 ∷ 0 ∷ 0 ∷ 0 ∷ 0 ∷ 0 ∷ 0 ∷ 0 ∷ 0 ∷ 0 ∷ 0 ∷ 0 ∷ 0 ∷ 0 ∷ 0 ∷ 0 ∷ 0
    ∷ 0 ∷ 0 ∷ 0 ∷ 0 ∷ 0 ∷ 0 ∷ 0 ∷ 0 ∷ []

abbrev pub empty_disk : Disk
empty_disk = record { contents = none; readable = true; writable = true }

creates : (load_or_create (bytes32 1) empty_disk).0 ≡ ok (bytes32 1)
unfolding load_or_create
creates = refl

load_or_create_again_example :
    (length (bytes32 1) ≡ 32)
    × (load_or_create (bytes32 2) (load_or_create (bytes32 1) empty_disk).1
        ≡ (ok (bytes32 1), (load_or_create (bytes32 1) empty_disk).1))
load_or_create_again_example =
    load_or_create_again (bytes32 1) (bytes32 2) empty_disk refl refl creates

abbrev locked_disk : Disk
locked_disk = record { contents = some (bytes32 1); readable = false; writable = true }

-- A seed that cannot be read just now is overwritten.
overwrites :
    load_or_create (bytes32 2) locked_disk
    ≡ (ok (bytes32 2), record locked_disk { contents = some (bytes32 2) })
unfolding load_or_create
overwrites = refl

load_or_create_outcome_example :
    ((seed : Seed) × HasSeed locked_disk seed
      × (load_or_create (bytes32 2) locked_disk ≡ (ok seed, locked_disk)))
    ⊎ (((seed : Seed) → ¬ HasSeed locked_disk seed)
        × (((locked_disk.writable ≡ true)
              × (load_or_create (bytes32 2) locked_disk
                  ≡ (ok (bytes32 2), record locked_disk { contents = some (bytes32 2) })))
            ⊎ ((locked_disk.writable ≡ false)
                × (load_or_create (bytes32 2) locked_disk ≡ (err tt, locked_disk)))))
load_or_create_outcome_example = load_or_create_outcome (bytes32 2) locked_disk

-- Estimates are whole numbers here.
run_fee_task_lem_example :
    (run_fee_task ℕ
        (λ n. n)
        (ok (some 7) ∷ err tt ∷ ok (some 3) ∷ ok none ∷ [])
        (record { fee_rate = 250; running = true })
      ≡ record { fee_rate = 750; running = true })
    × (run_fee_task ℕ
          (λ n. n)
          (ok (some 7) ∷ err tt ∷ ok (some 3) ∷ ok none ∷ ok (some (2 ^ 60)) ∷ ok (some 9) ∷ [])
          (record { fee_rate = 250; running = true })
        ≡ record { fee_rate = 750; running = false })
run_fee_task_lem_example =
    run_fee_task_lem ℕ (λ n. n) (ok (some 7) ∷ err tt ∷ ok (some 3) ∷ ok none ∷ [])
      (ok (some 9) ∷ []) (2 ^ 60) 250 (omega arith, (tt, (omega arith, (tt, tt)))) (omega arith)
