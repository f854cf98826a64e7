-- ===== src/Tests/Wallets.antt =====
-- src/l1.rs, src/main.rs (the start) and utils/html-solver at concrete inputs.
use text.Mathlib.Text.{◌==◌}
use mathlib.Core.Bool.{true≢false}
use Prim.Native.String.{String}
use faucet_api.Common.{
  ◌↔◌, ℕ, ◌+◌, ◌≡◌, ◌≢◌, ◌⊎◌, refl, true, none, some, List, [], ◌∷◌, ◌++◌, Result, ok, err, arith,
  ap,
}
use faucet_api.L1.Persister.{
  Sqlite, Laws, initialize, persist, persist_all_or_nothing, initialize-persist,
}
use faucet_api.L1.Syncer.{SyncTask, run_syncer, Synced, updates, run_syncer_lem}
use faucet_api.L1.Wallet.{base_desc, keychains_apart, external_desc, internal_desc}
use faucet_api.HtmlSolver.{found, not_found, extension, mime_type, serve_file, accept_loop}
use faucet_api.HtmlSolver.Files.{serve_file-slash}

-- A database is its list of rows; a transaction is a working copy.
abbrev rows_db : Sqlite
rows_db = record {
  Connection = List ℕ;
  Transaction = List ℕ;
  ChangeSet = List ℕ;
  Error = Unit {0};
  transaction = λ c. ok c;
  init_sqlite_tables = λ t. ok t;
  from_sqlite = λ t. ok t;
  persist_to_sqlite = λ s t. ok (t ++ s);
  commit = λ t. ok t;
}

rows_db-Laws : Laws rows_db (λ s t. s ++ t)
rows_db-Laws = record {
  held = λ c. c;
  seen = λ t. t;
  transaction_seen = λ p. ground arith;
  init_seen = λ p. ground arith;
  from_seen = λ p. ground arith;
  persist_seen = λ p. ground arith;
  commit_held = λ p. ground arith;
}

abbrev old_rows : List ℕ
old_rows = 1 ∷ 2 ∷ []

abbrev new_rows : List ℕ
new_rows = 3 ∷ []

abbrev all_rows : List ℕ
all_rows = 1 ∷ 2 ∷ 3 ∷ []

persist_all_or_nothing_example :
    ((persist rows_db new_rows old_rows).0 ≡ ok tt)
      × ((persist rows_db new_rows old_rows).1 ≡ old_rows ++ new_rows)
    ⊎ ((e : Unit {0}) × (persist rows_db new_rows old_rows ≡ (err e, old_rows)))
unfolding rows_db-Laws
persist_all_or_nothing_example =
    persist_all_or_nothing rows_db (λ s t. s ++ t) rows_db-Laws new_rows old_rows

stores : (persist rows_db new_rows old_rows).0 ≡ ok tt
unfolding persist
stores = refl

reads : (initialize rows_db (persist rows_db new_rows old_rows).1).0 ≡ ok all_rows
unfolding persist initialize
reads = refl

initialize-persist_example : all_rows ≡ old_rows ++ new_rows
unfolding rows_db-Laws
initialize-persist_example =
    initialize-persist rows_db (λ s t. s ++ t) rows_db-Laws new_rows old_rows stores reads

-- A wallet that is the list of its updates.
abbrev apply : ℕ → List ℕ → Result (Unit {0}) (Unit {0}) × List ℕ
apply u w = (ok tt, u ∷ w)

abbrev keep : List ℕ → Result (Unit {0}) (Unit {0}) × List ℕ
keep w = (ok tt, w)

abbrev answers : List (Result ℕ (Unit {0}))
answers = ok 5 ∷ err tt ∷ err tt ∷ ok 7 ∷ []

abbrev fresh_task : SyncTask (List ℕ)
fresh_task = record { l1_wallet = []; requests = 0; sleeps = 0; running = true }

syncs :
    run_syncer apply keep answers fresh_task
    ≡ record { l1_wallet = 7 ∷ 5 ∷ []; requests = 4; sleeps = 2; running = true }
unfolding run_syncer
syncs = refl

keeps_running : (run_syncer apply keep answers fresh_task).running ≡ true
unfolding run_syncer
keeps_running = refl

run_syncer_lem_example :
    Synced apply keep
      (updates apply keep answers)
      []
      (run_syncer apply keep answers fresh_task).l1_wallet
    × ((run_syncer apply keep answers fresh_task).requests ≡ 0 + 4)
    × ((run_syncer apply keep answers fresh_task).sleeps ≡ 0 + 2)
run_syncer_lem_example = run_syncer_lem apply keep answers fresh_task keeps_running

descriptors :
    (external_desc "tprv8" ≡ "tr(tprv8/86h/0h/0h/0/*)")
    × (internal_desc "tprv8" ≡ "tr(tprv8/86h/0h/0h/1/*)")
unfolding external_desc internal_desc base_desc
descriptors = (refl, refl)

abbrev one_key : String
one_key = "tprv8"

abbrev other_key : String
other_key = "tprv9"

keychains_apart_example :
    ((external_desc one_key ≡ external_desc other_key) ↔ (one_key ≡ other_key))
    × ((internal_desc one_key ≡ internal_desc other_key) ↔ (one_key ≡ other_key))
    × (external_desc one_key ≢ internal_desc other_key)
keychains_apart_example = keychains_apart one_key other_key

extensions :
    (extension "static/index.html" ≡ some "html")
    × (extension "a.tar/" ≡ some "tar")
    × (extension "x/.profile" ≡ none)
    × (extension "x.js/.." ≡ none)
    × (extension "no" ≡ none)
unfolding extension
extensions = (refl, refl, refl, refl, refl)

-- The root is the page; an empty path panics.
serves_the_page :
    (serve_file (λ file. ok []) "/" ≡ some (found "text/html" []))
    × (serve_file (λ file. ok []) "" ≡ none)
unfolding serve_file
serves_the_page = (refl, refl)

abbrev all_readable : String → Result (List ℕ) (Unit {0})
all_readable file = ok (7 ∷ [])

serve_file-slash_example :
    ((contents : List ℕ) × (all_readable "../faucet.seed" ≡ ok contents)
      × (serve_file all_readable "/../faucet.seed"
          ≡ some (found (mime_type (extension "../faucet.seed")) contents)))
    ⊎ ((all_readable "../faucet.seed" ≡ err tt)
        × (serve_file all_readable "/../faucet.seed" ≡ some (not_found "404 Not Found\n")))
serve_file-slash_example = serve_file-slash all_readable "../faucet.seed" not_empty
  where
    not_empty : ◌≢◌ {A = String} "../faucet.seed" ""
    not_empty p = true≢false (ap (λ t. t == "../faucet.seed") p)

-- A connection that could not be accepted is skipped.
accepts : accept_loop {Stream = ℕ} {Error = Unit {0}} (ok 1 ∷ err tt ∷ ok 2 ∷ []) [] ≡ 2 ∷ 1 ∷ []
unfolding accept_loop
accepts = refl
