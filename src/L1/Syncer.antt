-- ===== src/L1/Syncer.antt =====
-- src/l1.rs: `L1Wallet::spawn_syncer`. The answers of the esplora server, `apply_update` and `persist` of the
-- wallet are parameters; an error of the last two is a panic, which ends the task.
use faucet_api.Common.{
  ℕ, suc, ap, ◌∙◌, refl, inl, inr, Bool-cases, ◌+◌, ◌≡◌, Bool, true, false, List, [], ◌∷◌, Result,
  ok, err, Result-cases, arith, length, if◌then◌else◌,
}

-- The task: the wallet with its database, the requests it has sent, the times it slept for 30 seconds,
-- and whether it still runs.
pub record SyncTask (Wallet : Type 0) : Type 0 where
  pub l1_wallet : Wallet
  pub requests : ℕ
  pub sleeps : ℕ
  pub running : Bool

module _ {Wallet Update Error : Type 0}
    (apply_update : Update → Wallet → Result (Unit {0}) Error × Wallet)
    (persist : Wallet → Result (Unit {0}) Error × Wallet) where
  -- The block that holds the lock.
  unfoldable pub apply_and_persist : Update → Wallet → Result (Unit {0}) Error × Wallet
  apply_and_persist update w =
      let (applied, w') = apply_update update w in
      elim applied [ err e ↦ (err e, w') | ok _ ↦ persist w' ]

  -- One round of the loop, by the server's answer.
  unfoldable pub sync_round : Result Update Error → SyncTask Wallet → SyncTask Wallet
  unfolding apply_and_persist
  sync_round (err e) task = record task { requests = suc task.requests }
  sync_round (ok u) task =
      let (stored, w) = apply_and_persist u task.l1_wallet in
      elim stored [
        | err e ↦ record task { l1_wallet = w; requests = suc task.requests; running = false }
        | ok _ ↦ record task {
          l1_wallet = w;
          requests = suc task.requests;
          sleeps = suc task.sleeps;
        }
      ]

  -- The loop, by the answers.
  unfoldable pub run_syncer : List (Result Update Error) → SyncTask Wallet → SyncTask Wallet
  unfolding sync_round
  run_syncer [] task = task
  run_syncer (r ∷ rs) task = run_syncer rs (if task.running then sync_round r task else task)

  -- The updates that came, without the errors.
  abbrev pub updates : List (Result Update Error) → List Update
  updates [] = []
  updates (ok u ∷ rs) = u ∷ updates rs
  updates (err e ∷ rs) = updates rs

  -- The updates are applied and persisted in their order, each once, without an error.
  pub data Synced : List Update → Wallet → Wallet → Type 0 where
    in_sync : {w : Wallet} → Synced [] w w
    synced :
        {u : Update} {us : List Update} {w w' : Wallet}
        → (apply_update u w).0 ≡ ok tt
        → (persist (apply_update u w).1).0 ≡ ok tt
        → Synced us (persist (apply_update u w).1).1 w'
        → Synced (u ∷ us) w w'

  apply_and_persist-ok :
      (u : Update) (w : Wallet)
      → (apply_and_persist u w).0 ≡ ok tt
      → ((apply_update u w).0 ≡ ok tt)
        × ((persist (apply_update u w).1).0 ≡ ok tt)
        × ((apply_and_persist u w).1 ≡ (persist (apply_update u w).1).1)
  unfolding apply_and_persist
  apply_and_persist-ok u w h = elim (Result-cases (apply_update u w).0) [
    | inr (e, p) ↦ ground arith
    | inl (_, p) ↦ (p, ground arith, ground arith)
  ]

  run_syncer-nil : {task : SyncTask Wallet} → run_syncer [] task ≡ task
  unfolding run_syncer
  run_syncer-nil = refl

  run_syncer-stopped :
      (rs : List (Result Update Error)) (task : SyncTask Wallet)
      → task.running ≡ false
      → (run_syncer rs task).running ≡ false
  unfolding run_syncer
  run_syncer-stopped [] task h = h
  run_syncer-stopped (r ∷ rs) task h = simp h (run_syncer-stopped rs task h)

  -- A task that runs in the end has run before.
  run_syncer-running :
      (r : Result Update Error) (rs : List (Result Update Error)) (task : SyncTask Wallet)
      → (run_syncer (r ∷ rs) task).running ≡ true
      → run_syncer (r ∷ rs) task ≡ run_syncer rs (sync_round r task)
  unfolding run_syncer
  run_syncer-running r rs task h = elim (Bool-cases task.running) [
    | inl p ↦ rw p refl
    | inr p ↦ let stops = run_syncer-stopped (r ∷ rs) task p in ground arith
  ]

  -- While no panic ends the task: it has applied and persisted the updates that came, in their order,
  -- each once and without an error; it has sent a request for every answer, and slept once for every update, so it sent the
  -- request after an error at once.
  pub run_syncer_lem :
      (rs : List (Result Update Error)) (task : SyncTask Wallet)
      → (run_syncer rs task).running ≡ true
      → Synced (updates rs) task.l1_wallet (run_syncer rs task).l1_wallet
        × ((run_syncer rs task).requests ≡ task.requests + length rs)
        × ((run_syncer rs task).sleeps ≡ task.sleeps + length (updates rs))
  unfolding sync_round
  run_syncer_lem [] task h = rw run_syncer-nil (in_sync, omega arith, omega arith)
  run_syncer_lem (err e ∷ rs) task h =
      let goes = run_syncer-running (err e) rs task h in
      let (wallet, requests, sleeps) =
        run_syncer_lem rs (sync_round (err e) task) (rw (← goes) h) in
      rw goes (wallet, omega (arith, requests), omega (arith, sleeps))
  run_syncer_lem (ok u ∷ rs) task h =
      let goes = run_syncer-running (ok u) rs task h in
      elim (Result-cases (apply_and_persist u task.l1_wallet).0) [
        | inr (e, p) ↦
            let stops = run_syncer-stopped rs (sync_round (ok u) task) (ground arith) in
            ground arith
        | inl (_, p) ↦
            let (wallet, requests, sleeps) =
              run_syncer_lem rs (sync_round (ok u) task) (rw (← goes) h) in
            let (applied, stored, after) = apply_and_persist-ok u task.l1_wallet p in
            let done : sync_round (ok u) task ≡ record task {
              l1_wallet = (persist (apply_update u task.l1_wallet).1).1;
              requests = suc task.requests;
              sleeps = suc task.sleeps;
            } =
              ground arith in
            rw goes (
              synced applied stored (rw (ap (λ (t : SyncTask Wallet). t.l1_wallet) done) at wallet),
              requests ∙ ap (λ (t : SyncTask Wallet). t.requests + length rs) done ∙ omega arith,
              sleeps
                  ∙ ap (λ (t : SyncTask Wallet). t.sleeps + length (updates rs)) done
                  ∙ omega arith,
            )
      ]
