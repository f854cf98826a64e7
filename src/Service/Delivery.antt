-- ===== src/Service/Delivery.antt =====
-- The running server: the steps of the batcher alone, and how it takes what was sent into its queue.
use mathlib.Core.List.{append-nil, append_assoc}
use faucet_api.Common.{
  ℕ, ◌+◌, ◌≤◌, ◌<◌, ◌≡◌, refl, sym, ap, ◌∙◌, true, Option, some, List, [], ◌∷◌, ◌++◌, map, arith,
  length, length-append, All, lt→ltb,
}
use faucet_api.Pow.ChallengeSet.{ConcurrentMap}
use faucet_api.Batcher.{BatcherConfig, WalletApi, L1PayoutRequest, State, recipient, receive}
use faucet_api.Batcher.Ledger.{Requests}
use faucet_api.Batcher.Drain.{IsSmall}
use faucet_api.Settings.{max_sats_per_claim}
use faucet_api.Server.{Layers}
use faucet_api.Service.{Service, Step, delivers, ticks}

module _ (api : WalletApi) where
  open api use {Wallet, Address, Script, Psbt, Tx, script_pubkey, finish, sign, extract_tx}

  abbrev pub requests : List (Address × ℕ) → Requests api
  requests = map (λ r. record { address = r.0; amount = r.1 })

  abbrev pub payouts : List (Address × ℕ) → List (Script × ℕ)
  payouts = map (λ r. (script_pubkey r.0, r.1))

  pub requests-payouts :
      (sent : List (Address × ℕ)) → map (recipient api) (requests sent) ≡ payouts sent
  requests-payouts [] = refl
  requests-payouts (r ∷ rs) = ap (◌∷◌ (script_pubkey r.0, r.1)) (requests-payouts rs)

  pub requests-IsSmall :
      (sent : List (Address × ℕ))
      → All (λ r. r.1 ≤ max_sats_per_claim) sent
      → IsSmall api (requests sent)
  requests-IsSmall [] h = tt
  requests-IsSmall (r ∷ rs) (h, hs) = (h, requests-IsSmall rs hs)

  receive-room :
      (cfg : BatcherConfig) (req : L1PayoutRequest api) (s : State api)
      → length s.l1_payout_queue < cfg.max_in_flight
      → (receive api cfg req s).1 ≡ record s { l1_payout_queue = s.l1_payout_queue ++ (req ∷ []) }
  unfolding receive
  receive-room cfg req s room =
      ground (arith, lt→ltb (length s.l1_payout_queue) cfg.max_in_flight room)

module _ (cm : ConcurrentMap) (sha256 : List ℕ → List ℕ) (api : WalletApi)
    (Unchecked L2Address : Type 0) (layers : Layers)
    (require_network : Unchecked → Option api.Address) (cfg : BatcherConfig) where
  open api use {Wallet, Address, Script, Psbt, Tx, script_pubkey, finish, sign, extract_tx}

  abbrev Server : Type 0
  Server = Service cm sha256 api Unchecked L2Address layers require_network cfg

  abbrev Moves : Server → Server → Type 0
  Moves = Step cm sha256 api Unchecked L2Address layers require_network cfg

  -- The steps that the batcher takes by itself.
  abbrev IsOfBatcher : {s t : Server} → Moves s t → Type 0
  IsOfBatcher (delivers _) = Unit {0}
  IsOfBatcher (ticks _ _) = Unit {0}
  IsOfBatcher _ = ⊥

  -- The batcher works while nothing else happens.
  pub data Works (s : Server) : Server → Type 0 where
    rests : Works s s
    works : {t u : Server} → Works s t → (step : Moves t u) → IsOfBatcher step → Works s u

  -- While there is room, the batcher takes all that was sent into its queue.
  pub deliver_all :
      {s₀ : Server} (sent : List (Address × ℕ)) (s : Server)
      → Works s₀ s
      → s.faucet.payout_sender ≡ some (record { is_open = true; sent = sent })
      → length s.batcher.l1_payout_queue + length sent ≤ cfg.max_in_flight
      → (s' : Server) × Works s₀ s'
        × (s'.batcher.l1_payout_queue ≡ s.batcher.l1_payout_queue ++ requests api sent)
        × (s'.batcher.spawned ≡ s.batcher.spawned)
        × (s'.batcher.l1_wallet ≡ s.batcher.l1_wallet)
  deliver_all [] s steps started room = (s, steps, sym (append-nil _), refl, refl)
  deliver_all ((address, amount) ∷ sent) s steps started room =
      let req : L1PayoutRequest api = record { address = address; amount = amount } in
      let received = receive-room api cfg req s.batcher (omega arith) in
      let queued = ap (λ b. b.l1_payout_queue) received in
      let (s', steps', queue, spawned, wallet) =
        deliver_all sent _ (works steps (delivers started) tt) refl
          (omega (arith, ap length queued, length-append s.batcher.l1_payout_queue (req ∷ []))) in
      (
        s',
        steps',
        queue
            ∙ ap (λ q. q ++ requests api sent) queued
            ∙ append_assoc s.batcher.l1_payout_queue (req ∷ []) (requests api sent),
        spawned ∙ ap (λ b. b.spawned) received,
        wallet ∙ ap (λ b. b.l1_wallet) received,
      )
