-- ===== src/Service/Payout.antt =====
-- The running server: from a claim on L1 that passes, over the channel and the batcher's queue, to the
-- transaction that pays it.
use mathlib.Core.List.{append-nil, append_assoc, map-append}
use faucet_api.Common.{
  ℕ, ◌+◌, ◌^◌, ◌≤◌, ◌<◌, ◌≡◌, refl, sym, ap, ◌∙◌, true, Option, some, List, [], ◌∷◌, ◌++◌, map,
  Result, ok, arith, length, length-append, All, All-append,
}
use faucet_api.Chain.{l1, v4}
use faucet_api.Pow.Challenge.{Solution}
use faucet_api.Pow.ChallengeSet.{ConcurrentMap}
use faucet_api.Pow.Claims.{check_solution}
use faucet_api.Batcher.{BatcherConfig, WalletApi, recipient}
use faucet_api.Batcher.Payments.{outputs}
use faucet_api.Batcher.Drain.{IsSmall}
use faucet_api.Batcher.Payout.{CanPay, all_paid, next_paid, owed, tick_pays}
use faucet_api.Batcher.Ledger.{Requests}
use faucet_api.Settings.{max_sats_per_claim}
use faucet_api.Server.{Layers, Faucet, HttpError, claim_l1}
use faucet_api.Server.Claims.{L1Claim, paid, refused, wrong_network, claim_l1-L1Claim}
use faucet_api.Service.{Service, ticks}
use faucet_api.Service.Router.{Arrival, claims_l1, nothing, route, serve, issued_by, passed_by}
use faucet_api.Service.Delivery.{
  Works, rests, works, requests, payouts, requests-payouts, requests-IsSmall, deliver_all,
}

length-zero : {A : Type 0} (xs : List A) → length xs ≡ 0 → xs ≡ []
length-zero [] h = refl
length-zero (x ∷ xs) h = absurd (omega (arith, h))

module _ (cm : ConcurrentMap) (sha256 : List ℕ → List ℕ) (api : WalletApi)
    (Unchecked L2Address : Type 0) (layers : Layers)
    (require_network : Unchecked → Option api.Address) (cfg : BatcherConfig) where
  open api use {Wallet, Address, Script, Psbt, Tx, script_pubkey, finish, sign, extract_tx}

  abbrev Server : Type 0
  Server = Service cm sha256 api Unchecked L2Address layers require_network cfg

  abbrev Goes : Server → Server → Type 0
  Goes = Works cm sha256 api Unchecked L2Address layers require_network cfg

  abbrev Site : Type 0
  Site = Faucet cm sha256 Unchecked Address L2Address

  -- The state after a request that is answered.
  abbrev pub served : Arrival Unchecked L2Address → Server → Site → Server
  served a s f = record s {
    faucet = f;
    issued = issued_by cm a.request a.ip s.faucet.store f.store ++ s.issued;
    passed = passed_by cm sha256 a.request a.ip s.faucet.store ++ s.passed;
  }

  L1Claim-passed :
      {ip : ℕ} {solution : Solution} {address : Unchecked} {to : Address}
      {sent : List (Address × ℕ)} {f f' : Site} {r : Result (Unit {0}) HttpError}
      → L1Claim cm sha256 Unchecked Address L2Address layers.l1.amount_per_claim require_network ip
          solution address f sent r f'
      → (check_solution cm sha256 l1 ip solution f.store).0 ≡ ok tt
      → require_network address ≡ some to
      → (r ≡ ok tt)
        × (f'.payout_sender
            ≡ some
                (record { is_open = true; sent = sent ++ ((to, layers.l1.amount_per_claim) ∷ []) }))
  L1Claim-passed {to} (paid {a} checked network sender) passes fits =
      let same : a ≡ to = ground arith in (refl, rw (← same) sender)
  L1Claim-passed (refused checked same) passes fits = absurd (ground arith)
  L1Claim-passed (wrong_network checked network same) passes fits = absurd (ground arith)

  serve-claim_l1 :
      (a : Arrival Unchecked L2Address) (ip : ℕ) (solution : Solution) (address : Unchecked)
      (f f' : Site)
      → a.request ≡ claims_l1 solution address
      → a.ip ≡ v4 ip
      → claim_l1 cm sha256 Unchecked Address L2Address layers.l1.amount_per_claim require_network
          (v4 ip)
          solution
          address
          f
        ≡ some (ok tt, f')
      → serve cm sha256 Unchecked Address L2Address layers require_network a f ≡ some (nothing, f')
  unfolding serve route
  serve-claim_l1 a ip solution address f f' asks from_ip run = rw (asks, from_ip, run, route) refl

  -- A claim that passes is answered with success, and its payout is sent last.
  claim-serve :
      (a : Arrival Unchecked L2Address) (ip : ℕ) (solution : Solution) (address : Unchecked)
      (to : Address) (sent : List (Address × ℕ)) (f : Site)
      → a.request ≡ claims_l1 solution address
      → a.ip ≡ v4 ip
      → (check_solution cm sha256 l1 ip solution f.store).0 ≡ ok tt
      → require_network address ≡ some to
      → f.payout_sender ≡ some (record { is_open = true; sent = sent })
      → (f' : Site) × (serve cm sha256 Unchecked Address L2Address layers require_network a f
          ≡ some (nothing, f'))
        × (f'.payout_sender
            ≡ some
                (record { is_open = true; sent = sent ++ ((to, layers.l1.amount_per_claim) ∷ []) }))
  unfolding serve
  claim-serve a ip solution address to sent f asks from_ip passes fits started =
      let (r, f', run, kept, outcome) =
        claim_l1-L1Claim cm sha256 Unchecked Address L2Address layers.l1.amount_per_claim
          require_network ip solution address f sent started in
      let (success, queued) = L1Claim-passed outcome passes fits in
      (f', serve-claim_l1 a ip solution address f f' asks from_ip (rw success at run), queued)

  module _ (pays : Tx → List (Script × ℕ))
      (honest : (fee : ℕ) (rs : List (Script × ℕ)) (w : Wallet) (psbt signed : Psbt) (tx : Tx)
        → (finish fee rs w).0 ≡ ok psbt
        → sign psbt (finish fee rs w).1 ≡ ok signed
        → extract_tx signed ≡ ok tx
        → pays tx ≡ rs) where
    abbrev owes : Server → List (Script × ℕ)
    owes s = owed api pays honest s.batcher

    -- Ticks empty a queue that the wallet can pay for, and pay what was in it.
    tick_all :
        {s₀ : Server} (fee : ℕ) {queue : Requests api} {w : Wallet}
        → CanPay api cfg fee queue w
        → (s : Server) → s.batcher.l1_payout_queue ≡ queue
        → s.batcher.l1_wallet ≡ w
        → Goes s₀ s
        → cfg.max_per_tx ≤ 10 ^ 10
        → IsSmall api s.batcher.l1_payout_queue
        → (s' : Server) × Goes s₀ s' × (s'.batcher.l1_payout_queue ≡ []) × (owes s' ≡ owes s)
    tick_all fee all_paid s queue wallet steps few small = (s, steps, queue, refl)
    tick_all fee (next_paid built signed whole rest) s queue wallet steps few small =
        let (e, b, ticked, same, queue', wallet', small') =
          tick_pays api pays honest cfg fee s.batcher few small queue wallet built signed whole in
        let (s', steps', empty, owed') =
          tick_all fee rest (record s { batcher = b }) queue' wallet'
            (works steps (ticks fee ticked) tt) few small' in
        (s', steps', empty, owed' ∙ same)

    -- What an empty queue leaves owed is paid.
    paid-owes :
        (s s₁ s₂ : Server) (sent : List (Address × ℕ))
        → s₂.batcher.l1_payout_queue ≡ []
        → owes s₂ ≡ owes s₁
        → s₁.batcher.l1_payout_queue ≡ s.batcher.l1_payout_queue ++ requests api sent
        → s₁.batcher.spawned ≡ s.batcher.spawned
        → outputs api pays honest s₂.batcher.spawned ≡ owes s ++ payouts api sent
    paid-owes s s₁ s₂ sent empty same queue spawned =
        sym (append-nil (outputs api pays honest s₂.batcher.spawned))
        ∙ ap (λ q. outputs api pays honest s₂.batcher.spawned ++ map (recipient api) q) (sym empty)
        ∙ same
        ∙ ap (λ b. outputs api pays honest b ++ map (recipient api) s₁.batcher.l1_payout_queue)
            spawned
        ∙ ap (λ q. outputs api pays honest s.batcher.spawned ++ map (recipient api) q) queue
        ∙ ap (◌++◌ (outputs api pays honest s.batcher.spawned)) (
            map-append (recipient api) s.batcher.l1_payout_queue (requests api sent)
            ∙ ap (◌++◌ (map (recipient api) s.batcher.l1_payout_queue)) (requests-payouts api sent))
        ∙ sym (append_assoc (outputs api pays honest s.batcher.spawned) _ (payouts api sent))

    -- If the batcher listens, what is queued or sent leaves room for one more, no amount is above the limit of the
    -- settings, a transaction takes at most 10^10 payouts, the transactions of the wallet pay the recipients they were
    -- built for, and at some fee rate the wallet can build, sign and extract the transactions of the batches that the
    -- payouts queued, sent and this one are cut into: a claim on L1 from an IPv4 address whose solution passes and whose
    -- address fits the network is answered with success and an empty body, and the batcher alone, with no other step,
    -- can then get to where its transactions pay all that was made, queued or sent before, and then the amount of a
    -- claim to that address.
    pub claim_is_paid :
        (s : Server) (a : Arrival Unchecked L2Address) (ip : ℕ) (solution : Solution)
        (address : Unchecked) (to : Address) (sent : List (Address × ℕ)) (fee : ℕ)
        → a.request ≡ claims_l1 solution address
        → a.ip ≡ v4 ip
        → (check_solution cm sha256 l1 ip solution s.faucet.store).0 ≡ ok tt
        → require_network address ≡ some to
        → s.faucet.payout_sender ≡ some (record { is_open = true; sent = sent })
        → length s.batcher.l1_payout_queue + length sent < cfg.max_in_flight
        → cfg.max_per_tx ≤ 10 ^ 10
        → CanPay api cfg fee
            (s.batcher.l1_payout_queue
              ++ requests api (sent ++ ((to, layers.l1.amount_per_claim) ∷ [])))
            s.batcher.l1_wallet
        → IsSmall api s.batcher.l1_payout_queue
        → All (λ r. r.1 ≤ max_sats_per_claim) sent
        → layers.l1.amount_per_claim ≤ max_sats_per_claim
        → (f : Site) × (serve cm sha256 Unchecked Address L2Address layers require_network a
              s.faucet
            ≡ some (nothing, f))
          × (s' : Server) × Goes (served a s f) s'
          × (outputs api pays honest s'.batcher.spawned
              ≡ (owes s ++ payouts api sent)
                ++ ((script_pubkey to, layers.l1.amount_per_claim) ∷ []))
    claim_is_paid s a ip solution address to sent fee asks from_ip passes fits started room few
          can_pay small sent_small amount_small =
        let amount : ℕ = layers.l1.amount_per_claim in
        let sent' : List (Address × ℕ) = sent ++ ((to, amount) ∷ []) in
        let (f, answered, started') =
          claim-serve a ip solution address to sent s.faucet asks from_ip passes fits started in
        let (s₁, delivered, queue, spawned, wallet) =
          deliver_all cm sha256 api Unchecked L2Address layers require_network cfg sent'
            (served a s f) rests started' (omega (arith, length-append sent ((to, amount) ∷ []))) in
        let small' : IsSmall api s₁.batcher.l1_payout_queue = rw queue (
          All-append _ s.batcher.l1_payout_queue (requests api sent') small
            (requests-IsSmall api sent' (All-append _ sent _ sent_small (amount_small, tt)))) in
        let (s₂, ticked, empty, same) = tick_all fee can_pay s₁ queue wallet delivered few small' in
        (
          f,
          answered,
          s₂,
          ticked,
          paid-owes s s₁ s₂ sent' empty same queue spawned
              ∙ ap (◌++◌ (owes s)) (map-append _ sent ((to, amount) ∷ []))
              ∙ sym (append_assoc (owes s) (payouts api sent) _),
        )
