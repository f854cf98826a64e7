-- ===== src/Service.antt =====
-- The running server: the requests that src/main.rs routes, the batcher task of src/batcher.rs and the
-- eviction task of src/pow.rs, on one state. The channel between a claim and the batcher holds what was
-- sent and is not yet received.
pub mod Router
pub mod Gate
pub mod Effect
pub mod Served
pub mod Funds
pub mod Solvency
pub mod Delivery
pub mod Payout
use faucet_api.Common.{◌≡◌, true, Result, ℕ, Option, none, some, List, [], ◌∷◌, ◌++◌}
use faucet_api.Chain.{Chain, l1, l2}
use faucet_api.Pow.Challenge.{Instant, Key}
use faucet_api.Pow.ChallengeSet.{ConcurrentMap}
use faucet_api.Pow.Eviction.{EvictionQueue, Store, receive_wakeup, wake}
use faucet_api.Pow.Eviction
use faucet_api.Batcher.{
  BatcherConfig, WalletApi, Channel, L1PayoutRequest, Broadcast, Event, tick, receive,
  finish_broadcast,
}
use faucet_api.Batcher
use faucet_api.Server.{Layers, Faucet}
use Router.{Arrival, Answer, serve, issued_by, passed_by}

module _ (cm : ConcurrentMap) (sha256 : List ℕ → List ℕ) (api : WalletApi)
    (Unchecked L2Address : Type 0) (layers : Layers)
    (require_network : Unchecked → Option api.Address) (cfg : BatcherConfig) where
  abbrev pub Site : Type 0
  Site = Faucet cm sha256 Unchecked api.Address L2Address

  -- `issued` and `passed` are a record: the keys of the challenges that were new, and of the claims whose
  -- solution passed.
  pub record Service : Type 0 where
    pub faucet : Site
    pub batcher : Batcher.State api
    pub issued : List Key
    pub passed : List Key

  -- What was sent to the batcher and waits in the channel.
  abbrev pub pending : Option (Channel (api.Address × ℕ)) → List (api.Address × ℕ)
  pending none = []
  pending (some channel) = channel.sent

  abbrev pub with_store : Store cm → Site → Site
  with_store store f = record f { store = store }

  pub data Step (s : Service) : Service → Type 0 where
    serves :
        (a : Arrival Unchecked L2Address) {answer : Answer} {f : Site}
        → serve cm sha256 Unchecked api.Address L2Address layers require_network a s.faucet
          ≡ some (answer, f)
        → Step s (record s {
          faucet = f;
          issued = issued_by cm a.request a.ip s.faucet.store f.store ++ s.issued;
          passed = passed_by cm sha256 a.request a.ip s.faucet.store ++ s.passed;
        })
    delivers :
        {address : api.Address} {amount : ℕ} {rest : List (api.Address × ℕ)}
        → s.faucet.payout_sender ≡ some (record { is_open = true; sent = (address, amount) ∷ rest })
        → Step s (record s {
          faucet = record s.faucet {
            payout_sender = some (record { is_open = true; sent = rest });
          };
          batcher = (receive api cfg (record { address = address; amount = amount }) s.batcher).1;
        })
    ticks :
        (fee_rate : ℕ) {e : Event api} {b : Batcher.State api}
        → tick api cfg fee_rate s.batcher ≡ some (e, b)
        → Step s (record s { batcher = b })
    broadcasts :
        (b : Broadcast api) (result : Result (Unit {0}) (Unit {0}))
        → Step s (record s { batcher = finish_broadcast api b result s.batcher })
    wakes :
        (now : Instant) {store : Store cm}
        → wake cm now s.faucet.store ≡ some store
        → Step s (record s { faucet = with_store store s.faucet })
    is_told :
        {queue : EvictionQueue}
        → receive_wakeup s.faucet.store.queue ≡ some queue
        → Step s
            (record s { faucet = with_store (record s.faucet.store { queue = queue }) s.faucet })

  pub data Reach (s : Service) : Service → Type 0 where
    here : Reach s s
    next : {t u : Service} → Reach s t → Step t u → Reach s u

  -- The server as it starts.
  abbrev pub init : Instant → api.Wallet → Service
  init now wallet = record {
    faucet = record {
      store = record { set = cm.empty; queue = Eviction.new now };
      payout_sender = (Batcher.start (Batcher.new cfg)).payout_sender;
      l2_sent = [];
    };
    batcher = Batcher.start_task api wallet;
    issued = [];
    passed = [];
  }
