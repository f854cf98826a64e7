-- ===== src/Batcher.antt =====
-- src/batcher.rs: the queue of L1 payouts and the task that sends them in batches. The wallet of `bdk`
-- and the time of a tick are parameters; a panic of the task is `none`.
pub mod Ledger
pub mod Runs
pub mod Payments
pub mod Drain
pub mod Payout
pub mod Refinement
use mathlib.Core.Option
use faucet_api.Common.{
  ℕ, ◌+◌, ◌*◌, ◌^◌, ◌≡◌, Bool, true, false, Option, none, some, List, [], ◌∷◌, ◌++◌, map, Result,
  ok, err, min, ltb, if◌then◌else◌, length, take, drop,
}

pub record BatcherConfig : Type 0 where
  pub period : ℕ  -- nanoseconds
  pub max_per_tx : ℕ
  pub max_in_flight : ℕ

-- `BatcherConfig::default`
abbrev pub default : BatcherConfig
default = record { period = 180 * 1_000_000_000; max_per_tx = 250; max_in_flight = 2500 }

-- What the task uses of `bdk_wallet`.
pub record WalletApi : Type 1 where
  pub Wallet : Type 0
  pub Address : Type 0
  pub Script : Type 0
  pub Psbt : Type 0
  pub Tx : Type 0
  pub script_pubkey : Address → Script
  -- `build_tx`, `fee_rate`, `add_recipient` and `finish`: fee rate, recipients
  pub finish : ℕ → List (Script × ℕ) → Wallet → Result Psbt (Unit {0}) × Wallet
  pub sign : Psbt → Wallet → Result Psbt (Unit {0})
  pub extract_tx : Psbt → Result Tx (Unit {0})
  -- `apply_unconfirmed_txs` and `persist`
  pub apply_unconfirmed : Tx → Wallet → Wallet

-- The channel of payout requests: what was sent and is not yet received, oldest first, and whether the
-- task still receives.
pub record Channel (A : Type 0) : Type 0 where
  pub is_open : Bool
  pub sent : List A

pub data QueueError : Type 0 where
  batcher_not_started batcher_not_available : QueueError

-- `Batcher`, without the handle of its task.
pub record Batcher (A : Type 0) : Type 0 where
  pub payout_sender : Option (Channel A)
  pub cfg : BatcherConfig

-- `Batcher::new`
abbrev pub new : {A : Type 0} → BatcherConfig → Batcher A
new cfg = record { payout_sender = none; cfg = cfg }

-- `Batcher::start`: the channel to the task that it spawns.
abbrev pub start : {A : Type 0} → Batcher A → Batcher A
start self = record self { payout_sender = some (record { is_open = true; sent = [] }) }

-- `Batcher::queue_payout_request`, on the field `payout_sender`: `none` before `Batcher::start`.
unfoldable pub queue_payout_request :
    {A : Type 0} → A → Option (Channel A) → Result (Unit {0}) QueueError × Option (Channel A)
queue_payout_request req none = (err batcher_not_started, none)
queue_payout_request req (some tx) =
    if tx.is_open
    then (ok tt, some (record tx { sent = tx.sent ++ (req ∷ []) }))
    else (err batcher_not_available, some tx)

-- `Amount` addition panics when a `u64` overflows.
unfoldable pub checked_add : ℕ → ℕ → Option ℕ
checked_add a b = if ltb (a + b) (2 ^ 64) then some (a + b) else none

-- `expect` on a result.
abbrev pub expect : {A : Type 0} → Result A (Unit {0}) → Option A
expect (ok a) = some a
expect (err _) = none

module _ (api : WalletApi) where
  open api use {
    Wallet, Address, Script, Tx, script_pubkey, finish, sign, extract_tx, apply_unconfirmed,
  }

  pub record L1PayoutRequest : Type 0 where
    pub address : Address
    pub amount : ℕ

  -- A broadcast that was spawned: the transaction, and what its log line says.
  pub record Broadcast : Type 0 where
    pub tx : Tx
    pub total_sent : ℕ
    pub num_to_deque : ℕ

  -- The local of the task, the shared wallet, and the spawned broadcasts.
  pub record State : Type 0 where
    pub l1_payout_queue : List L1PayoutRequest
    pub l1_wallet : Wallet
    pub spawned : List Broadcast

  -- The task as it starts.
  abbrev pub start_task : Wallet → State
  start_task l1_wallet = record { l1_payout_queue = []; l1_wallet = l1_wallet; spawned = [] }

  -- `psbt.add_recipient(req.address.script_pubkey(), req.amount)`
  abbrev pub recipient : L1PayoutRequest → Script × ℕ
  recipient req = (script_pubkey req.address, req.amount)

  -- `total_sent` after the loop over the batch.
  unfoldable pub total_from : ℕ → List L1PayoutRequest → Option ℕ
  unfolding checked_add
  total_from total [] = some total
  total_from total (req ∷ batch) = elim (checked_add total req.amount) [
    | none ↦ none
    | some total' ↦ total_from total' batch
  ]

  -- What one turn of the loop did, for the record.
  pub data Event : Type 0 where
    nothing_due : Event
    sent : (batch : List L1PayoutRequest) → Event
    failed : (batch : List L1PayoutRequest) → Event  -- "failed finalizing tx"
    queued : (req : L1PayoutRequest) → Event
    dropped : (req : L1PayoutRequest) → Event  -- the queue was full

  -- From `psbt.finish()` on: sign, extract, spawn the broadcast.
  unfoldable pub send :
      ℕ → ℕ → ℕ → List L1PayoutRequest → List L1PayoutRequest → State → Option (Event × State)
  send fee_rate num_to_deque total_sent batch rest s =
      let (built, w) = finish fee_rate (map recipient batch) s.l1_wallet in
      elim built [
        | err e ↦ some (failed batch, record s { l1_payout_queue = rest; l1_wallet = w })
        | ok psbt ↦ elim (sign psbt w) [
          | err e ↦ none
          | ok signed ↦ elim (extract_tx signed) [
            | err e ↦ none
            | ok tx ↦ some (
              sent batch,
              record {
                l1_payout_queue = rest;
                l1_wallet = w;
                spawned =
                    s.spawned
                    ++ (record { tx = tx; total_sent = total_sent; num_to_deque = num_to_deque }
                        ∷ []);
              },
            )
          ]
        ]
      ]

  -- The arm of the interval's tick, for what is in the queue.
  unfoldable pub tick_queue :
      BatcherConfig → ℕ → List L1PayoutRequest → State → Option (Event × State)
  unfolding send total_from
  tick_queue cfg fee_rate [] s = some (nothing_due, s)
  tick_queue cfg fee_rate (req ∷ reqs) s =
      let queue : List L1PayoutRequest = req ∷ reqs in
      let num_to_deque = min cfg.max_per_tx (length queue) in
      let batch = take num_to_deque queue in
      elim (total_from 0 batch) [
        | none ↦ none
        | some total_sent ↦ send fee_rate num_to_deque total_sent batch (drop num_to_deque queue) s
      ]

  unfoldable pub tick : BatcherConfig → ℕ → State → Option (Event × State)
  unfolding tick_queue
  tick cfg fee_rate s = tick_queue cfg fee_rate s.l1_payout_queue s

  -- The arm of a received request.
  unfoldable pub receive : BatcherConfig → L1PayoutRequest → State → Event × State
  receive cfg req s =
      if ltb (length s.l1_payout_queue) cfg.max_in_flight
      then (queued req, record s { l1_payout_queue = s.l1_payout_queue ++ (req ∷ []) })
      else (dropped req, s)

  -- The end of a spawned broadcast: whether it succeeded or not, the wallet takes the transaction as
  -- unconfirmed.
  unfoldable pub finish_broadcast : Broadcast → Result (Unit {0}) (Unit {0}) → State → State
  finish_broadcast b result s = record s { l1_wallet = apply_unconfirmed b.tx s.l1_wallet }

  -- What `select!` may choose: a tick with the fee rate at that time, a request, or a broadcast that
  -- comes to its end.
  pub data Turn : Type 0 where
    on_tick : (fee_rate : ℕ) → Turn
    on_request : L1PayoutRequest → Turn
    on_broadcast : Broadcast → Result (Unit {0}) (Unit {0}) → Turn

  unfoldable pub turn : BatcherConfig → Turn → State → Option (Event × State)
  unfolding tick receive finish_broadcast
  turn cfg (on_tick fee_rate) s = tick cfg fee_rate s
  turn cfg (on_request req) s = some (receive cfg req s)
  turn cfg (on_broadcast b result) s = some (nothing_due, finish_broadcast b result s)

  -- The loop of the task, with what each turn did.
  unfoldable pub run : BatcherConfig → List Turn → State → Option (List Event × State)
  unfolding turn
  run cfg [] s = some ([], s)
  run cfg (t ∷ ts) s = elim (turn cfg t s) [
    | none ↦ none
    | some (e, s') ↦ Option.map (λ r. (e ∷ r.0, r.1)) (run cfg ts s')
  ]
