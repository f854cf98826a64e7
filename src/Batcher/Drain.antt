-- ===== src/Batcher/Drain.antt =====
-- src/batcher.rs: the panics of a tick, and ticks in a row.
use faucet_api.Common.{
  ℕ, zero, suc, ◌+◌, ◌-◌, ◌*◌, ◌^◌, ◌≤◌, ◌<◌, ◌≡◌, ◌⊎◌, ap, refl, inl, inr, none, some, Result, err,
  List, [], ◌∷◌, ◌++◌, map, ok, arith, min, length, take, drop, All, length-take, Result-cases,
}
use faucet_api.Settings.{max_sats_per_claim}
use faucet_api.Batcher.{
  BatcherConfig, WalletApi, State, recipient, total_from, Event, nothing_due, sent, failed, send,
  tick, tick_queue, Turn, on_tick, turn, run,
}
use faucet_api.Batcher.Ledger.{
  Requests, batch_of, Sending, not_built, built, Ticked, idle, due, tick_queue-Ticked,
}
use faucet_api.Batcher.Runs.{Ticked-bounds}

module _ (api : WalletApi) where
  open api use {Wallet, Script, Psbt, Tx, finish, sign, extract_tx}

  -- Where one of the two `expect`s on the wallet fails: what it builds for a batch it cannot sign, or what it signs is
  -- refused (as `extract_tx` does with an absurd fee rate).
  abbrev pub Unsigned : ℕ → Requests api → Wallet → Type 0
  Unsigned fee batch w =
      let result : Result Psbt (Unit {0}) × Wallet = finish fee (map (recipient api) batch) w in
      (psbt : Psbt) × (result.0 ≡ ok psbt)
      × ((sign psbt result.1 ≡ err tt)
          ⊎ ((signed : Psbt) × (sign psbt result.1 ≡ ok signed) × (extract_tx signed ≡ err tt)))

  abbrev pub IsSmall : Requests api → Type 0
  IsSmall = All (λ r. r.amount ≤ max_sats_per_claim)

  pub IsSmall-take : (n : ℕ) (xs : Requests api) → IsSmall xs → IsSmall (take n xs)
  IsSmall-take zero xs h = tt
  IsSmall-take (suc n) [] h = tt
  IsSmall-take (suc n) (x ∷ xs) (h, hs) = (h, IsSmall-take n xs hs)

  pub IsSmall-drop : (n : ℕ) (xs : Requests api) → IsSmall xs → IsSmall (drop n xs)
  IsSmall-drop zero xs h = h
  IsSmall-drop (suc n) [] h = tt
  IsSmall-drop (suc n) (x ∷ xs) (h, hs) = IsSmall-drop n xs hs

  -- The sum of a batch does not overflow.
  pub total_from-some :
      (total : ℕ) (batch : Requests api)
      → IsSmall batch
      → total + max_sats_per_claim * length batch < 2 ^ 64
      → (t : ℕ) × (total_from api total batch ≡ some t)
  unfolding total_from
  total_from-some total [] h room = (total, refl)
  total_from-some total (r ∷ rs) (h, hs) room =
      let (t, e) = total_from-some (total + r.amount) rs hs (omega arith) in (t, ground arith)

  send-cases :
      (fee n total : ℕ) (batch rest : Requests api) (s : State api)
      → ((send api fee n total batch rest s ≡ none) × Unsigned fee batch s.l1_wallet)
        ⊎ ((e : Event api) × (s' : State api) × (send api fee n total batch rest s ≡ some (e, s')))
  unfolding send
  send-cases fee n total batch rest s =
      let (result, w) = finish fee (map (recipient api) batch) s.l1_wallet in
      elim (Result-cases result) [
        | inr (x, p) ↦
            inr (failed batch, record s { l1_payout_queue = rest; l1_wallet = w }, ground arith)
        | inl (psbt, p) ↦ elim (Result-cases (sign psbt w)) [
          | inr (x, q) ↦ inl (ground arith, (psbt, p, inl q))
          | inl (signed, q) ↦ elim (Result-cases (extract_tx signed)) [
            | inr (x, r) ↦ inl (ground arith, (psbt, p, inr (signed, q, r)))
            | inl (tx, r) ↦ inr (
              sent batch,
              record {
                l1_payout_queue = rest;
                l1_wallet = w;
                spawned =
                    s.spawned ++ (record { tx = tx; total_sent = total; num_to_deque = n } ∷ []);
              },
              ground arith,
            )
          ]
        ]
      ]

  -- The only panics of a tick are the two `expect`s.
  tick_queue-cases :
      (cfg : BatcherConfig) (fee : ℕ) (queue : Requests api) (s : State api)
      → cfg.max_per_tx ≤ 10 ^ 10
      → IsSmall queue
      → ((tick_queue api cfg fee queue s ≡ none)
          × Unsigned fee (batch_of api cfg queue) s.l1_wallet)
        ⊎ ((e : Event api) × (s' : State api) × (tick_queue api cfg fee queue s ≡ some (e, s')))
  unfolding tick_queue
  tick_queue-cases cfg fee [] s few small = inr (nothing_due, s, refl)
  tick_queue-cases cfg fee (r ∷ rs) s few small =
      let queue : Requests api = r ∷ rs in
      let n : ℕ = min cfg.max_per_tx (length queue) in
      let (total, p) =
        total_from-some 0 (take n queue) (IsSmall-take n queue small)
          (omega (arith, length-take n queue)) in
      elim (send-cases fee n total (take n queue) (drop n queue) s) [
        | inl (q, unsigned) ↦ inl (ground arith, unsigned)
        | inr (e, s', q) ↦ inr (e, s', ground arith)
      ]

  Sending-queue :
      {fee : ℕ} {batch rest : Requests api} {s s' : State api} {e : Event api}
      → Sending api fee batch rest s e s'
      → s'.l1_payout_queue ≡ rest
  Sending-queue (not_built p) = refl
  Sending-queue (built total n p q r t) = refl

  pub Ticked-IsSmall :
      (cfg : BatcherConfig) {fee : ℕ} {s s' : State api} {e : Event api} {queue : Requests api}
      → s.l1_payout_queue ≡ queue
      → Ticked api cfg fee s queue e s'
      → IsSmall queue
      → IsSmall s'.l1_payout_queue
  Ticked-IsSmall cfg p idle small = rw p small
  Ticked-IsSmall cfg p (due {req} {reqs} d) small =
      rw (Sending-queue d)
        (IsSmall-drop (min cfg.max_per_tx (length (req ∷ reqs))) (req ∷ reqs) small)

  -- Ticks, with the fee rate at each.
  abbrev pub ticks : List ℕ → List (Turn api)
  ticks = map on_tick

  -- If no amount is above the limit of the settings and no batch is above 10^10 requests, then ticks in a row either
  -- all go through, and `n` of them take `n * max_per_tx` requests off the queue, or all that there are; or there is
  -- a first one that panics, those before it took as many for each, and then the wallet built the transaction of the
  -- next batch, but could not sign it, or not extract what it signed. No sum of amounts overflows.
  pub ticks_drain :
      (cfg : BatcherConfig) (fees : List ℕ) (s : State api)
      → cfg.max_per_tx ≤ 10 ^ 10
      → IsSmall s.l1_payout_queue
      → ((es : List (Event api)) × (s' : State api) × (run api cfg (ticks fees) s ≡ some (es, s'))
          × (length s'.l1_payout_queue ≡ length s.l1_payout_queue - length fees * cfg.max_per_tx))
        ⊎ ((run api cfg (ticks fees) s ≡ none)
            × (before : List ℕ) × (fee : ℕ) × (after : List ℕ) × (fees ≡ before ++ (fee ∷ after))
            × (es : List (Event api)) × (s' : State api) × (run api cfg (ticks before) s
                ≡ some (es, s'))
            × (length s'.l1_payout_queue
                ≡ length s.l1_payout_queue - length before * cfg.max_per_tx)
            × Unsigned fee (batch_of api cfg s'.l1_payout_queue) s'.l1_wallet)
  unfolding run turn tick
  ticks_drain cfg [] s few small = inl ([], s, refl, omega arith)
  ticks_drain cfg (fee ∷ fees) s few small =
      elim (tick_queue-cases cfg fee s.l1_payout_queue s few small) [
        | inl (p, unsigned) ↦
            inr (ground arith, [], fee, fees, refl, [], s, refl, omega arith, unsigned)
        | inr (e, s₁, p) ↦
            let ticked = tick_queue-Ticked api cfg fee s.l1_payout_queue s s₁ e p in
            let shorter = (Ticked-bounds api cfg refl ticked).1 in
            elim (ticks_drain cfg fees s₁ few (Ticked-IsSmall cfg refl ticked small)) [
              | inl (es, s₂, q, left) ↦ inl (e ∷ es, s₂, ground arith, omega (arith, left, shorter))
              | inr (q, before, fee', after, split, es, s₂, r, left, unsigned) ↦ inr (
                ground arith,
                fee ∷ before,
                fee',
                after,
                ap (◌∷◌ fee) split,
                e ∷ es,
                s₂,
                ground arith,
                omega (arith, left, shorter),
                unsigned,
              )
            ]
      ]
