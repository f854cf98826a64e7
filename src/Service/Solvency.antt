-- ===== src/Service/Solvency.antt =====
-- The running server: what it pays on both chains, against the challenges that it gave out.
use native.Mathlib.Nat.{mul-le-mul_left, mul-add}
use faucet_api.Common.{
  ℕ, ◌+◌, ◌*◌, ◌≤◌, ◌≡◌, Option, List, ok, arith, total, total-append, total_mono, ap, same, ◌++◌,
}
use faucet_api.Chain.{l1, l2}
use faucet_api.Pow.Challenge.{Instant, Key, Key-discrete}
use faucet_api.Pow.ChallengeSet.{ConcurrentMap, IsLawful}
use faucet_api.Pow.Threads.Gate.{open_for}
use faucet_api.Batcher.{BatcherConfig, WalletApi, finish_broadcast}
use faucet_api.Settings.{max_sats_per_claim}
use faucet_api.Server.{Layers, value_of, sats_to_wei}
use faucet_api.Service.{
  Service, Step, serves, delivers, ticks, broadcasts, wakes, is_told, Reach, here, next, init,
}
use faucet_api.Server.Claims.{value_of-small}
use faucet_api.Service.Router.{passed_by, issued_by}
use faucet_api.Service.Gate.{times, open_at, wake-open}
use faucet_api.Service.Effect.{on, amount_of, waiting}
use faucet_api.Service.Served.{serve-Effect}
use faucet_api.Service.Funds.{held, tick-held, receive-held}

priced-append :
    {A : Type 0} (price : ℕ) (w : A → ℕ) (xs ys : List A)
    → price * total w (xs ++ ys) ≡ price * total w xs + price * total w ys
priced-append price w xs ys = rw (total-append w xs ys) (mul-add price (total w xs) (total w ys))

module _ (cm : ConcurrentMap) (laws : IsLawful cm) (sha256 : List ℕ → List ℕ) (api : WalletApi)
    (Unchecked L2Address : Type 0) (layers : Layers)
    (require_network : Unchecked → Option api.Address) (cfg : BatcherConfig) where
  open api use {Wallet, Script, Psbt, Tx, finish, sign, extract_tx}

  abbrev pub Server : Type 0
  Server = Service cm sha256 api Unchecked L2Address layers require_network cfg

  abbrev a_value : ℕ
  a_value = value_of cm sha256 Unchecked api.Address L2Address layers.l2.amount_per_claim

  module _ (pays : Tx → List (Script × ℕ))
      (honest : (fee : ℕ) (rs : List (Script × ℕ)) (w : Wallet) (psbt signed : Psbt) (tx : Tx)
        → (finish fee rs w).0 ≡ ok psbt
        → sign psbt (finish fee rs w).1 ≡ ok signed
        → extract_tx signed ≡ ok tx
        → pays tx ≡ rs) where
    -- Claims pass against challenges, and payouts are made for claims that passed.
    record IsSolvent (s : Server) : Type 0 where
      gate :
          (j : Key) → times j s.passed + open_at cm laws sha256 j s.faucet.store ≤ times j s.issued
      l1_owed :
          held api pays honest s.batcher + waiting s.faucet.payout_sender
          ≤ layers.l1.amount_per_claim * total (on l1) s.passed
      l2_asked : total amount_of s.faucet.l2_sent ≤ a_value * total (on l2) s.passed

    init-IsSolvent :
        (start : Instant) (wallet : Wallet)
        → IsSolvent (init cm sha256 api Unchecked L2Address layers require_network cfg start wallet)
    init-IsSolvent start wallet = record {
      gate = λ j. omega (arith, ap open_for (laws.get-empty j));
      l1_owed = omega arith;
      l2_asked = omega arith;
    }

    Step-IsSolvent :
        {s s' : Server}
        → Step cm sha256 api Unchecked L2Address layers require_network cfg s s'
        → IsSolvent s
        → IsSolvent s'
    Step-IsSolvent {s} (serves a {answer} {f} h) inv =
        let e =
          serve-Effect cm laws sha256 Unchecked api.Address L2Address layers require_network a
            s.faucet f answer h in
        let passed : List Key = passed_by cm sha256 a.request a.ip s.faucet.store in
        let issued : List Key = issued_by cm a.request a.ip s.faucet.store f.store in
        record {
          gate = λ j. omega (
            arith,
            e.gate j,
            inv.gate j,
            total-append (same Key-discrete j) passed s.passed,
            total-append (same Key-discrete j) issued s.issued,
          );
          l1_owed = omega (
            arith,
            e.owed,
            inv.l1_owed,
            priced-append layers.l1.amount_per_claim (on l1) passed s.passed,
          );
          l2_asked =
              omega (arith, e.asked, inv.l2_asked, priced-append a_value (on l2) passed s.passed);
        }
    Step-IsSolvent {s} (delivers {address} {amount} {rest} h) inv =
        let more =
          receive-held api pays honest cfg (record { address = address; amount = amount })
            s.batcher in
        record {
          gate = inv.gate;
          l1_owed = omega (arith, more, inv.l1_owed, ap waiting h);
          l2_asked = inv.l2_asked;
        }
    Step-IsSolvent {s} (ticks fee {e} {b} h) inv = record {
      gate = inv.gate;
      l1_owed = omega (arith, tick-held api pays honest cfg fee s.batcher b e h, inv.l1_owed);
      l2_asked = inv.l2_asked;
    }
    Step-IsSolvent {s} (broadcasts b r) inv = record {
      gate = inv.gate;
      l1_owed = unfold finish_broadcast in inv.l1_owed;
      l2_asked = inv.l2_asked;
    }
    Step-IsSolvent {s} (wakes now {store} h) inv = record {
      gate = λ j. omega (arith, inv.gate j, wake-open cm laws sha256 now s.faucet.store store j h);
      l1_owed = inv.l1_owed;
      l2_asked = inv.l2_asked;
    }
    Step-IsSolvent {s} (is_told h) inv = record {
      gate = inv.gate;
      l1_owed = inv.l1_owed;
      l2_asked = inv.l2_asked;
    }

    Reach-IsSolvent :
        {s s' : Server}
        → Reach cm sha256 api Unchecked L2Address layers require_network cfg s s'
        → IsSolvent s
        → IsSolvent s'
    Reach-IsSolvent here inv = inv
    Reach-IsSolvent (next steps step) inv = Step-IsSolvent step (Reach-IsSolvent steps inv)

    -- In every state that the server reaches from its start, with a wallet whose signed transactions pay the
    -- recipients that they were built for and an L2 amount within the limit of the settings: what all L1
    -- transactions pay, with what is queued or on its way to the batcher, is at most the amount of a claim
    -- times the number of new L1 challenges; and what was asked of the L2 node is at most that amount in wei
    -- times the number of new L2 challenges.
    pub solvency :
        (start : Instant) (wallet : Wallet) (s : Server)
        → Reach cm sha256 api Unchecked L2Address layers require_network cfg
            (init cm sha256 api Unchecked L2Address layers require_network cfg start wallet)
            s
        → layers.l2.amount_per_claim ≤ max_sats_per_claim
        → (held api pays honest s.batcher + waiting s.faucet.payout_sender
            ≤ layers.l1.amount_per_claim * total (on l1) s.issued)
          × (total amount_of s.faucet.l2_sent
              ≤ layers.l2.amount_per_claim * sats_to_wei * total (on l2) s.issued)
    solvency start wallet s steps small =
        let inv = Reach-IsSolvent steps (init-IsSolvent start wallet) in
        let fewer : (j : Key) → times j s.passed ≤ times j s.issued =
          λ j. omega (arith, inv.gate j) in
        let l1_fewer = total_mono Key-discrete (on l1) s.passed s.issued fewer in
        let l2_fewer = total_mono Key-discrete (on l2) s.passed s.issued fewer in
        let value =
          value_of-small cm sha256 Unchecked api.Address L2Address layers.l2.amount_per_claim
            small in
        (
          omega (arith, inv.l1_owed, mul-le-mul_left layers.l1.amount_per_claim l1_fewer),
          omega (
            arith,
            inv.l2_asked,
            mul-le-mul_left a_value l2_fewer,
            ap (λ v. v * total (on l2) s.issued) value,
          ),
        )
