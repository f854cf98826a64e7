-- ===== src/Settings/Limits.antt =====
-- src/settings.rs: which amounts are let through, and what that guards.
use faucet_api.Common.{
  ◌*◌, refl, Bool-cases, ltb, ltb→lt, ◌^◌, ◌≤◌, ◌<◌, ◌≡◌, none, some, ok, arith, inl, inr, ◌⊎◌,
}
use faucet_api.Server.{sats_to_wei}
use faucet_api.Settings.{max_sats_per_claim, ReadableSettings, Settings, fill, try_from}

module _ (ClientIpSource Network : Type 0) (signet : Network) where
  -- Settings are built exactly if neither amount is above the limit, with the amounts that were read,
  -- and then the amount of an L2 claim fits a `u64` in wei. Otherwise the server does not start.
  pub try_from_iff :
      (r : ReadableSettings ClientIpSource Network signet)
      → ((r.l1.amount_per_claim ≤ max_sats_per_claim)
          × (r.l2.amount_per_claim ≤ max_sats_per_claim)
          × ((s : Settings ClientIpSource Network signet) × (try_from ClientIpSource Network signet
                  r
                ≡ some (ok s))
              × (s.l1.amount_per_claim ≡ r.l1.amount_per_claim)
              × (s.l2.amount_per_claim ≡ r.l2.amount_per_claim)
              × (s.l2.amount_per_claim * sats_to_wei < 2 ^ 64)))
        ⊎ (((max_sats_per_claim < r.l1.amount_per_claim)
              ⊎ (max_sats_per_claim < r.l2.amount_per_claim))
            × (try_from ClientIpSource Network signet r ≡ none))
  unfolding try_from
  try_from_iff r = elim (Bool-cases (ltb max_sats_per_claim r.l1.amount_per_claim)) [
    | inl high ↦ inr (inl (ltb→lt _ _ high), ground arith)
    | inr low ↦ elim (Bool-cases (ltb max_sats_per_claim r.l2.amount_per_claim)) [
      | inl high' ↦ inr (inr (ltb→lt _ _ high'), ground arith)
      | inr low' ↦
          let small : r.l2.amount_per_claim ≤ max_sats_per_claim = ground arith in
          inl (
            ground arith,
            small,
            (fill ClientIpSource Network signet r, ground arith, refl, refl, omega arith),
          )
    ]
  ]
