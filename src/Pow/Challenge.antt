-- ===== src/Pow/Challenge.antt =====
-- The data of src/pow.rs: challenges, keys and the errors of a claim. An `Instant` is the number of
-- nanoseconds since some fixed time, a `Duration` a number of nanoseconds, an `Ipv4Addr` its bits.
use faucet_api.Common.{ℕ, ◌*◌, ◌/◌, ◌%◌, ◌^◌, Bool, true, List, ℕ_discrete}
use faucet_api.Chain.{Chain, Chain-discrete}

abbrev pub Instant : Type 0
Instant = ℕ

-- An `Instant` holds whole seconds in an `i64`; from here on `Instant + Duration` panics.
abbrev pub instant_end : ℕ
instant_end = 2 ^ 63 * 1_000_000_000

abbrev pub Duration : Type 0
Duration = ℕ

-- Sixteen bytes.
abbrev pub Nonce : Type 0
Nonce = List ℕ

-- Eight bytes.
abbrev pub Solution : Type 0
Solution = List ℕ

pub record Challenge : Type 0 where
  pub nonce : Nonce
  pub claimed : Bool
  pub expires_at : Instant
  pub difficulty : ℕ

-- The derived `PartialEq` and `Eq`.
unfoldable pub Challenge-discrete : Discrete Challenge
unfolding ℕ_discrete
Challenge-discrete = hlevel ℕ_discrete

-- `(ip.to_bits(), chain)`
abbrev pub Key : Type 0
Key = ℕ × Chain

unfoldable pub Key-discrete : Discrete Key
unfolding Chain-discrete ℕ_discrete
Key-discrete = hlevel (ℕ_discrete, Chain-discrete)

-- `OneOf<(NonceNotFound, BadProofOfWork, AlreadyClaimed)>`
pub data PowError : Type 0 where
  nonce_not_found bad_proof_of_work already_claimed : PowError

-- `old_challenge.clone()` with `claimed = true`
abbrev pub mark_claimed : Challenge → Challenge
mark_claimed c = record c { claimed = true }

-- `Duration::as_millis() as u64`
abbrev pub as_millis : Duration → ℕ
as_millis d = d / 1_000_000 % 2 ^ 64
