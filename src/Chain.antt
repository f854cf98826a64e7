-- ===== src/Chain.antt =====
-- `Chain`, addresses and status codes of src/main.rs.
use Prim.Native.String.{String}
use text.Mathlib.Text.{◌==◌}
use faucet_api.Common.{ℕ, Result, ok, err, if◌then◌else◌}

pub data Chain : Type 0 where
  l1 l2 : Chain

unfoldable pub Chain-discrete : Discrete Chain
Chain-discrete = hlevel

-- `IpAddr`: the bits of an address.
pub data IpAddr : Type 0 where
  v4 : ℕ → IpAddr
  v6 : ℕ → IpAddr

-- The `StatusCode`s that the handlers answer with.
pub data StatusCode : Type 0 where
  bad_request unprocessable_entity internal_server_error : StatusCode

-- `Chain::try_from(&str)`
unfoldable pub try_from : String → Result Chain (StatusCode × String)
try_from level =
    if level == "l1"
    then ok l1
    else if level == "l2"
    then ok l2
    else err (bad_request, "Invalid chain. Must be 'l1' or 'l2'")
