-- ===== src/Tests/Challenges.antt =====
-- src/pow.rs: challenges, claims and evictions at concrete inputs.
use faucet_api.Common.{
  ℕ, ◌+◌, ◌≤◌, length, All, ◌*◌, ◌%◌, ◌^◌, ◌<◌, ◌≡◌, ◌↔◌, ◌⊎◌, refl, true, false, Option, none,
  some, List, [], ◌∷◌, Result, ok, err, arith, leb, sum,
}
use faucet_api.Chain.{l1, l2}
use faucet_api.Pow.Challenge.{Instant, Challenge, Key, PowError, already_claimed}
use faucet_api.Pow.ChallengeSet.Assoc.{function_map, function_map-IsLawful, put, compare_and_swap}
use faucet_api.Pow.LeadingZeros.{be_value, count_leading_zeros, count_leading_zeros_reaches}
use faucet_api.Pow.Eviction.{EvictionEntry, drain, Store, new, add_challenge, remove_expired, wake}
use faucet_api.Pow.Eviction.Termination.{drain_ends}
use faucet_api.Pow.Eviction.Drain.{IsEarliest}
use faucet_api.Pow.Eviction.Removal.{IsTracked, remove_expired_lem}
use faucet_api.Pow.Claims.{fresh, get, check_solution}
use faucet_api.Pow.Claims.Check.{IsChecked, check_solution-IsChecked}
use faucet_api.Pow.Claims.Gate.{
  IsDigest, preimage, check_solution-ok_iff, check_solution_once, get_again,
}
use faucet_api.Pow.Claims.Tracked.{new-IsTracked, get-IsTracked}
use faucet_api.Pow.Claims.Once.{IsOnce}
use faucet_api.Pow.Claims.Calls.{started, gets, checks, Calls-evicts}

-- A stand-in for SHA-256: twelve leading zero bits unless the sum of the bytes wraps high.
abbrev pub toy_sha256 : List ℕ → List ℕ
toy_sha256 bytes =
    0
    ∷ (sum bytes % 16)
    ∷ 7
    ∷ 7
    ∷ 7
    ∷ 7
    ∷ 7
    ∷ 7
    ∷ 7
    ∷ 7
    ∷ 7
    ∷ 7
    ∷ 7
    ∷ 7
    ∷ 7
    ∷ 7
    ∷ 7
    ∷ 7
    ∷ 7
    ∷ 7
    ∷ 7
    ∷ 7
    ∷ 7
    ∷ 7
    ∷ 7
    ∷ 7
    ∷ 7
    ∷ 7
    ∷ 7
    ∷ 7
    ∷ 7
    ∷ 7
    ∷ []

toy_sha256-IsDigest : (bytes : List ℕ) → IsDigest (toy_sha256 bytes)
toy_sha256-IsDigest bytes = record { in_range = omega arith; width = refl; nonzero = omega arith }

abbrev pub sample_nonce : List ℕ
sample_nonce = 1 ∷ 2 ∷ 3 ∷ 4 ∷ 5 ∷ 6 ∷ 7 ∷ 8 ∷ 9 ∷ 10 ∷ 11 ∷ 12 ∷ 13 ∷ 14 ∷ 15 ∷ 16 ∷ []

abbrev pub sample_solution : List ℕ
sample_solution = 0 ∷ 0 ∷ 0 ∷ 0 ∷ 0 ∷ 0 ∷ 0 ∷ 9 ∷ []

abbrev pub localhost : ℕ
localhost = 0x7f00_0001

-- An empty store, and the one after a request for the address.
abbrev pub at_start : Store function_map
at_start = record { set = function_map.empty; queue = new 1000 }

abbrev pub first_challenge : Challenge
first_challenge = fresh sample_nonce 12 500 2000

abbrev pub requested : Store function_map
requested = record {
  set = put (localhost, l1) (some first_challenge) function_map.empty;
  queue = add_challenge first_challenge localhost l1 (new 1000);
}

get_runs :
    get function_map l1 localhost 12 500 sample_nonce 2000 at_start
    ≡ some (first_challenge, requested)
unfolding get compare_and_swap new
get_runs = refl

sample_IsTracked : IsTracked function_map function_map-IsLawful requested
sample_IsTracked =
    get-IsTracked function_map function_map-IsLawful l1 localhost 12 500 sample_nonce 2000 at_start
      requested (new-IsTracked function_map function_map-IsLawful 1000) get_runs

pub stored : function_map.get (localhost, l1) requested.set ≡ some first_challenge
unfolding put
stored = refl

-- A wrong solution: the attempt is refused, and so is the right one afterwards.
abbrev tried : Result (Unit {0}) PowError × Store function_map
tried = check_solution function_map toy_sha256 l1 localhost sample_solution requested

count_runs :
    (count_leading_zeros (0 ∷ 0 ∷ 0x1f ∷ 0xff ∷ []) ≡ 19)
    × (count_leading_zeros (toy_sha256 (preimage first_challenge sample_solution)) ≡ 15)
unfolding count_leading_zeros
count_runs = (refl, refl)

check_runs : tried.0 ≡ ok tt
unfolding check_solution compare_and_swap count_leading_zeros
check_runs = refl

evict_runs :
    remove_expired function_map 2500 requested
    ≡ some (
      none,
      record {
        set = (function_map.remove (localhost, l1) requested.set).1;
        queue = record requested.queue { q = [] };
      },
    )
unfolding remove_expired add_challenge new
evict_runs = refl

get_again_example :
    (c : Challenge) × (s' : Store function_map) × (s'' : Store function_map) × (get function_map l2
        localhost 12 500 sample_nonce 2000 requested
      ≡ some (c, s'))
    × (get function_map l2 localhost 60 400 [] 2400 s' ≡ some (c, s''))
    × (s''.queue ≡ s'.queue)
get_again_example =
    get_again function_map function_map-IsLawful l2 localhost 12 60 500 400 sample_nonce [] 2000
      2400 requested

check_solution-ok_iff_example : (tried.0 ≡ ok tt) ↔ (
    (first_challenge.claimed ≡ false)
    × (be_value (toy_sha256 (preimage first_challenge sample_solution)) * 2 ^ 12 < 2 ^ 256))
check_solution-ok_iff_example =
    check_solution-ok_iff function_map function_map-IsLawful toy_sha256 l1 localhost sample_solution
      requested first_challenge stored
      (toy_sha256-IsDigest (preimage first_challenge sample_solution))

check_solution_once_example :
    (check_solution function_map toy_sha256 l1 localhost (1 ∷ []) tried.1).0 ≡ err already_claimed
check_solution_once_example =
    check_solution_once function_map function_map-IsLawful toy_sha256 l1 localhost sample_solution
      (1 ∷ []) requested first_challenge stored

check_solution-IsChecked_example :
    IsChecked function_map function_map-IsLawful toy_sha256 l1 localhost sample_solution requested
check_solution-IsChecked_example =
    check_solution-IsChecked function_map function_map-IsLawful toy_sha256 l1 localhost
      sample_solution requested

remove_expired_lem_example :
    (w : Option Instant) × (s' : Store function_map) × (remove_expired function_map 2400 requested
      ≡ some (w, s'))
    × ((k : Key) (c : Challenge) → function_map.get k s'.set ≡ some c → 2400 < c.expires_at)
    × ((k : Key) (c : Challenge)
        → function_map.get k requested.set ≡ some c
        → 2400 < c.expires_at
        → function_map.get k s'.set ≡ some c)
    × IsEarliest w s'.queue.q
    × IsTracked function_map function_map-IsLawful s'
remove_expired_lem_example =
    remove_expired_lem function_map function_map-IsLawful 2400 requested sample_IsTracked

-- The first challenge is issued, tried, and waited for.
Calls-evicts_example :
    IsTracked function_map function_map-IsLawful tried.1
    × IsOnce tried.1.queue.q
    × (s' : Store function_map) × (wake function_map 2400 tried.1 ≡ some s')
    × ((k : Key) (c : Challenge) → function_map.get k s'.set ≡ some c → 2400 < c.expires_at)
    × IsTracked function_map function_map-IsLawful s'
    × IsOnce s'.queue.q
Calls-evicts_example =
    Calls-evicts function_map function_map-IsLawful toy_sha256 1000 2400 tried.1 (
      checks l1 localhost sample_solution
        (gets l1 localhost 12 500 sample_nonce 2000 started get_runs))

abbrev zero_digest : List ℕ
zero_digest =
    0 ∷ 0 ∷ 0 ∷ 0 ∷ 0 ∷ 0 ∷ 0 ∷ 0 ∷ 0 ∷ 0 ∷ 0 ∷ 0 ∷ 0 ∷ 0 ∷ 0 ∷ 0 ∷ 0 ∷ 0 ∷ 0 ∷ 0 ∷ 0 ∷ 0 ∷ 0 ∷ 0
    ∷ 0 ∷ 0 ∷ 0 ∷ 0 ∷ 0 ∷ 0 ∷ 0 ∷ 0 ∷ []

count_leading_zeros_reaches_example : (leb 1 (count_leading_zeros zero_digest) ≡ true) ↔ (
    ((0 < be_value zero_digest) × (be_value zero_digest * 2 ^ 1 < 2 ^ 256))
    ⊎ ((be_value zero_digest ≡ 0) × (◌≡◌ {A = ℕ} 1 0)))
count_leading_zeros_reaches_example = count_leading_zeros_reaches zero_digest 1 (omega arith) refl

-- Three entries, of which two have expired, and five rounds to spare.
abbrev three_entries : List EvictionEntry
three_entries =
    record { ip = 1; chain = l1; expires_at = 900 }
    ∷ record { ip = 2; chain = l2; expires_at = 100 }
    ∷ record { ip = 3; chain = l1; expires_at = 500 }
    ∷ []

drain_ends_example :
    (es : List EvictionEntry) × (left : List EvictionEntry) × (w : Option Instant) × (drain 4 500
        three_entries
      ≡ some (es, left, w))
    × (drain 9 500 three_entries ≡ some (es, left, w))
    × All (λ e. e.expires_at ≤ 500) es
    × All (λ e. 500 < e.expires_at) left
    × (3 ≡ length es + length left)
drain_ends_example = drain_ends 500 three_entries 5
