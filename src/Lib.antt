-- ===== src/Lib.antt =====
-- A verification library for the faucet API: a server that gives away funds on two chains against proofs
-- of work.
--
-- The program and its parts. A client asks for a challenge (`get_pow_challenge` in src/main.rs). The server
-- takes the chain's balance, computes a difficulty from it (`calculate_difficulty` in src/pow.rs), and stores
-- one `Challenge` per IPv4 address and chain in a concurrent map (`Challenge::get`); the eviction queue is
-- told when it expires (`EvictionQueue::add_challenge`), and its task deletes it then (`remove_expired`).
-- With a solution the client claims (`claim_l1`, `claim_l2`): `Challenge::check_solution` marks the challenge
-- as claimed and checks the digest. An L1 claim then goes to the batcher (src/batcher.rs), whose task pays
-- many requests in one transaction; an L2 claim is sent to the node at once. At the start (`main`) the
-- server reads its settings (src/settings.rs) and its seed (src/seed.rs), opens its wallets (src/l1.rs,
-- src/l2.rs), and begins to follow the fee rate and to sync the L1 wallet (src/l1.rs). A server of its own,
-- utils/html-solver, gives out the page that solves challenges in a browser.
--
-- Which file models what. Names of functions and types are those of the source.
--   Common: the names and lemmas that the parts share; Common/Lists, Common/Tests and Common/Results are
--     the lists with a native length, the Boolean tests, and results that are values or errors.
--   Chain: `Chain`, addresses and status codes of src/main.rs.
--   Pow/LeadingZeros: `count_leading_zeros` on bytes, with the wrap-around of a `u8`.
--   Pow/Challenge: `Challenge` and the errors. A time is a number of nanoseconds.
--   Pow/ChallengeSet: `ChallengeSet`, the map of the crate concurrent_map, as a record of operations with
--     its laws; Pow/ChallengeSet/Assoc is an instance of it.
--   Pow/BinaryHeap: the heap of the standard library as a list, with an order as its argument; `pop` takes
--     out a greatest element.
--   Pow/Eviction: `EvictionQueue` and one turn of its task, `receive_wakeup` or `wake`; the children
--     are about `remove_expired` (Drain, Removal) and the wakeups of the task (Scheduled, Wakeups).
--   Pow/Claims: `Challenge::get` and `Challenge::check_solution` as functions on the store; the children
--     are about their effect, and about the map and the heap together (Tracked and Once after one call, Calls after many).
--   Pow/Threads: the same code as steps of many threads and the task, one step for each access to
--     the map or the heap; a look at the wakeup time and the message that follows are one step.
--     Pow/Threads/Pending says what each thread and the task still owe the heap; Adding and Removing follow one
--     step each, Eviction all of them. Pow/Threads/Timed says what there is for each entry of the heap to be woken for;
--     Told and Stored follow one step each, Timely all but a look at the wakeup time just before it changes
--     (Pow/Threads/LostWakeup is about that one).
--   Float: the language's `f32`, exactly, as an integer number of units of 2^-149 (Float/Rounding
--     rounds; Float/Exact, Float/Operations, Float/Rounding/Bounds and
--     Float/Rounding/Near are its lemmas).
--   Pow/Difficulty: `DifficultyConfig::new` and `calculate_difficulty`; the children follow a configuration
--     from its checks (Checks, Steps, Shape) to the arms (Arms, Line, Accepts). Pow/Difficulty/Slope, Closeness and
--     Documented hold it against the formula of docs/pow.md, Range is about all balances, and Accepted about
--     the settings that `new` takes.
--   Batcher: the queue and the loop of the task; a turn is what `select!` takes, a run a list of turns.
--     A tick is one turn, since the wallet's lock is held over it; a broadcast ends in a turn of its own.
--     Batcher/Refinement holds it against an abstract ledger.
--   Settings, Seed: src/settings.rs and src/seed.rs; Settings/Load is `SETTINGS`, over the crate config as a record.
--   L1: the fee task of src/l1.rs; L1/Persister is `Persister`, L1/Wallet `L1Wallet::new`, L1/Syncer the loop of
--     `spawn_syncer`.
--   L2: `L2Wallet::new`, `get_bip44_evm_wallet` and the balance of src/l2.rs.
--   Server: the five handlers of src/main.rs, over the models above.
--   Service: the running server, one step for each request that is served, each message that the batcher takes from
--     its channel, each tick, and each turn of the eviction task. Service/Router has the routes; Service/Gate,
--     Service/Effect, Service/Served and Service/Funds follow one step each, Service/Solvency all of them;
--     Service/Payout follows a claim to its payment, over Service/Delivery and, for a wallet that can pay for the queue,
--     Batcher/Payout.
--   Startup: `main` up to the state that the router is given; Startup/Restart is about two starts on one machine,
--     Startup/Defaults about the defaults of the difficulty, Startup/Crates and Success about when a start succeeds,
--     Startup/Solvent about the server that is handed its state.
--   HtmlSolver: utils/html-solver/src/main.rs.
--   Tests: concrete runs; Tests/Unit has the unit tests of src/pow.rs.
--
-- How it is modelled. Shared state is an argument and a result; a panic is `none`, a `Result` is `Result`.
-- Clocks, random bytes, SHA-256, the wallets of bdk and alloy, the database, the answers of the L2 node, of
-- esplora and of the file system are arguments. The map's laws say that it is one map whose operations are atomic: `get` after
-- `cas` and `remove` is what these left there. What the payments need of the wallet
-- is a named hypothesis with an instance in Tests: that a signed transaction pays the recipients it was built for, and
-- in Service/Payout that it can pay for the batches at hand. An instant is a number; where `get_pow_challenge` adds a
-- duration to one, the end of what an `Instant` holds is a panic.
--
-- Fuel. `drain` runs on one step more than the heap has elements, and each step takes one out. `excess` of
-- Float/Rounding halves a number at most as often as the number is large. `Challenge::check_solution` tries
-- its compare-and-swap once and has no loop; in Pow/Threads a step may lose the race.
--
-- In Service a request is one step, as if each handler ran alone; Pow/Threads has the interleavings of the accesses
-- to the challenges. Its two lists of keys are a record that no code reads.
--
-- Not modelled: logging, sockets, decoding of paths and printing of numbers, the crate that reads the
-- configuration, the macros of src/macros.rs (what they expand to is in the models of their users), and the solver
-- in Python under utils/.
pub mod Common
pub mod Chain
pub mod Float
pub mod Pow
pub mod Batcher
pub mod Settings
pub mod Seed
pub mod L1
pub mod L2
pub mod Server
pub mod Service
pub mod Startup
pub mod HtmlSolver
mod Tests
