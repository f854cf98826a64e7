-- ===== src/Startup/Success.antt =====
-- src/main.rs, `main`: when a start gets as far as the router.
use faucet_api.Seed.{Seed}
use faucet_api.Settings.{Settings}
use faucet_api.L1.Wallet.{create_missing, open_wallet}
use faucet_api.L1
use faucet_api.L2
