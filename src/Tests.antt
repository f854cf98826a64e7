-- ===== src/Tests.antt =====
-- Runs of the model on concrete inputs, and the theorems at such inputs.
mod Challenges
mod Threads
mod Difficulty
mod Unit
mod Batcher
mod Settings
mod Server
mod Wakeups
mod Service
mod Wallets
mod Startup
mod Database
