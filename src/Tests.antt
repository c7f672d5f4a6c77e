-- ===== src/Tests.antt =====
-- The theorems at concrete inputs.
mod Samples
mod Realtime
mod Gateway
mod Wallet
mod Jobs
mod Calls
mod Guards
mod Scripts
mod Config
mod Accounts
mod Push
mod Services
