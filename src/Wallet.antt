-- ===== src/Wallet.antt =====
-- src/wallet/wallet.service.ts: top-ups, the Razorpay webhook and the balance.
pub mod Topup
pub mod Webhook
