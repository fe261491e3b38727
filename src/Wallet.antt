-- ===== src/Wallet.antt =====
-- The customers' wallets, features/payment/wallet/impl/src (wallet.service.ts, wallet.repository.ts),
-- over the tables of infrastructure/schema/src/actors/wallets.schema.ts. Each method runs in one
-- transaction under a lock on its idempotency key, so an exception leaves the database as it was.
pub mod Tables
pub mod Service
pub mod Refusals
mod Tests
