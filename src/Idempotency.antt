-- ===== src/Idempotency.antt =====
-- The idempotency records, infrastructure/idempotency/src/redis-idempotency.store.ts: the Lua
-- scripts, which Redis runs atomically, and the methods over them. Keys, owners and fingerprints are
-- only compared, so they are numbers; times are Redis's clock in milliseconds.
pub mod Records
pub mod Scripts
pub mod Methods
pub mod Calls
pub mod Locks
pub mod Replays
pub mod Fencing
mod Tests
