-- ===== src/Outbox.antt =====
-- The transactional outbox, infrastructure/messaging/outbox/src/drizzle-outbox.store.ts with its
-- tables (infrastructure/schema/src/public/outbox.drizzle.schema.ts). A table is the list of its
-- rows in primary-key order: `seq` for the messages. Texts, topics, keys, owners and JSON values
-- are only compared or copied, so they are numbers; a `Date` is its milliseconds.
pub mod Tables
pub mod Relay
pub mod DeadLetters
pub mod Inbox
pub mod Claim
pub mod Look
pub mod Order
pub mod Leases
pub mod Fencing
pub mod Requeue
pub mod Deliveries
mod Tests
