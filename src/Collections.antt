-- ===== src/Collections.antt =====
-- shared/impl/utils/collections.ts.
pub mod Maps
pub mod Groups
pub mod LineItems
pub mod Keyed
pub mod Table
pub mod Tests
