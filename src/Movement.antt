-- ===== src/Movement.antt =====
-- features/warehouse/movement: the repository of movements.
pub mod Payloads
pub mod Repository
pub mod Sorted
pub mod Replay
pub mod Tests
