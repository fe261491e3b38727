-- ===== src/Supply.antt =====
-- features/procurement/supply: the documents of supplies.
pub mod Loops
pub mod Documents
pub mod Service
pub mod Diff
pub mod Stock
pub mod Moves
pub mod Undo
pub mod Tests
