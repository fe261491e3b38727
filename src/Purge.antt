-- ===== src/Purge.antt =====
-- features/warehouse/stocks: the job that purges empty stocks and orphan labels.
pub mod Tables
pub mod Job
pub mod Counts
pub mod Deleted
pub mod Batches
pub mod Safety
pub mod Tests
