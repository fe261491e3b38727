-- ===== src/Delivery.antt =====
-- features/delivery: the delivery service over the table of deliveries.
pub mod Tables
pub mod Service
pub mod Idle
pub mod Reach
pub mod Tests
