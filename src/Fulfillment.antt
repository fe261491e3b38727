-- ===== src/Fulfillment.antt =====
-- The fulfillment service of features/order.
pub mod Stocks
pub mod Service
pub mod Picks
pub mod Effects
pub mod Tests
