-- ===== src/Discount.antt =====
-- features/marketing/promotion: which discounts apply, and how often.
pub mod Usages
pub mod Applicable
pub mod Limits
pub mod Quantities
pub mod Unclaimed
pub mod Batch
pub mod Tests
