-- ===== src/Markup.antt =====
-- features/store/pricing/markup: which markup a product gets.
pub mod Policies
pub mod Service
pub mod Ignored
pub mod Choice
pub mod Tests
