-- ===== src/RateLimit.antt =====
-- infrastructure/rate-limit: the script over Redis and the service that calls it.
pub mod Values
pub mod Algorithms
pub mod Script
pub mod Service
pub mod Checking
pub mod Choice
pub mod Deciding
pub mod Tests
