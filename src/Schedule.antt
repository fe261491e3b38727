-- ===== src/Schedule.antt =====
-- The opening hours of the store, features/store/schedule/impl/src (schedule.service.ts, utils.ts,
-- schedule.schema.ts). A date is its milliseconds; the calendar of `Date` is a parameter.
pub mod Times
pub mod Settings
pub mod Store
pub mod Service
pub mod Search
pub mod OpenNow
pub mod NextOpening
mod Tests
