-- ===== src/Payment.antt =====
-- The payments of orders: features/payment/impl/src (payment.service.ts, payment.repository.ts,
-- payment.types.ts, payment.schema.ts) over the table of
-- infrastructure/schema/src/order/payment.schema.ts.
pub mod Rows
pub mod Monad
pub mod Services
pub mod Selection
pub mod Core
pub mod Scheduling
pub mod Settle
pub mod Refund
pub mod Logic
pub mod Constraints
pub mod Outcome
pub mod Effects
pub mod Unsettled
pub mod Refunds
pub mod Allocations
pub mod Tickets
pub mod Settlements
pub mod Consistency
pub mod Handlers
pub mod Callbacks
pub mod Verdicts
pub mod Requests
pub mod Lifecycle
mod Tests
mod VerdictTests
