-- ===== src/Lib.antt =====
-- The core of the spare-parts shop's backend: the components that carry state and must survive
-- concurrency, crashes and retries.
--
-- Parts and files:
-- - Outbox (infrastructure/messaging/outbox/src/drizzle-outbox.store.ts): messages written in the
--   transaction of a business change, claimed by relays, published, rescheduled, buried and
--   requeued; an inbox that records deliveries. Outbox/Tables holds the rows and `add`, Relay what
--   a relay writes back, DeadLetters the requeue and the purge, Inbox the record of deliveries,
--   Claim `claim` and `claimable`. Look, Order, Leases, Fencing, Requeue and Deliveries are proofs.
-- - Payment (features/payment/impl/src): the payments of orders. Rows is the table with the writes
--   of payment.repository.ts, Monad the transactions and exceptions, Services what the service
--   calls, Selection the requests (payment.schema.ts, payment.types.ts), Core, Settle and Refund
--   the methods of payment.service.ts, Scheduling
--   `scheduleExpirePaymentJob`, Handlers expire-payment.job.ts and payment-callback.handler.ts,
--   Requests the sequences of calls, Constraints the CHECK constraints
--   of infrastructure/schema/src/order/payment.schema.ts. The other modules are proofs.
-- - Idempotency (infrastructure/idempotency/src/redis-idempotency.store.ts): Records holds the
--   Redis hash and its expiry, Scripts the four Lua scripts, Methods the store's methods, Calls
--   their sequences. Locks, Replays and Fencing are proofs.
-- - Schedule (features/store/schedule/impl/src): Times is utils.ts, Settings is schedule.schema.ts
--   with the default settings, Store the parsing of what is stored
--   (infrastructure/settings-store/src/drizzle-settings-store.ts), Service is `isOpenNow`,
--   `getBusinessHours` and `setBusinessHours`, and Search `getNextBusinessHours` of
--   schedule.service.ts. OpenNow and NextOpening are proofs.
-- - Wallet (features/payment/wallet/impl/src): Tables is wallet.repository.ts over the tables of
--   infrastructure/schema/src/actors/wallets.schema.ts, Service is `credit`, `debit` and
--   `commitFreeze` of wallet.service.ts, and Refusals proves what the tables make of them.
-- - RateLimit: infrastructure/rate-limit. Values is what Redis keeps, Algorithms the four
--   algorithms of the Lua script, Script its loop over the rules, and Service the TypeScript around
--   it. Checking, Choice and Deciding prove what a call decides. Settings are whole numbers; times
--   are exact microseconds and tokens exact millionths, where the script computes with floats and
--   writes six digits back.
-- - Fulfillment: features/order/impl/src/fulfillment(is_a_order_status_not_an_entity). Stocks sums
--   lines and picks by stock and compares the sums, Service has the four calls; Picks proves what
--   completes, Effects what the cancellations do. An exception takes the transaction back, so a
--   call gives the database after it or an error.
-- - Delivery: features/delivery/impl/src with the checks of
--   infrastructure/schema/src/order/deliveries.schema.ts. Tables has the rows and the checks,
--   Service the calls; Idle and Reach prove what the calls can reach.
-- - Pagination:
--   shared/_src(will_be_removed_in_future_after_files_moved_to_thier_places)/pagination.ts. Texts
--   has the functions of strings, Sort and Filters the parsers of a query and the condition; Terms
--   and Where prove what they accept and let through.
-- - Purge: features/warehouse/stocks/http/src/jobs. Tables has the repository's queries and
--   deletions, Job the loop, the run and the handler; Deleted, Batches and Safety prove which rows
--   go, Counts how many and after how many batches. The batches are numbered, and what each finds
--   is a function of its number.
-- - Movement: features/warehouse/movement/impl/src/movement.repository.ts. Payloads has `unordered`
--   of shared/impl/utils/canonical.ts, Repository the record and the deletion of a movement; Sorted
--   and Replay prove what a repeated record does. `JSON.stringify` and the tables' constraints are
--   parameters.
-- - Collections: `toMap` of shared/impl/utils/collections.ts. Maps has the loop, Groups proves what
--   the map holds.
-- - Supply: features/procurement/supply/impl/src/supply.service.ts. Documents has the documents and
--   what an edit makes of two of them, Service the recording, the edit and the removal; Loops and
--   Collections/Keyed are lemmas on lists with distinct keys, Diff proves what an edit does for
--   each good, Stock, Moves and Undo what the calls do to the stock. `LineItems` of
--   `@feature/shared` is the interface Collections/LineItems.
-- - Markup: features/store/pricing/markup/impl/src/markup.service.ts. Policies has the policies and
--   the choice by priority, Service the resolution; Choice proves which policy wins, Ignored which
--   are never found. Collections/Table is a concrete collection for the tests.
-- - Discount: features/marketing/promotion/x/impl/src/discount_is_value_not_an_entity.service.ts.
--   Usages has the limits and their check, Applicable the look-ups for one product and for many;
--   Limits proves the check against the offer, Quantities, Unclaimed and Batch the one look-up
--   against the other.
-- - Common: Boolean tests, lists, results, numbers and integers, which all parts share.
--
-- How the code is read: identifiers, keys, texts and JSON values are only compared or copied, so they
-- are natural numbers; a date is its milliseconds; a nullable column is an `Option`; a table is the
-- list of its rows. An action takes the world and returns a result with the world after it; a
-- transaction that fails puts the database back. The search over 14 days counts them down; no other
-- definition needs fuel.
--
-- Parameters: the wallet, delivery and fulfillment services, the gateways, the job queue and the
-- clock of the payment service are fields of the record `Services`, and the theorems hold for all of
-- them. What other transactions commit during a claim, and which rows they have locked, are
-- functions. JSON is a pair of functions of the idempotency store, and the calendar of `Date` a record
-- of functions of the schedule. The wallet's statements on a column that its table lacks are functions
-- of the database. The collection `LineItems`, of which the repository has only uses, is an
-- interface; the warehouse, the purchases, the catalog and the repositories of supplies, markups and
-- discounts are records of functions.
--
-- Not modelled: `freeze` and `releaseFreeze` of the wallet, which read undefined variables, its
-- `getBalance`, the unique indexes on the ids of requeued messages and on the tracking codes of
-- payments, the statistics and listings of the outbox, its advisory locks (waits), the HTTP
-- controllers, dependency injection, SQL text, the gateways' HTTP clients, and the features listed
-- in the project's manifest. The lock of `exclusive` is taken to hold: calls on payments run one
-- after the other. Which rows a run of the purge finds in use by other rows does not change within
-- the run.

pub mod Collections
pub mod Common
pub mod Delivery
pub mod Discount
pub mod Fulfillment
pub mod Idempotency
pub mod Markup
pub mod Movement
pub mod Outbox
pub mod Pagination
pub mod Payment
pub mod Purge
pub mod RateLimit
pub mod Schedule
pub mod Supply
pub mod Wallet
