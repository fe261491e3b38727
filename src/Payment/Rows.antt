-- ===== src/Payment/Rows.antt =====
-- The rows of `payments`, and what `PaymentRepository` does with them. Identifiers, keys and tracking
-- codes are only compared or passed on, so they are numbers; a `Date` is its milliseconds; a column
-- that may be NULL is an `Option`.
use jonoob_part_backend.Common.{
  ℕ, Bool, true, false, ◌&&◌, Option, none, some, List, map, find?, ◌==◌, if◌then◌else◌,
}

pub data PaymentStatus : Type 0 where
  pending processing paid failure expired refunded : PaymentStatus

-- `method` and `refund_destination` have the same values.
pub data PaymentMethod : Type 0 where
  wallet gateway partial : PaymentMethod

pub data RefundType : Type 0 where
  full partly : RefundType

pub record PaymentRow : Type 0 where
  pub id : ℕ
  pub order_id : ℕ
  pub customer_id : Option ℕ
  pub expiry_job_id : Option ℕ
  pub status : PaymentStatus
  pub method : Option PaymentMethod
  pub amount : Option ℕ
  pub wallet_amount : Option ℕ
  pub gateway_amount : Option ℕ
  pub gateway_key : Option ℕ
  pub tracking_code : Option ℕ
  pub settle_requested_at : Option ℕ
  pub paid_at : Option ℕ
  pub refunded_at : Option ℕ
  pub refund_type : Option RefundType
  pub refund_destination : Option PaymentMethod
  pub refunded_amount : Option ℕ

-- `===` on statuses.
abbrev pub same_status : PaymentStatus → PaymentStatus → Bool
same_status pending pending = true
same_status processing processing = true
same_status paid paid = true
same_status failure failure = true
same_status expired expired = true
same_status refunded refunded = true
same_status _ _ = false

abbrev pub has_id : ℕ → PaymentRow → Bool
has_id id row = row.id == id

abbrev pub find_by_id : ℕ → List PaymentRow → Option PaymentRow
find_by_id id = find? (has_id id)

-- `Settlement`, without the time and the customer, which every case carries.
pub data Settlement : Type 0 where
  by_wallet : (amount : ℕ) → Settlement
  by_gateway : (amount gateway_key tracking_code : ℕ) → Settlement
  by_both : (wallet_amount gateway_amount gateway_key tracking_code : ℕ) → Settlement

-- The values that `settle` writes.
unfoldable pub settled : ℕ → Option ℕ → Settlement → PaymentRow → PaymentRow
settled at customer (by_wallet a) row = record row {
  status = paid;
  method = some wallet;
  customer_id = customer;
  settle_requested_at = some at;
  paid_at = some at;
  amount = some a;
  wallet_amount = none;
  gateway_amount = none;
  gateway_key = none;
  tracking_code = none;
}
settled at customer (by_gateway a key code) row = record row {
  status = processing;
  method = some gateway;
  customer_id = customer;
  settle_requested_at = some at;
  paid_at = none;
  amount = some a;
  wallet_amount = none;
  gateway_amount = none;
  gateway_key = some key;
  tracking_code = some code;
}
settled at customer (by_both w g key code) row = record row {
  status = processing;
  method = some partial;
  customer_id = customer;
  settle_requested_at = some at;
  paid_at = none;
  amount = none;
  wallet_amount = some w;
  gateway_amount = some g;
  gateway_key = some key;
  tracking_code = some code;
}

-- `WHERE id = ... AND status = 'pending'`
abbrev pub is_pending_row : ℕ → PaymentRow → Bool
is_pending_row id row = has_id id row && same_status row.status pending

abbrev pub update_rows :
    (PaymentRow → Bool) → (PaymentRow → PaymentRow) → List PaymentRow → List PaymentRow
update_rows p f = map (λ row. if p row then f row else row)

-- `PaymentStatusUpdate`
pub data StatusUpdate : Type 0 where
  to_pending to_failure to_expired to_paid : StatusUpdate
  to_refunded : (destination : PaymentMethod) → StatusUpdate
  to_partly_refunded : (refunded_amount : ℕ) → StatusUpdate

abbrev pub cleared : PaymentRow → PaymentRow
cleared row = record row {
  paid_at = none;
  refunded_at = none;
  refund_type = none;
  refund_destination = none;
  refunded_amount = none;
}

-- The values that `updateStatus` writes at the time `now`.
unfoldable pub with_status : ℕ → StatusUpdate → PaymentRow → PaymentRow
with_status now to_paid row = record (cleared row) { status = paid; paid_at = some now }
with_status now (to_refunded destination) row = record (cleared row) {
  status = refunded;
  refunded_at = some now;
  refund_type = some full;
  refund_destination = some destination;
}
with_status now (to_partly_refunded a) row = record (cleared row) {
  status = refunded;
  refunded_at = some now;
  refund_type = some partly;
  refund_destination = some wallet;
  refunded_amount = some a;
}
with_status now to_pending row = record (cleared row) {
  status = pending;
  method = none;
  amount = none;
  wallet_amount = none;
  gateway_amount = none;
  gateway_key = none;
  tracking_code = none;
  settle_requested_at = none;
}
with_status now to_failure row = record (cleared row) { status = failure }
with_status now to_expired row = record (cleared row) { status = expired }
