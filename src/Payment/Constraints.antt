-- ===== src/Payment/Constraints.antt =====
-- The CHECK constraints of `payments` and its primary key
-- (infrastructure/schema/src/order/payment.schema.ts). The amounts are never negative here.
use jonoob_part_backend.Common.{
  ℕ, ◌≡◌, Bool, true, false, not, ◌&&◌, ◌==◌, Option, none, some, List, [], ◌∷◌, All, is_some, ltb,
}
use jonoob_part_backend.Payment.Rows.{
  PaymentStatus, pending, processing, paid, failure, expired, refunded, PaymentMethod, wallet,
  gateway, partial, RefundType, full, partly, PaymentRow,
}

abbrev pub is_positive : Option ℕ → Bool
is_positive none = false
is_positive (some n) = ltb 0 n

-- `payments_method_allocation`
abbrev pub method_allocation :
    Option PaymentMethod → (amount wallet gateway key code : Option ℕ) → Bool
method_allocation none a w g k c =
    not (is_some a) && not (is_some w) && not (is_some g) && not (is_some k) && not (is_some c)
method_allocation (some wallet) a w g k c =
    is_some a && not (is_some w) && not (is_some g) && not (is_some k) && not (is_some c)
method_allocation (some gateway) a w g k c =
    is_some a && not (is_some w) && not (is_some g) && is_some k && is_some c
method_allocation (some partial) a w g k c =
    not (is_some a) && is_positive w && is_positive g && is_some k && is_some c

-- `payments_status_method`
abbrev pub status_method : PaymentStatus → Option PaymentMethod → Bool
status_method pending m = not (is_some m)
status_method expired m = true
status_method processing m = is_some m
status_method failure m = is_some m
status_method paid m = is_some m
status_method refunded m = is_some m

-- `payments_settle_timestamp`
abbrev pub settle_timestamp : Option PaymentMethod → Option ℕ → Bool
settle_timestamp none at = not (is_some at)
settle_timestamp (some m) at = is_some at

abbrev pub refund_kind : Option RefundType → Option PaymentMethod → Option ℕ → Bool
refund_kind (some full) (some m) a = not (is_some a)
refund_kind (some partly) (some wallet) a = is_some a
refund_kind _ _ _ = false

-- `payments_refund_fields`
abbrev pub refund_fields :
    PaymentStatus → Option ℕ → Option RefundType → Option PaymentMethod → Option ℕ → Bool
refund_fields refunded at t d a = is_some at && refund_kind t d a
refund_fields _ at t d a = not (is_some at) && not (is_some t) && not (is_some d) && not (is_some a)

-- `payments_paid_timestamp`
abbrev pub paid_timestamp : PaymentStatus → Option ℕ → Bool
paid_timestamp paid at = is_some at
paid_timestamp _ at = not (is_some at)

abbrev pub MeetsChecks : PaymentRow → Type 0
MeetsChecks row =
    (method_allocation row.method row.amount row.wallet_amount row.gateway_amount row.gateway_key
        row.tracking_code
      ≡ true)
    × (status_method row.status row.method ≡ true)
    × (settle_timestamp row.method row.settle_requested_at ≡ true)
    × (refund_fields row.status row.refunded_at row.refund_type row.refund_destination
          row.refunded_amount
        ≡ true)
    × (paid_timestamp row.status row.paid_at ≡ true)

-- No two rows have the same id.
abbrev pub IsKeyed : List PaymentRow → Type 0
IsKeyed [] = Unit
IsKeyed (row ∷ rows) = All (λ x. (x.id == row.id) ≡ false) rows × IsKeyed rows

abbrev pub WellFormed : List PaymentRow → Type 0
WellFormed rows = IsKeyed rows × All MeetsChecks rows
