-- ===== src/Payment/Core.antt =====
-- `PaymentService` up to the gateways' answers: `expire`, `verify` and `cancel`.
use jonoob_part_backend.Common.{ℕ, Bool, not, Option, none, some, List, any, find?, ◌==◌, ok}
use jonoob_part_backend.Payment.Rows.{
  PaymentStatus, processing, PaymentRow, same_status, find_by_id, has_id, Settlement, settled,
  is_pending_row, update_rows, StatusUpdate, to_pending, to_failure, to_expired, to_paid,
  with_status,
}
use jonoob_part_backend.Payment.Monad.{
  OrderContext, Db, not_found, conflict, internal, Action, pure, and_then, raise, or_raise, gets,
  ◌>>=◌, ◌>>◌, raise_if, when, transaction, in_db, outside,
}
use jonoob_part_backend.Payment.Services.{
  refund_key, GatewayStatus, verified, verified_before, PaymentGateway, Services,
}
use jonoob_part_backend.Payment.Selection.{is_partial, is_wallet}

abbrev pub set_payments : {W : Type 0} → (List PaymentRow → List PaymentRow) → Db W → Db W
set_payments f db = record db { payments = f db.payments }

module _ {W X : Type 0} (sv : Services W X) where
  unfoldable pub require_payment : ℕ → Action W X PaymentRow
  require_payment id w = or_raise (find_by_id id w.db.payments) not_found w

  unfoldable pub assert_status : PaymentRow → PaymentStatus → Action W X (Unit {0})
  assert_status row expected = raise_if (not (same_status row.status expected)) conflict

  -- `findSettleContext`: the payment joined with its order.
  unfoldable pub find_settle_context : ℕ → Action W X (PaymentRow × OrderContext)
  find_settle_context id w = and_then (or_raise (find_by_id id w.db.payments) not_found w) λ row.
      or_raise (find? (λ o. o.order_id == row.order_id) w.db.orders) not_found >>= λ o.
      pure (row, o)

  -- `new Date()`
  abbrev pub clock : Action W X ℕ
  clock = gets (λ w. sv.now w.ext)

  -- `PaymentRepository.updateStatus`
  unfoldable pub update_status : ℕ → StatusUpdate → Action W X (Unit {0})
  update_status id u w = (
    ok tt,
    record w { db = set_payments (update_rows (has_id id) (with_status (sv.now w.ext) u)) (w.db) },
  )

  -- `PaymentRepository.settle`: whether a pending row was found.
  unfoldable pub settle_row : ℕ → ℕ → Option ℕ → Settlement → Action W X Bool
  settle_row id at customer s w = (
    ok (any (is_pending_row id) w.db.payments),
    record w { db = set_payments (update_rows (is_pending_row id) (settled at customer s)) (w.db) },
  )

  -- `PaymentGatewayResolver.resolve`
  abbrev pub resolve : Option ℕ → Action W X (PaymentGateway X)
  resolve none = raise internal
  resolve (some key) = or_raise (sv.gateways key) internal

  abbrev pub deposit_refund : ℕ → Option ℕ → Option ℕ → Option ℕ → Action W X (Unit {0})
  deposit_refund id amount (some customer) (some at) = in_db (
      sv.deposit (record {
        amount = amount;
        customer_id = some customer;
        idempotency_key = record { payment_id = id; settled_at = at; operation = refund_key };
      }))
  deposit_refund id amount _ _ = raise internal

  unfoldable pub refund_to_wallet : PaymentRow → Option ℕ → Action W X (Unit {0})
  refund_to_wallet row amount = deposit_refund row.id amount row.customer_id row.settle_requested_at

  unfoldable pub on_paid : ℕ → ℕ → Action W X (Unit {0})
  unfolding update_status
  on_paid id order_id = transaction (update_status id to_paid >> in_db (sv.fulfill order_id))

  unfoldable pub on_failed : PaymentRow → StatusUpdate → Action W X (Unit {0})
  unfolding update_status refund_to_wallet
  on_failed row u = transaction (
      update_status row.id u
      >> (when (is_partial row.method) (refund_to_wallet row row.wallet_amount)
          >> in_db (sv.cancel_delivery row.order_id)))

  unfoldable pub expire : ℕ → Action W X (Unit {0})
  unfolding require_payment assert_status on_failed
  expire id = do
    row ← require_payment id
    assert_status row PaymentStatus.pending
    on_failed row to_expired

  -- The `switch` of `verify`.
  unfoldable pub on_verified : PaymentRow → GatewayStatus → Action W X (Unit {0})
  unfolding on_paid on_failed
  on_verified row verified = on_paid row.id row.order_id
  on_verified row verified_before = on_paid row.id row.order_id
  on_verified row GatewayStatus.pending = pure tt
  on_verified row GatewayStatus.expired = on_failed row to_expired
  on_verified row GatewayStatus.failed = on_failed row to_failure
  on_verified row GatewayStatus.canceled = on_failed row to_failure
  on_verified row GatewayStatus.reversed = on_failed row to_failure

  unfoldable pub verify : ℕ → Action W X GatewayStatus
  unfolding require_payment assert_status on_verified
  verify id = do
    row ← require_payment id
    assert_status row processing
    raise_if (is_wallet row.method) internal
    g ← resolve row.gateway_key
    status ← outside (g.verify_payment row.id row.tracking_code)
    on_verified row status
    pure status

  unfoldable pub cancel : ℕ → Action W X (Unit {0})
  unfolding require_payment assert_status update_status refund_to_wallet
  cancel id = do
    row ← require_payment id
    assert_status row processing
    raise_if (is_wallet row.method) internal
    g ← resolve row.gateway_key
    outside (g.cancel_payment row.id row.tracking_code)
    transaction (
        when (is_partial row.method) (refund_to_wallet row row.wallet_amount)
        >> (update_status row.id to_pending >> in_db (sv.cancel_delivery row.order_id)))
