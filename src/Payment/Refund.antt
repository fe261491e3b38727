-- ===== src/Payment/Refund.antt =====
-- `PaymentService.refund`.
use jonoob_part_backend.Common.{
  Number, natural, other, max_safe_integer, ℕ, not, ◌&&◌, Option, none, some, ltb, leb,
}
use jonoob_part_backend.Payment.Rows.{
  paid, PaymentMethod, PaymentRow, to_refunded, to_partly_refunded,
}
use jonoob_part_backend.Payment.Monad.{
  bad_request, internal, Action, raise, ◌>>=◌, ◌>>◌, raise_if, when, transaction, outside,
}
use jonoob_part_backend.Payment.Services.{Services}
use jonoob_part_backend.Payment.Selection.{
  RefundRequest, full_refund, partial_refund, is_partial, is_wallet, paid_total,
}
use jonoob_part_backend.Payment.Core.{
  resolve, update_status, refund_to_wallet, require_payment, assert_status,
}

module _ {W X : Type 0} (sv : Services W X) where
  unfoldable pub refund_part : PaymentRow → Number → Action W X (Unit {0})
  unfolding refund_to_wallet update_status
  refund_part row other = raise bad_request
  refund_part row (natural a) = do
    raise_if (not (leb 1 a && leb a max_safe_integer)) bad_request
    raise_if (ltb (paid_total row) a) bad_request
    transaction (refund_to_wallet sv row (some a) >> update_status sv row.id (to_partly_refunded a))

  abbrev pub refund_at_gateway : PaymentRow → Action W X (Unit {0})
  refund_at_gateway row = do
    g ← resolve sv row.gateway_key
    outside (g.refund_payment row.id row.tracking_code)

  -- Without a method, `payments_refund_fields` refuses the row.
  abbrev pub mark_refunded : PaymentRow → Option PaymentMethod → Action W X (Unit {0})
  mark_refunded row none = raise internal
  mark_refunded row (some m) = update_status sv row.id (to_refunded m)

  unfoldable pub refund_all : PaymentRow → Action W X (Unit {0})
  unfolding refund_to_wallet update_status
  refund_all row = do
    when (not (is_wallet row.method)) (refund_at_gateway row)
    transaction (do
      when (is_wallet row.method) (refund_to_wallet sv row row.amount)
      when (is_partial row.method) (refund_to_wallet sv row row.wallet_amount)
      mark_refunded row row.method)

  unfoldable pub refund_as : PaymentRow → RefundRequest → Action W X (Unit {0})
  unfolding refund_part refund_all
  refund_as row full_refund = refund_all row
  refund_as row (partial_refund a) = refund_part row a

  unfoldable pub refund : ℕ → RefundRequest → Action W X (Unit {0})
  unfolding require_payment assert_status refund_as
  refund id request = do
    row ← require_payment sv id
    assert_status sv row paid
    refund_as row request
