-- ===== src/Payment/Handlers.antt =====
-- Who calls the service for a payment later on: `ExpirePaymentJob` and `PaymentCallbackHandler`
-- (expire-payment.job.ts, payment-callback.handler.ts).
use jonoob_part_backend.Common.{ℕ, Bool, true, false, not}
use jonoob_part_backend.Payment.Rows.{PaymentStatus, pending, processing, PaymentRow, find_by_id}
use jonoob_part_backend.Payment.Monad.{Action, internal, pure, or_raise, ◌>>=◌, ◌>>◌, when}
use jonoob_part_backend.Payment.Services.{GatewayStatus, Services}
use jonoob_part_backend.Payment.Core.{require_payment, expire, verify}
use jonoob_part_backend.Payment.Settle.{cancel_job}

abbrev pub is_pending_answer : GatewayStatus → Bool
is_pending_answer GatewayStatus.pending = true
is_pending_answer _ = false

module _ {W X : Type 0} (sv : Services W X) where
  abbrev pub on_expiry : PaymentRow → PaymentStatus → Action W X (Unit {0})
  on_expiry row pending = expire sv row.id
  on_expiry row processing = verify sv row.id >> pure tt
  on_expiry row _ = pure tt

  -- `ExpirePaymentJob.handle`. The status of a payment that does not exist is a TypeError.
  unfoldable pub handle_expiry : ℕ → Action W X (Unit {0})
  unfolding expire verify
  handle_expiry id w =
      (or_raise (find_by_id id w.db.payments) internal >>= λ row. on_expiry row row.status) w

  -- `PaymentCallbackHandler.handle`
  unfoldable pub handle_callback : ℕ → Action W X GatewayStatus
  unfolding require_payment verify
  handle_callback id = do
    row ← require_payment sv id
    status ← verify sv id
    when (not (is_pending_answer status)) (cancel_job sv row.expiry_job_id)
    pure status
