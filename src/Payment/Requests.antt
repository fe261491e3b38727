-- ===== src/Payment/Requests.antt =====
-- The calls of `PaymentService` that write, and of its job and callback handlers, one after the
-- other. The lock of `exclusive` makes the calls on one payment wait for each other.
use jonoob_part_backend.Common.{ℕ, Option, none, some, List, [], ◌∷◌}
use jonoob_part_backend.Payment.Monad.{World}
use jonoob_part_backend.Payment.Services.{Services}
use jonoob_part_backend.Payment.Selection.{PaymentMethodSelection, RefundRequest}
use jonoob_part_backend.Payment.Core.{expire, verify, cancel}
use jonoob_part_backend.Payment.Scheduling.{schedule_expire_payment_job}
use jonoob_part_backend.Payment.Settle.{settle}
use jonoob_part_backend.Payment.Refund.{refund}
use jonoob_part_backend.Payment.Handlers.{handle_expiry, handle_callback}

pub data Request : Type 0 where
  call_settle : (id : ℕ) → PaymentMethodSelection → Request
  call_verify call_cancel call_expire call_expiry_job call_callback : (id : ℕ) → Request
  call_refund : (id : ℕ) → RefundRequest → Request
  call_schedule : (run_at order_id : ℕ) → Request

-- The payment that a call names; the scheduling of the expiry job names an order.
abbrev pub request_id : Request → Option ℕ
request_id (call_settle id selection) = some id
request_id (call_verify id) = some id
request_id (call_cancel id) = some id
request_id (call_expire id) = some id
request_id (call_expiry_job id) = some id
request_id (call_callback id) = some id
request_id (call_refund id request) = some id
request_id (call_schedule run_at order_id) = none

module _ {W X : Type 0} (sv : Services W X) where
  -- The world after a call, whatever it answers.
  abbrev pub run : Request → World W X → World W X
  run (call_settle id selection) w = (settle sv id selection w).1
  run (call_verify id) w = (verify sv id w).1
  run (call_cancel id) w = (cancel sv id w).1
  run (call_expire id) w = (expire sv id w).1
  run (call_expiry_job id) w = (handle_expiry sv id w).1
  run (call_callback id) w = (handle_callback sv id w).1
  run (call_refund id request) w = (refund sv id request w).1
  run (call_schedule run_at order_id) w = (schedule_expire_payment_job sv run_at order_id w).1

  unfoldable pub run_all : List Request → World W X → World W X
  run_all [] w = w
  run_all (r ∷ rs) w = run_all rs (run r w)
