-- ===== src/Delivery/Service.antt =====
-- features/delivery/impl/src/delivery.service.ts. A call has its time, a new confirmation code, and
-- whether the queue of short messages takes a job.
use jonoob_part_backend.Common.{
  ℕ, Bool, true, false, not, Option, none, some, List, [], ◌∷◌, ◌++◌, ◌==◌, if◌then◌else◌, Result,
  ok, err,
}
use jonoob_part_backend.Delivery.Tables.{
  Status, pending, courier_requested, canceled, handed_over_to_courier, delivered,
  returned_to_warehouse, Scope, intra_city, inter_city, Delivery, Reason, order_delivered,
  order_returned, Db, DeliveryError, not_found, conflict, forbidden, unprocessable, wrong_scope,
  type_error, queue_failed, find_by_id, update, record_delivery_attempt_failure, add_event,
}

pub record Context : Type 0 where
  pub now : ℕ
  pub code : ℕ
  pub queue_up : Bool

-- The short messages that the queue has taken; no transaction takes one back.
pub data Sms : Type 0 where
  pickup_request : (delivery_id : ℕ) → Sms
  out_for_delivery : (phone confirmation_code : ℕ) → Sms

pub record World : Type 0 where
  pub db : Db
  pub sms : List Sms

abbrev pub Answer : Type 0
Answer = Result DeliveryError (Unit {0}) × World

abbrev pub send : Sms → World → World
send m w = record w { sms = w.sms ++ (m ∷ []) }

-- A statement on the database; an exception rolls it back.
abbrev pub commit : Result DeliveryError Db → World → Answer
commit (ok db) w = (ok tt, record w { db = db })
commit (err e) w = (err e, w)

abbrev pub then_ok : Result DeliveryError Db → (Db → Db) → Result DeliveryError Db
then_ok (ok db) f = ok (f db)
then_ok (err e) f = err e

-- `findById` with `assertDeliveryFound`
abbrev pub on_found : Option Delivery → World → (Delivery → Answer) → Answer
on_found none w f = (err not_found, w)
on_found (some d) w f = f d

unfoldable pub find_assigned_courier : ℕ → Db → Result DeliveryError ℕ
unfolding find_by_id
find_assigned_courier id db = elim (find_by_id id db) [
  | none ↦ err type_error
  | some d ↦ elim d.courier_id [ none ↦ err unprocessable | some c ↦ ok c ]
]

unfoldable pub deliver : Context → ℕ → World → Answer
unfolding find_by_id update
deliver c id w = on_found (find_by_id id w.db) w λ d.
    if c.queue_up
    then commit (update d.id (λ d. record d { requested_at = some c.now }) w.db)
        (send (pickup_request d.id) w)
    else (err queue_failed, w)

abbrev pub is_courier_requested : Status → Bool
is_courier_requested courier_requested = true
is_courier_requested _ = false

unfoldable pub confirm_pickup : Context → ℕ → ℕ → World → Answer
unfolding find_by_id update
confirm_pickup c id courier w = on_found (find_by_id id w.db) w λ d.
    if not (is_courier_requested d.status)
    then (err conflict, w)
    else if c.queue_up
    then commit
        (update id
          (λ d. record d {
            courier_id = some courier;
            handed_over_at = some c.now;
            confirmation_code = some c.code;
          })
          w.db)
        (send (out_for_delivery d.phone c.code) w)
    else (err queue_failed, w)

-- `DeliveryAttemptReportDto`
pub data Attempt : Type 0 where
  intra_delivered : (confirmation_code : ℕ) → Attempt
  inter_delivered : (tracking_code : ℕ) → Attempt
  intra_failed : Reason → Option ℕ → Attempt
  inter_failed : (reason_message : ℕ) → Attempt

-- No column is named `trackingCode`, so the update does not write it.
abbrev pub set_delivered : ℕ → Delivery → Delivery
set_delivered now d = record d { status = delivered; delivered_at = some now }

abbrev pub report_delivered : Context → Delivery → World → Answer
report_delivered c d w =
    commit
      (then_ok (update d.id (set_delivered c.now) w.db) (add_event (order_delivered d.order_id))) w

-- `delivery.scope !== attempt.scope`, and the code of a delivery inside the city.
abbrev pub report_success : Context → Attempt → Scope → Option ℕ → Delivery → World → Answer
report_success c (intra_delivered code) intra_city none d w = (err type_error, w)
report_success c (intra_delivered code) intra_city (some expected) d w =
    if expected == code then report_delivered c d w else (err forbidden, w)
report_success c (inter_delivered code) inter_city _ d w = report_delivered c d w
report_success c _ _ _ d w = (err wrong_scope, w)

unfoldable pub report_delivery_attempt : Context → ℕ → Attempt → World → Answer
unfolding find_by_id record_delivery_attempt_failure update
report_delivery_attempt c id (intra_failed reason message) w =
    on_found (find_by_id id w.db) w
      λ d. commit (record_delivery_attempt_failure id (some reason) message w.db) w
report_delivery_attempt c id (inter_failed message) w =
    on_found (find_by_id id w.db) w
      λ d. commit (record_delivery_attempt_failure id none (some message) w.db) w
report_delivery_attempt c id attempt w =
    on_found (find_by_id id w.db) w λ d. report_success c attempt d.scope d.confirmation_code d w

unfoldable pub receive_returned_delivery : Context → ℕ → World → Answer
unfolding find_by_id update
receive_returned_delivery c id w = on_found (find_by_id id w.db) w λ d.
    commit
      (then_ok
        (update d.id (λ d. record d { status = returned_to_warehouse; returned_at = some c.now })
          w.db)
        (add_event (order_returned d.order_id)))
      w

abbrev pub cancel_in : Status → Context → Delivery → World → Answer
cancel_in canceled c d w = (ok tt, w)
cancel_in pending c d w =
    commit (update d.id (λ d. record d { status = canceled; canceled_at = some c.now }) w.db) w
cancel_in courier_requested c d w =
    commit (update d.id (λ d. record d { status = canceled; canceled_at = some c.now }) w.db) w
cancel_in handed_over_to_courier c d w = (err conflict, w)
cancel_in delivered c d w = (err conflict, w)
cancel_in returned_to_warehouse c d w = (err conflict, w)

unfoldable pub cancel_delivery : Context → ℕ → World → Answer
unfolding find_by_id update
cancel_delivery c id w = on_found (find_by_id id w.db) w λ d. cancel_in d.status c d w

-- The calls of the service that write.
pub data Call : Type 0 where
  call_deliver : Context → ℕ → Call
  call_confirm_pickup : Context → ℕ → ℕ → Call
  call_report : Context → ℕ → Attempt → Call
  call_receive_returned : Context → ℕ → Call
  call_cancel : Context → ℕ → Call

unfoldable pub answer_of : Call → World → Answer
unfolding deliver confirm_pickup report_delivery_attempt receive_returned_delivery cancel_delivery
answer_of (call_deliver c id) w = deliver c id w
answer_of (call_confirm_pickup c id courier) w = confirm_pickup c id courier w
answer_of (call_report c id attempt) w = report_delivery_attempt c id attempt w
answer_of (call_receive_returned c id) w = receive_returned_delivery c id w
answer_of (call_cancel c id) w = cancel_delivery c id w

unfoldable pub run_all : List Call → World → World
unfolding answer_of
run_all [] w = w
run_all (c ∷ cs) w = run_all cs (answer_of c w).1
