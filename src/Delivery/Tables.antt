-- ===== src/Delivery/Tables.antt =====
-- The tables of infrastructure/schema/src/order/deliveries.schema.ts with their checks, and
-- features/delivery/impl/src/delivery.repository.ts.
use jonoob_part_backend.Common.{
  ℕ, Bool, true, false, not, ◌&&◌, ◌||◌, Option, none, some, List, [], ◌∷◌, ◌++◌, map, find?, any,
  ◌==◌, is_some, if◌then◌else◌, Result, ok, err,
}

pub data Status : Type 0 where
  pending : Status
  courier_requested : Status
  canceled : Status
  handed_over_to_courier : Status
  delivered : Status
  returned_to_warehouse : Status

pub data Scope : Type 0 where
  intra_city : Scope
  inter_city : Scope

pub record Delivery : Type 0 where
  pub id : ℕ
  pub order_id : ℕ
  pub status : Status
  pub phone : ℕ
  pub scope : Scope
  pub courier_id : Option ℕ
  pub confirmation_code : Option ℕ
  pub freight : Option ℕ
  pub tracking_number : Option ℕ
  pub requested_at : Option ℕ
  pub canceled_at : Option ℕ
  pub handed_over_at : Option ℕ
  pub delivered_at : Option ℕ
  pub returned_at : Option ℕ

-- `intraCityDeliveryFailureReasons`: `other`, or one of the rest.
pub data Reason : Type 0 where
  other : Reason
  listed : ℕ → Reason

pub record Failure : Type 0 where
  pub delivery_id : ℕ
  pub scope : Scope
  pub reason : Option Reason
  pub reason_message : Option ℕ

pub data Event : Type 0 where
  order_delivered : (order_id : ℕ) → Event
  order_returned : (order_id : ℕ) → Event

pub record Db : Type 0 where
  pub deliveries : List Delivery
  pub failures : List Failure
  pub events : List Event

pub data DeliveryError : Type 0 where
  not_found : DeliveryError
  conflict : DeliveryError
  forbidden : DeliveryError
  unprocessable : DeliveryError
  wrong_scope : DeliveryError
  type_error : DeliveryError
  check_violated : DeliveryError
  queue_failed : DeliveryError

-- `deliveries_scope_fields`
abbrev pub needs_code : Status → Bool
needs_code handed_over_to_courier = true
needs_code delivered = true
needs_code returned_to_warehouse = true
needs_code _ = false

abbrev pub is_delivered : Status → Bool
is_delivered delivered = true
is_delivered _ = false

abbrev pub scope_fields : Scope → Delivery → Bool
scope_fields intra_city d =
    not (is_some d.freight)
    && not (is_some d.tracking_number)
    && (not (needs_code d.status) || is_some d.confirmation_code)
scope_fields inter_city d =
    is_some d.freight
    && not (is_some d.confirmation_code)
    && (if is_delivered d.status
        then is_some d.tracking_number
        else not (is_some d.tracking_number))

-- `deliveries_status_fields`
abbrev pub status_fields : Status → Delivery → Bool
status_fields pending d = not (is_some d.courier_id)
status_fields courier_requested d = is_some d.requested_at && not (is_some d.courier_id)
status_fields canceled d = is_some d.canceled_at
status_fields handed_over_to_courier d = is_some d.courier_id && is_some d.handed_over_at
status_fields delivered d = is_some d.courier_id && is_some d.delivered_at
status_fields returned_to_warehouse d = is_some d.courier_id && is_some d.returned_at

abbrev pub is_consistent : Delivery → Bool
is_consistent d = scope_fields d.scope d && status_fields d.status d

-- `delivery_attempt_failures_reason_consistency`
abbrev pub reason_consistent : Failure → Scope → Option Reason → Bool
reason_consistent f intra_city (some other) = is_some f.reason_message
reason_consistent f intra_city (some (listed _)) = not (is_some f.reason_message)
reason_consistent f intra_city none = false
reason_consistent f inter_city none = is_some f.reason_message
reason_consistent f inter_city (some _) = false

unfoldable pub find_by_id : ℕ → Db → Option Delivery
find_by_id id db = find? (λ d. d.id == id) db.deliveries

unfoldable pub find_all : Db → List Delivery
find_all db = db.deliveries

-- The rows after an update; every row that it writes is checked.
abbrev pub updated : ℕ → (Delivery → Delivery) → Delivery → Delivery
updated id f d = if d.id == id then f d else d

abbrev pub violates : ℕ → (Delivery → Delivery) → Delivery → Bool
violates id f d = d.id == id && not (is_consistent (f d))

unfoldable pub update : ℕ → (Delivery → Delivery) → Db → Result DeliveryError Db
update id f db =
    if any (violates id f) db.deliveries
    then err check_violated
    else ok (record db { deliveries = map (updated id f) db.deliveries })

unfoldable pub record_delivery_attempt_failure :
    ℕ → Option Reason → Option ℕ → Db → Result DeliveryError Db
unfolding find_by_id
record_delivery_attempt_failure id reason message db = elim (find_by_id id db) [
  | none ↦ err not_found
  | some d ↦
      let f : Failure = record {
        delivery_id = id;
        scope = d.scope;
        reason = reason;
        reason_message = message;
      } in
      if reason_consistent f d.scope reason
      then ok (record db { failures = db.failures ++ (f ∷ []) })
      else err check_violated
]

-- `outbox.add`
abbrev pub add_event : Event → Db → Db
add_event e db = record db { events = db.events ++ (e ∷ []) }
