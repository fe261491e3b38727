-- ===== src/Delivery/Tests.antt =====
-- Runs of the delivery service.
use jonoob_part_backend.Common.{ℕ, ◌+◌, ◌≡◌, refl, inl, true, none, List, [], ◌∷◌, All, ok, err}
use jonoob_part_backend.Delivery.Tables.{
  pending, intra_city, Delivery, conflict, unprocessable, find_by_id, update, find_all,
}
use jonoob_part_backend.Delivery.Service.{
  Context, World, find_assigned_courier, confirm_pickup, intra_delivered, receive_returned_delivery,
  cancel_delivery, Call, call_deliver, call_confirm_pickup, call_report, call_cancel, run_all,
}
use jonoob_part_backend.Delivery.Idle.{IsIdle, Fails}
use jonoob_part_backend.Delivery.Reach.{run_all-Fails}

abbrev fresh : ℕ → Delivery
fresh id = record {
  id = id;
  order_id = 40 + id;
  status = pending;
  phone = 9;
  scope = intra_city;
  courier_id = none;
  confirmation_code = none;
  freight = none;
  tracking_number = none;
  requested_at = none;
  canceled_at = none;
  handed_over_at = none;
  delivered_at = none;
  returned_at = none;
}

abbrev start : World
start = record {
  db = record { deliveries = fresh 1 ∷ fresh 2 ∷ []; failures = []; events = [] };
  sms = [];
}

abbrev context : Context
context = record { now = 5; code = 123_456; queue_up = true }

abbrev calls : List Call
calls =
    call_deliver context 1
    ∷ call_confirm_pickup context 1 7
    ∷ call_report context 1 (intra_delivered 123_456)
    ∷ call_cancel context 2
    ∷ []

pickup_conflicts : (confirm_pickup context 1 7 start).0 ≡ err conflict
unfolding confirm_pickup find_by_id update
pickup_conflicts = refl

unassigned : find_assigned_courier 1 start.db ≡ err unprocessable
unfolding find_assigned_courier find_by_id
unassigned = refl

cancel_twice : (cancel_delivery context 2 (cancel_delivery context 2 start).1).0 ≡ ok tt
unfolding cancel_delivery find_by_id update
cancel_twice = refl

lists_both : find_all start.db ≡ fresh 1 ∷ fresh 2 ∷ []
unfolding find_all
lists_both = refl

run_all-Fails_example :
    let w' = run_all calls start in
    All IsIdle w'.db.deliveries
    × (w'.db.events ≡ [])
    × ((c : Context) (id courier : ℕ) → Fails (confirm_pickup c id courier w') w')
    × ((c : Context) (id : ℕ) → Fails (receive_returned_delivery c id w') w')
run_all-Fails_example = run_all-Fails calls start ((refl, inl refl), ((refl, inl refl), tt))
