-- ===== src/Delivery/Reach.antt =====
-- What the calls of the delivery service can reach.
use jonoob_part_backend.Common.{
  ℕ, ◌≡◌, refl, sym, subst, inr, Bool, true, false, Option, none, some, List, [], ◌∷◌, ◌++◌,
  if◌then◌else◌, All, ok, err,
}
use jonoob_part_backend.Delivery.Tables.{
  Status, pending, courier_requested, canceled, handed_over_to_courier, delivered,
  returned_to_warehouse, Delivery, Event, Reason, Failure, reason_consistent, not_found,
  queue_failed, check_violated, find_by_id, update, record_delivery_attempt_failure,
}
use jonoob_part_backend.Delivery.Service.{
  Context, pickup_request, World, Answer, send, on_found, commit, deliver, confirm_pickup, Attempt,
  intra_delivered, inter_delivered, intra_failed, inter_failed, report_delivery_attempt,
  receive_returned_delivery, cancel_in, cancel_delivery, Call, call_deliver, call_confirm_pickup,
  call_report, call_receive_returned, call_cancel, answer_of, run_all,
}
use jonoob_part_backend.Delivery.Idle.{
  IsIdle, StaysIdle, commit-Idle, found-IsIdle, Fails, report_success-Fails, confirm_pickup-Fails,
  receive_returned-Fails,
}

record_failure-StaysIdle :
    (id : ℕ) (reason : Option Reason) (message : Option ℕ) (events : List Event) (w : World)
    → StaysIdle events w.db
    → StaysIdle events (commit (record_delivery_attempt_failure id reason message w.db) w).1.db
unfolding record_delivery_attempt_failure
record_failure-StaysIdle id reason message events w h = go (find_by_id id w.db)
  where
    recorded :
        (b : Bool) (f : Failure)
        → StaysIdle events
            (commit
              (if b
                then ok (record w.db { failures = w.db.failures ++ (f ∷ []) })
                else err check_violated)
              w).1.db
    recorded true f = h
    recorded false f = h

    go :
        (o : Option Delivery)
        → StaysIdle events
            (commit
              (elim o [
                | none ↦ err not_found
                | some d ↦
                    let f : Failure = record {
                      delivery_id = id;
                      scope = d.scope;
                      reason = reason;
                      reason_message = message;
                    } in
                    if reason_consistent f d.scope reason
                    then ok (record w.db { failures = w.db.failures ++ (f ∷ []) })
                    else err check_violated
              ])
              w).1.db
    go none = h
    go (some d) = recorded _ _

Fails-StaysIdle :
    (events : List Event) (answer : Answer) (w : World)
    → Fails answer w
    → StaysIdle events w.db
    → StaysIdle events answer.1.db
Fails-StaysIdle events answer w (e, same) h = subst (λ a. StaysIdle events a.1.db) (sym same) h

on_found-StaysIdle :
    (events : List Event) (o : Option Delivery) (w : World) (f : Delivery → Answer)
    → StaysIdle events w.db
    → ((d : Delivery) → o ≡ some d → StaysIdle events (f d).1.db)
    → StaysIdle events (on_found o w f).1.db
on_found-StaysIdle events none w f h k = h
on_found-StaysIdle events (some d) w f h k = k d refl

deliver-StaysIdle :
    (c : Context) (id : ℕ) (events : List Event) (w : World)
    → StaysIdle events w.db
    → StaysIdle events (deliver c id w).1.db
unfolding deliver
deliver-StaysIdle c id events w h =
    on_found-StaysIdle events (find_by_id id w.db) w _ h λ d e. go d c.queue_up
  where
    go :
        (d : Delivery) (b : Bool)
        → StaysIdle events
            (if b
              then commit
                  (update d.id (λ d. record d { requested_at = some c.now }) w.db)
                  (send (pickup_request d.id) w)
              else (err queue_failed, w)).1.db
    go d true =
        commit-Idle d.id (λ d. record d { requested_at = some c.now }) events w
          (send (pickup_request d.id) w) (λ d i. i) h h
    go d false = h

cancel-StaysIdle :
    (c : Context) (id : ℕ) (events : List Event) (w : World)
    → StaysIdle events w.db
    → StaysIdle events (cancel_delivery c id w).1.db
unfolding cancel_delivery
cancel-StaysIdle c id events w h =
    on_found-StaysIdle events (find_by_id id w.db) w _ h λ d e. go d d.status
  where
    f : Delivery → Delivery
    f d = record d { status = canceled; canceled_at = some c.now }

    go : (d : Delivery) (s : Status) → StaysIdle events (cancel_in s c d w).1.db
    go d pending = commit-Idle d.id f events w w (λ d i. (i.0, inr refl)) h h
    go d courier_requested = commit-Idle d.id f events w w (λ d i. (i.0, inr refl)) h h
    go d canceled = h
    go d handed_over_to_courier = h
    go d delivered = h
    go d returned_to_warehouse = h

report-StaysIdle :
    (c : Context) (id : ℕ) (attempt : Attempt) (events : List Event) (w : World)
    → StaysIdle events w.db
    → StaysIdle events (report_delivery_attempt c id attempt w).1.db
unfolding report_delivery_attempt
report-StaysIdle c id (intra_failed reason message) events w h =
    on_found-StaysIdle events (find_by_id id w.db) w _ h
      λ d e. record_failure-StaysIdle id (some reason) message events w h
report-StaysIdle c id (inter_failed message) events w h =
    on_found-StaysIdle events (find_by_id id w.db) w _ h
      λ d e. record_failure-StaysIdle id none (some message) events w h
report-StaysIdle c id (intra_delivered code) events w h =
    on_found-StaysIdle events (find_by_id id w.db) w _ h λ d e.
      let (idle, i) = found-IsIdle id w.db d h.0 e in
      Fails-StaysIdle events _ w (report_success-Fails c (intra_delivered code) d w i idle) h
report-StaysIdle c id (inter_delivered code) events w h =
    on_found-StaysIdle events (find_by_id id w.db) w _ h λ d e.
      let (idle, i) = found-IsIdle id w.db d h.0 e in
      Fails-StaysIdle events _ w (report_success-Fails c (inter_delivered code) d w i idle) h

answer-StaysIdle :
    (c : Call) (events : List Event) (w : World)
    → StaysIdle events w.db
    → StaysIdle events (answer_of c w).1.db
unfolding answer_of
answer-StaysIdle (call_deliver c id) events w h = deliver-StaysIdle c id events w h
answer-StaysIdle (call_confirm_pickup c id courier) events w h =
    Fails-StaysIdle events _ w (confirm_pickup-Fails c id courier w h.0) h
answer-StaysIdle (call_report c id attempt) events w h = report-StaysIdle c id attempt events w h
answer-StaysIdle (call_receive_returned c id) events w h =
    Fails-StaysIdle events _ w (receive_returned-Fails c id w h.0) h
answer-StaysIdle (call_cancel c id) events w h = cancel-StaysIdle c id events w h

run_all-StaysIdle :
    (cs : List Call) (events : List Event) (w : World)
    → StaysIdle events w.db
    → StaysIdle events (run_all cs w).db
unfolding run_all
run_all-StaysIdle [] events w h = h
run_all-StaysIdle (c ∷ cs) events w h =
    run_all-StaysIdle cs events (answer_of c w).1 (answer-StaysIdle c events w h)

-- From deliveries that are pending or canceled without a courier, as every new one is, no calls of
-- the service lead out of these two states or publish an event; and after any calls, to confirm a
-- pickup or to receive a returned delivery throws and changes nothing.
pub run_all-Fails :
    (cs : List Call) (w : World)
    → All IsIdle w.db.deliveries
    → let w' = run_all cs w in
      All IsIdle w'.db.deliveries
      × (w'.db.events ≡ w.db.events)
      × ((c : Context) (id courier : ℕ) → Fails (confirm_pickup c id courier w') w')
      × ((c : Context) (id : ℕ) → Fails (receive_returned_delivery c id w') w')
run_all-Fails cs w h =
    let (idle, events) = run_all-StaysIdle cs w.db.events w (h, refl) in
    (
      idle,
      events,
      λ c id courier. confirm_pickup-Fails c id courier (run_all cs w) idle,
      λ c id. receive_returned-Fails c id (run_all cs w) idle,
    )
