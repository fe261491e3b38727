-- ===== src/Delivery/Idle.antt =====
-- Deliveries that wait or are canceled, and the calls that fail on them.
use jonoob_part_backend.Common.{
  ℕ, ◌≡◌, refl, ◌⊎◌, inl, inr, Bool, true, false, ◌&&◌, Option, none, some, List, [], ◌∷◌, map, any,
  find?-In, any-In, ◌==◌, is_some, if◌then◌else◌, All, In, In-All, Bool-cases, Option-cases, err,
  arith,
}
use jonoob_part_backend.Delivery.Tables.{
  pending, canceled, returned_to_warehouse, Delivery, Event, Db, DeliveryError, not_found, conflict,
  forbidden, wrong_scope, type_error, Scope, intra_city, inter_city, check_violated, is_consistent,
  find_by_id, updated, violates, update,
}
use jonoob_part_backend.Delivery.Service.{
  Context, World, Answer, commit, confirm_pickup, set_delivered, Attempt, intra_delivered,
  inter_delivered, intra_failed, inter_failed, report_delivered, report_success,
  receive_returned_delivery,
}

-- The delivery waits, or is canceled, and no courier has it.
abbrev pub IsIdle : Delivery → Type 0
IsIdle d = (d.courier_id ≡ none) × ((d.status ≡ pending) ⊎ (d.status ≡ canceled))

-- The calls keep this, for the events that were there.
abbrev pub StaysIdle : List Event → Db → Type 0
StaysIdle events db = All IsIdle db.deliveries × (db.events ≡ events)

updated-Idle :
    (id : ℕ) (f : Delivery → Delivery) (ds : List Delivery)
    → ((d : Delivery) → IsIdle d → IsIdle (f d))
    → All IsIdle ds
    → All IsIdle (map (updated id f) ds)
updated-Idle id f [] keeps h = tt
updated-Idle id f (d ∷ ds) keeps (h, hs) = (go (d.id == id), updated-Idle id f ds keeps hs)
  where
    go : (b : Bool) → IsIdle (if b then f d else d)
    go true = keeps d h
    go false = h

-- An update that keeps each row idle.
pub commit-Idle :
    (id : ℕ) (f : Delivery → Delivery) (events : List Event) (w w' : World)
    → ((d : Delivery) → IsIdle d → IsIdle (f d))
    → StaysIdle events w.db
    → StaysIdle events w'.db
    → StaysIdle events (commit (update id f w.db) w').1.db
unfolding update
commit-Idle id f events w w' keeps (h, e) h' =
    elim (Bool-cases (any (violates id f) w.db.deliveries)) [
      | inl t ↦ rw (t, update) h'
      | inr t ↦ rw (t, update) (updated-Idle id f w.db.deliveries keeps h, e)
    ]

-- A write that the checks of the table refuse for a row with this id.
update-refuses :
    (id : ℕ) (f : Delivery → Delivery) (db : Db) (d : Delivery)
    → In d db.deliveries
    → (d.id == id) ≡ true
    → is_consistent (f d) ≡ false
    → update id f db ≡ err check_violated
unfolding update
update-refuses id f db d i same bad =
    let there : violates id f d ≡ true = rw (same, bad) refl in
    rw (any-In (violates id f) db.deliveries d i there, update) refl

and-false : (a b : Bool) → b ≡ false → (a && b) ≡ false
and-false true b e = e
and-false false b e = refl

-- What `findById` gives among idle rows.
pub found-IsIdle :
    (id : ℕ) (db : Db) (d : Delivery)
    → All IsIdle db.deliveries
    → find_by_id id db ≡ some d
    → IsIdle d × In d db.deliveries
unfolding find_by_id
found-IsIdle id db d h e =
    let (i, t) = find?-In (λ d. d.id == id) db.deliveries d e in
    (In-All IsIdle db.deliveries d h i, i)

same-id : (d : Delivery) → (d.id == d.id) ≡ true
same-id d = ground arith

-- No courier can be missing in these two states.
delivered-refused :
    (now : ℕ) (db : Db) (d : Delivery)
    → In d db.deliveries
    → IsIdle d
    → update d.id (set_delivered now) db ≡ err check_violated
delivered-refused now db d i (c, s) =
    let no_courier : (is_some d.courier_id && true) ≡ false = rw c refl in
    update-refuses d.id (set_delivered now) db d i (same-id d) (and-false _ _ no_courier)

returned-refused :
    (now : ℕ) (db : Db) (d : Delivery)
    → In d db.deliveries
    → IsIdle d
    → update d.id (λ d. record d { status = returned_to_warehouse; returned_at = some now }) db
      ≡ err check_violated
returned-refused now db d i (c, s) =
    let no_courier : (is_some d.courier_id && true) ≡ false = rw c refl in
    update-refuses d.id (λ d. record d { status = returned_to_warehouse; returned_at = some now })
      db d i (same-id d) (and-false _ _ no_courier)

-- The call throws and leaves the world as it was.
abbrev pub Fails : Answer → World → Type 0
Fails answer w = (e : DeliveryError) × (answer ≡ (err e, w))

pub report_success-Fails :
    (c : Context) (attempt : Attempt) (d : Delivery) (w : World)
    → In d w.db.deliveries
    → IsIdle d
    → Fails (report_success c attempt d.scope d.confirmation_code d w) w
report_success-Fails c attempt d w i h = go attempt d.scope d.confirmation_code
  where
    refused : Fails (report_delivered c d w) w
    refused = (check_violated, rw (delivered-refused c.now w.db d i h) refl)

    guarded : (b : Bool) → Fails (if b then report_delivered c d w else (err forbidden, w)) w
    guarded true = refused
    guarded false = (forbidden, refl)

    go : (a : Attempt) (s : Scope) (o : Option ℕ) → Fails (report_success c a s o d w) w
    go (intra_delivered code) intra_city none = (type_error, refl)
    go (intra_delivered code) intra_city (some e) = guarded (e == code)
    go (intra_delivered code) inter_city o = (wrong_scope, refl)
    go (inter_delivered code) inter_city o = refused
    go (inter_delivered code) intra_city o = (wrong_scope, refl)
    go (intra_failed r m) s o = (wrong_scope, refl)
    go (inter_failed m) s o = (wrong_scope, refl)

pub confirm_pickup-Fails :
    (c : Context) (id courier : ℕ) (w : World)
    → All IsIdle w.db.deliveries
    → Fails (confirm_pickup c id courier w) w
unfolding confirm_pickup
confirm_pickup-Fails c id courier w h = elim (Option-cases (find_by_id id w.db)) [
  | inl e ↦ (not_found, rw (e, confirm_pickup) refl)
  | inr (d, e) ↦ elim (found-IsIdle id w.db d h e).0.1 [
    | inl s ↦ (conflict, rw (e, confirm_pickup, s) refl)
    | inr s ↦ (conflict, rw (e, confirm_pickup, s) refl)
  ]
]

pub receive_returned-Fails :
    (c : Context) (id : ℕ) (w : World)
    → All IsIdle w.db.deliveries
    → Fails (receive_returned_delivery c id w) w
unfolding receive_returned_delivery
receive_returned-Fails c id w h = elim (Option-cases (find_by_id id w.db)) [
  | inl e ↦ (not_found, rw (e, receive_returned_delivery) refl)
  | inr (d, e) ↦
      let (idle, i) = found-IsIdle id w.db d h e in
      (check_violated, rw (e, receive_returned_delivery, returned-refused c.now w.db d i idle) refl)
]
