-- ===== src/Payment/Lifecycle.antt =====
-- The life of a payment over any calls of the service.
use jonoob_part_backend.Common.{
  ℕ, ◌≡◌, refl, ap, sym, subst, ◌⊎◌, inl, inr, Bool, true, false, ◌==◌, if◌then◌else◌, Option, none,
  some, List, [], ◌∷◌, Result, ok, err, arith, Bool-cases,
}
use jonoob_part_backend.Payment.Rows.{
  PaymentStatus, pending, processing, paid, failure, expired, refunded, PaymentRow, find_by_id,
  has_id, Settlement, by_wallet, by_gateway, by_both, settled, is_pending_row, update_rows,
  StatusUpdate, to_pending, to_failure, to_expired, to_paid, to_refunded, to_partly_refunded,
  with_status,
}
use jonoob_part_backend.Payment.Monad.{Db, World, PaymentError}
use jonoob_part_backend.Payment.Services.{Services}
use jonoob_part_backend.Payment.Selection.{PaymentMethodSelection}
use jonoob_part_backend.Payment.Outcome.{Permits, Outcome, same, settles, updates, find_by_id-id}
use jonoob_part_backend.Payment.Effects.{Effect}
use jonoob_part_backend.Payment.Logic.{Post, same_status-eq}
use jonoob_part_backend.Payment.Core.{expire, verify, cancel}
use jonoob_part_backend.Payment.Refund.{refund}
use jonoob_part_backend.Payment.Constraints.{WellFormed}
use jonoob_part_backend.Payment.Consistency.{
  Outcome-WellFormed, Links-WellFormed, with_status-id, settled-id,
}
use jonoob_part_backend.Payment.Unsettled.{expire-Effect, verify-Effect, cancel-Effect}
use jonoob_part_backend.Payment.Refunds.{refund-Effect}
use jonoob_part_backend.Payment.Settlements.{SettleEffect, settle-Effect}
use jonoob_part_backend.Payment.Settle.{settle}
use jonoob_part_backend.Payment.Callbacks.{handle_expiry-Effect, handle_callback-Outcome}
use jonoob_part_backend.Payment.Handlers.{handle_expiry, handle_callback}
use jonoob_part_backend.Payment.Scheduling.{Links, linked, schedule-Links}
use jonoob_part_backend.Payment.Requests.{
  Request, call_settle, call_verify, call_cancel, call_expire, call_refund, call_expiry_job,
  call_callback, call_schedule, request_id, run, run_all,
}

-- The status changes of one call.
pub data Moves : PaymentStatus → PaymentStatus → Type 0 where
  pays_now : Moves pending paid
  starts : Moves pending processing
  lapses : Moves pending expired
  pays : Moves processing paid
  returns : Moves processing pending
  fails : Moves processing failure
  times_out : Moves processing expired
  is_refunded : Moves paid refunded

-- The statuses that no call leaves.
abbrev pub is_final : PaymentStatus → Bool
is_final failure = true
is_final expired = true
is_final refunded = true
is_final _ = false

Effect-Outcome :
    {W X A : Type 0} (id : ℕ) (start : Db W) (r : Result PaymentError A × World W X)
    → Effect id start r
    → Outcome id start r.1.db
Effect-Outcome id start (ok a, w) o = o
Effect-Outcome id start (err e, w) h = same (ap (λ d. d.payments) h)

Always-Outcome :
    {W X A : Type 0} (id : ℕ) (start : Db W) (r : Result PaymentError A × World W X)
    → Post (λ _ db. Outcome id start db) (λ db. Outcome id start db) r
    → Outcome id start r.1.db
Always-Outcome id start (ok a, w) o = o
Always-Outcome id start (err e, w) o = o

SettleEffect-Outcome :
    {W X A : Type 0} (selection : PaymentMethodSelection) (id : ℕ) (start : Db W)
    (r : Result PaymentError A × World W X)
    → SettleEffect selection id start r
    → Outcome id start r.1.db
SettleEffect-Outcome selection id start (ok a, w) o = o
SettleEffect-Outcome selection id start (err e, w) (inl h) = same (ap (λ d. d.payments) h)
SettleEffect-Outcome selection id start (err e, w) (inr h) = h.1

pub find-update :
    (id : ℕ) (p : PaymentRow → Bool) (f : PaymentRow → PaymentRow) (rows : List PaymentRow)
    (row : PaymentRow)
    → ((x : PaymentRow) → (f x).id ≡ x.id)
    → find_by_id id rows ≡ some row
    → find_by_id id (update_rows p f rows) ≡ some (if p row then f row else row)
find-update id p f [] row h e = cc
find-update id p f (x ∷ xs) row h e = elim (Bool-cases (x.id == id)) [
  | inl t ↦
      let e' : some x ≡ some row = rw t at e in
      let same_row : x ≡ row = cc e' in
      rw (same_id, t) (ap (λ r. some (if p r then f r else r)) same_row)
  | inr t ↦ rw (same_id, t) (find-update id p f xs row h (rw t at e))
]
  where
    same_id : (if p x then f x else x).id ≡ x.id
    same_id = elim (Bool-cases (p x)) [ inl e ↦ rw e (h x) | inr e ↦ rw e refl ]

with_status-Moves :
    (row : PaymentRow) (now : ℕ) (u : StatusUpdate)
    → Permits row u
    → Moves row.status (with_status now u row).status
unfolding with_status
with_status-Moves row now to_paid p = subst (λ s. Moves s paid) (sym p) pays
with_status-Moves row now to_pending p = subst (λ s. Moves s pending) (sym p) returns
with_status-Moves row now to_failure p = subst (λ s. Moves s failure) (sym p) fails
with_status-Moves row now to_expired (inl p) = subst (λ s. Moves s expired) (sym p) lapses
with_status-Moves row now to_expired (inr p) = subst (λ s. Moves s expired) (sym p) times_out
with_status-Moves row now (to_refunded d) p = subst (λ s. Moves s refunded) (sym p.0) is_refunded
with_status-Moves row now (to_partly_refunded a) p =
    subst (λ s. Moves s refunded) (sym p.0) is_refunded

settled-Moves :
    (row : PaymentRow) (at : ℕ) (c : Option ℕ) (s : Settlement)
    → row.status ≡ pending
    → Moves row.status (settled at c s row).status
unfolding settled
settled-Moves row at c (by_wallet a) p = subst (λ s. Moves s paid) (sym p) pays_now
settled-Moves row at c (by_gateway a k t) p = subst (λ s. Moves s processing) (sym p) starts
settled-Moves row at c (by_both w g k t) p = subst (λ s. Moves s processing) (sym p) starts

-- The payment found under an id after a call: the same row; or the call names it and it has moved; or
-- the call schedules an expiry job, and the row differs at most in the job that it is linked to.
abbrev pub Follows : {W : Type 0} → Option ℕ → ℕ → PaymentRow → Db W → Type 0
Follows called id row db =
    (row' : PaymentRow) × (find_by_id id db.payments ≡ some row')
    × ((row' ≡ row)
        ⊎ (((called ≡ some id) × Moves row.status row'.status)
            ⊎ ((called ≡ none) × ((job : ℕ) × (row' ≡ record row { expiry_job_id = some job })))))

-- What a call leaves of the payments.
abbrev Changes : {W : Type 0} → Option ℕ → Db W → Db W → Type 0
Changes (some id) db db' = Outcome id db db'
Changes none db db' = Links db db'

Links-Follows :
    {W : Type 0} (id : ℕ) (db db' : Db W) (row : PaymentRow)
    → Links db db'
    → find_by_id id db.payments ≡ some row
    → Follows none id row db'
Links-Follows id db db' row (inl e) found = (row, rw e found, inl refl)
Links-Follows id db db' row (inr (named, job, e)) found =
    let after = find-update id (has_id named) (linked job) db.payments row (λ x. refl) found in
    elim (Bool-cases (has_id named row)) [
      | inr t ↦ (row, rw e (rw t at after), inl refl)
      | inl t ↦ (linked job row, rw e (rw t at after), inr (inr (refl, (job, refl))))
    ]

Outcome-Follows :
    {W : Type 0} (called id : ℕ) (db db' : Db W) (row : PaymentRow)
    → Outcome called db db'
    → find_by_id id db.payments ≡ some row
    → Follows (some called) id row db'
Outcome-Follows called id db db' row (same e) found = (row, rw e found, inl refl)
Outcome-Follows called id db db' row (settles r at c s found' p pos e) found =
    let after =
      find-update id (is_pending_row called) (settled at c s) db.payments row (settled-id at c s)
        found in
    let own = find_by_id-id id db.payments row found in
    elim (Bool-cases (is_pending_row called row)) [
      | inr t ↦ (row, rw e (rw t at after), inl refl)
      | inl t ↦ (
        settled at c s row,
        rw e (rw t at after),
        inr (
            inl (
              ap some (ground (arith, t, own)),
              settled-Moves row at c s (same_status-eq row.status pending (ground (arith, t))),
            )),
      )
    ]
Outcome-Follows called id db db' row (updates r now u found' p e) found =
    let after =
      find-update id (has_id called) (with_status now u) db.payments row (with_status-id now u)
        found in
    let own = find_by_id-id id db.payments row found in
    elim (Bool-cases (has_id called row)) [
      | inr t ↦ (row, rw e (rw t at after), inl refl)
      | inl t ↦
          let same_id : called ≡ id = ground (arith, t, own) in
          let found'' : find_by_id id db.payments ≡ some r = rw (← same_id) found' in
          let same_row : r ≡ row = cc (found'', found) in
          (
            with_status now u row,
            rw e (rw t at after),
            inr (
                inl (
                  ap some same_id,
                  with_status-Moves row now u (subst (λ x. Permits x u) same_row p),
                )),
          )
    ]

module _ {W X : Type 0} (sv : Services W X) where
  run-Changes : (r : Request) (w : World W X) → Changes (request_id r) w.db (run sv r w).db
  run-Changes (call_settle id selection) w =
      SettleEffect-Outcome selection id w.db (settle sv id selection w)
        (settle-Effect sv id selection w)
  run-Changes (call_verify id) w = Effect-Outcome id w.db (verify sv id w) (verify-Effect sv id w)
  run-Changes (call_cancel id) w = Effect-Outcome id w.db (cancel sv id w) (cancel-Effect sv id w)
  run-Changes (call_expire id) w = Effect-Outcome id w.db (expire sv id w) (expire-Effect sv id w)
  run-Changes (call_expiry_job id) w =
      Effect-Outcome id w.db (handle_expiry sv id w) (handle_expiry-Effect sv id w)
  run-Changes (call_callback id) w =
      Always-Outcome id w.db (handle_callback sv id w) (handle_callback-Outcome sv id w)
  run-Changes (call_refund id request) w =
      Effect-Outcome id w.db (refund sv id request w) (refund-Effect sv id request w)
  run-Changes (call_schedule run_at order_id) w = schedule-Links sv run_at order_id w

  Changes-Follows :
      (called : Option ℕ) (id : ℕ) (db db' : Db W) (row : PaymentRow)
      → Changes called db db'
      → find_by_id id db.payments ≡ some row
      → Follows called id row db'
  Changes-Follows (some called) = Outcome-Follows called
  Changes-Follows none = Links-Follows

  Changes-WellFormed :
      (called : Option ℕ) (db db' : Db W)
      → Changes called db db'
      → WellFormed db.payments
      → WellFormed db'.payments
  Changes-WellFormed (some called) = Outcome-WellFormed called
  Changes-WellFormed none = Links-WellFormed

  -- Whatever a call answers, and whatever the services do: a payment that stands in the table before
  -- it is the same row afterwards; or the call names it and its status has moved along one of the
  -- edges of `Moves`; or the call schedules an expiry job for an order, and the row differs at most in
  -- the job that it is linked to. The calls are `settle`, `verify`, `cancel`, `expire`, `refund` and
  -- `scheduleExpirePaymentJob` of the service, the expiry job and the gateway's callback.
  pub run-Follows :
      (r : Request) (w : World W X) (id : ℕ) (row : PaymentRow)
      → find_by_id id w.db.payments ≡ some row
      → Follows (request_id r) id row (run sv r w).db
  run-Follows r w id row found =
      Changes-Follows (request_id r) id w.db (run sv r w).db row (run-Changes r w) found

  -- Where the payments have distinct ids and meet the table's CHECK constraints, they still do after
  -- any calls, whatever these answer.
  pub run_all-WellFormed :
      (rs : List Request) (w : World W X)
      → WellFormed w.db.payments
      → WellFormed (run_all sv rs w).db.payments
  unfolding run_all
  run_all-WellFormed [] w h = h
  run_all-WellFormed (r ∷ rs) w h =
      run_all-WellFormed rs (run sv r w)
        (Changes-WellFormed (request_id r) w.db (run sv r w).db (run-Changes r w) h)

  not_final : (s t : PaymentStatus) → is_final s ≡ true → Moves s t → ⊥
  not_final s t f pays_now = cc f
  not_final s t f starts = cc f
  not_final s t f lapses = cc f
  not_final s t f pays = cc f
  not_final s t f returns = cc f
  not_final s t f fails = cc f
  not_final s t f times_out = cc f
  not_final s t f is_refunded = cc f

  -- A payment that has failed, expired or been refunded stays as it is over any calls, in every column
  -- but the expiry job that it is linked to: so it is refunded at most once. The calls are those of
  -- the service that write, the expiry job and the gateway's callback.
  pub final_stays :
      (rs : List Request) (w : World W X) (id : ℕ) (row : PaymentRow)
      → is_final row.status ≡ true
      → find_by_id id w.db.payments ≡ some row
      → (job : Option ℕ) × (find_by_id id (run_all sv rs w).db.payments
          ≡ some (record row { expiry_job_id = job }))
  unfolding run_all
  final_stays [] w id row f found = (row.expiry_job_id, found)
  final_stays (r ∷ rs) w id row f found =
      let (row', found', how) = run-Follows r w id row found in
      let now_at : (x : PaymentRow) → row' ≡ x → find_by_id id (run sv r w).db.payments ≡ some x =
        λ x e. subst (λ y. find_by_id id (run sv r w).db.payments ≡ some y) e found' in
      elim how [
        | inl e ↦ final_stays rs (run sv r w) id row f (now_at row e)
        | inr (inl (_, m)) ↦ absurd (not_final row.status row'.status f m)
        | inr (inr (_, (job, e))) ↦
            let linked_row : PaymentRow = record row { expiry_job_id = some job } in
            final_stays rs (run sv r w) id linked_row f (now_at linked_row e)
      ]
