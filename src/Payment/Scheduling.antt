-- ===== src/Payment/Scheduling.antt =====
-- `scheduleExpirePaymentJob`: an expiry job is scheduled for the payment of an order and linked to it.
use jonoob_part_backend.Common.{
  ℕ, ◌≡◌, refl, ◌⊎◌, inl, inr, any, some, find?, Result, ok, err, ◌==◌, if◌then◌else◌, Bool-cases,
  Option-cases,
}
use jonoob_part_backend.Payment.Rows.{PaymentRow, has_id, update_rows}
use jonoob_part_backend.Payment.Monad.{
  Db, World, PaymentError, not_found, internal, Action, raise, or_raise, and_then, ◌>>=◌, ◌>>◌,
  outside, outside_result,
}
use jonoob_part_backend.Payment.Services.{Services}

-- `.catch(() => undefined)`
abbrev quietly : {W X A : Type 0} → Action W X A → Action W X (Unit {0})
quietly m w = (ok tt, (m w).1)

abbrev pub linked : ℕ → PaymentRow → PaymentRow
linked job row = record row { expiry_job_id = some job }

module _ {W X : Type 0} (sv : Services W X) where
  -- `repository.update` with the job's id; a job that cannot be linked is cancelled again.
  unfoldable link_job : PaymentRow → ℕ → Action W X (Unit {0})
  link_job row job w =
      if any (has_id row.id) w.db.payments
      then (
        ok tt,
        record w {
          db = record (w.db) { payments = update_rows (has_id row.id) (linked job) w.db.payments };
        },
      )
      else (quietly (outside (sv.job_cancel job)) >> raise internal) w

  unfoldable pub schedule_expire_payment_job : (run_at order_id : ℕ) → Action W X (Unit {0})
  unfolding link_job
  schedule_expire_payment_job run_at order_id w =
      (or_raise (find? (λ (row : PaymentRow). row.order_id == order_id) w.db.payments) not_found
          >>= λ row. outside (sv.job_schedule row.id run_at) >>= link_job row)
        w

-- The payments are as they were, or the rows with one id have got a job.
abbrev pub Links : {W : Type 0} → Db W → Db W → Type 0
Links db db' =
    (db'.payments ≡ db.payments)
    ⊎ ((id : ℕ) × (job : ℕ) × (db'.payments ≡ update_rows (has_id id) (linked job) db.payments))

module _ {W X : Type 0} (sv : Services W X) where
  link_job-Links :
      (row : PaymentRow) (job : ℕ) (w : World W X) → Links w.db (link_job sv row job w).1.db
  unfolding link_job
  link_job-Links row job w = elim (Bool-cases (any (has_id row.id) w.db.payments)) [
    | inl e ↦ rw e (inr (row.id, job, refl))
    | inr e ↦ rw e (inl refl)
  ]

  pub schedule-Links :
      (run_at order_id : ℕ) (w : World W X)
      → Links w.db (schedule_expire_payment_job sv run_at order_id w).1.db
  unfolding schedule_expire_payment_job
  schedule-Links run_at order_id w =
      elim (Option-cases (find? (λ (row : PaymentRow). row.order_id == order_id) w.db.payments)) [
        | inl e ↦ rw e (inl refl)
        | inr (row, e) ↦ rw e (go row (sv.job_schedule row.id run_at w.ext))
      ]
    where
      go :
          (row : PaymentRow) (r : Result PaymentError ℕ × X)
          → Links w.db (and_then (outside_result w r) (link_job sv row)).1.db
      go row (ok job, x) = link_job-Links row job (record w { ext = x })
      go row (err e, x) = inl refl
