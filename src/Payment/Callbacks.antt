-- ===== src/Payment/Callbacks.antt =====
-- The expiry job and the callback of a gateway: what they do to the payments.
use jonoob_part_backend.Common.{
  ℕ, ◌≡◌, refl, ap, sym, subst, inl, inr, not, Result, ok, err, Option-cases,
}
use jonoob_part_backend.Payment.Rows.{
  PaymentStatus, pending, processing, paid, failure, expired, refunded, PaymentRow, find_by_id,
}
use jonoob_part_backend.Payment.Monad.{Db, World, PaymentError, Action, pure, and_then, ◌>>◌, when}
use jonoob_part_backend.Payment.Services.{Services}
use jonoob_part_backend.Payment.Core.{require_payment, verify}
use jonoob_part_backend.Payment.Settle.{cancel_job}
use jonoob_part_backend.Payment.Logic.{Post}
use jonoob_part_backend.Payment.Outcome.{Outcome, same, find_by_id-id}
use jonoob_part_backend.Payment.Effects.{Effect, at_start, then_pure-Effect, Keeps, when-Keeps}
use jonoob_part_backend.Payment.Unsettled.{expire-Effect, verify-Effect}
use jonoob_part_backend.Payment.Tickets.{cancel_job-Keeps}
use jonoob_part_backend.Payment.Handlers.{
  is_pending_answer, on_expiry, handle_expiry, handle_callback,
}

module _ {W X : Type 0} (sv : Services W X) where
  on_expiry-Effect :
      (row : PaymentRow) (s : PaymentStatus) (w : World W X)
      → Effect row.id w.db (on_expiry sv row s w)
  on_expiry-Effect row pending w = expire-Effect sv row.id w
  on_expiry-Effect row processing w =
      then_pure-Effect row.id w.db (verify sv row.id) tt w (verify-Effect sv row.id w)
  on_expiry-Effect row paid w = same refl
  on_expiry-Effect row failure w = same refl
  on_expiry-Effect row expired w = same refl
  on_expiry-Effect row refunded w = same refl

  -- In every world and for all answers of the services: an exception of the expiry job leaves the
  -- database as it was, and otherwise the payments change by at most one step of the payment named:
  -- a settlement while it was pending, or a status update that `Permits` allows.
  pub handle_expiry-Effect : (id : ℕ) (w : World W X) → Effect id w.db (handle_expiry sv id w)
  unfolding handle_expiry
  handle_expiry-Effect id w = elim (Option-cases (find_by_id id w.db.payments)) [
    | inl e ↦ rw e refl
    | inr (row, e) ↦ rw e (
        at_start id row.id w.db w.db (on_expiry sv row row.status w) refl
          (find_by_id-id id w.db.payments row e) (on_expiry-Effect row row.status w))
  ]

  -- After the verification only the job queue is called.
  after_verify :
      {A : Type 0} (id : ℕ) (start : Db W) (m : A → Action W X (Unit {0}))
      (r : Result PaymentError A × World W X)
      → ((a : A) → Keeps (m a))
      → Effect id start r
      → Post {A = A}
          (λ _ db. Outcome id start db)
          (λ db. Outcome id start db)
          (and_then r (λ a. m a >> pure a))
  after_verify id start m (err e, w) q h = same (ap (λ d. d.payments) h)
  after_verify {A} id start m (ok a, w) q h = go (m a w) (q a w)
    where
      go :
          (r : Result PaymentError (Unit {0}) × World W X)
          → Post (λ _ db. db ≡ w.db) (λ db. db ≡ w.db) r
          → Post {A = A}
              (λ _ db. Outcome id start db)
              (λ db. Outcome id start db)
              (and_then r (λ _. pure a))
      go (ok b, w') e = subst (Outcome id start) (sym e) h
      go (err x, w') e = subst (Outcome id start) (sym e) h

  -- In every world and for all answers of the services: whether a gateway's callback succeeds or
  -- throws, the payments change by at most one step of the payment named: a settlement while it was
  -- pending, or a status update that `Permits` allows.
  pub handle_callback-Outcome :
      (id : ℕ) (w : World W X)
      → Post (λ _ db. Outcome id w.db db) (λ db. Outcome id w.db db) (handle_callback sv id w)
  unfolding handle_callback require_payment
  handle_callback-Outcome id w = elim (Option-cases (find_by_id id w.db.payments)) [
    | inl e ↦ rw e (same refl)
    | inr (row, e) ↦ rw e (
        after_verify id w.db
          (λ status. when (not (is_pending_answer status)) (cancel_job sv row.expiry_job_id))
          (verify sv id w)
          (λ status.
            when-Keeps (not (is_pending_answer status)) (cancel_job sv row.expiry_job_id)
              (cancel_job-Keeps sv row.expiry_job_id))
          (verify-Effect sv id w))
  ]
