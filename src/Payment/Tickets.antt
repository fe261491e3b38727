-- ===== src/Payment/Tickets.antt =====
-- Settlements with a gateway: what they do to the payments.
use jonoob_part_backend.Common.{
  ℕ, ◌+◌, ◌*◌, ◌≤◌, ◌≡◌, refl, inl, inr, Bool, true, false, not, Option, none, some, Option-cases,
}
use jonoob_part_backend.Payment.Rows.{
  pending, PaymentRow, find_by_id, Settlement, by_gateway, by_both,
}
use jonoob_part_backend.Payment.Monad.{
  OrderContext, Db, World, PaymentError, conflict, bad_request, Action, ◌>>=◌, ◌>>◌, raise_if,
  transaction,
}
use jonoob_part_backend.Payment.Services.{Services, PaymentGateway}
use jonoob_part_backend.Payment.Core.{resolve, settle_row}
use jonoob_part_backend.Payment.Settle.{
  withdraw_for, cancel_job, postpone_job, ticket_for, settle_with_gateway, settle_with_both,
}
use jonoob_part_backend.Payment.Logic.{Post, Quiet, in_db-Quiet}
use jonoob_part_backend.Payment.Outcome.{IsPositive, Outcome}
use jonoob_part_backend.Payment.Effects.{
  settle_row-Effect, bind-Quiet-Effect, Quiet-then-Effect, Effect, transaction-Effect, at_start,
  found_at, Keeps, outside-Keeps, Keeps-then, then_pure-Effect,
}

module _ {W X : Type 0} (sv : Services W X) where
  pub raise_if-Quiet : (b : Bool) (e : PaymentError) → Quiet (raise_if {W = W} {X = X} b e)
  raise_if-Quiet true e w = tt
  raise_if-Quiet false e w = refl

  -- Inside a transaction: the conditional update, then calls that leave the payments alone.
  pub settle-then-Quiet :
      (start : Db W) (row : PaymentRow) (at : ℕ) (s : Settlement) (k : Bool → Action W X (Unit {0}))
      (w : World W X)
      → w.db.payments ≡ start.payments
      → row.status ≡ pending
      → IsPositive s
      → find_by_id row.id start.payments ≡ some row
      → ((b : Bool) → Quiet (k b))
      → Post
          (λ _ db. Outcome row.id start db)
          (λ _. Unit)
          ((settle_row sv row.id at row.customer_id s >>= k) w)
  settle-then-Quiet start row at s k w e p pos found q =
      bind-Quiet-Effect row.id start (settle_row sv row.id at row.customer_id s) k w
        (settle_row-Effect sv start row at s w e p pos found) q

  resolve-Keeps : (key : Option ℕ) → Keeps (resolve sv key)
  resolve-Keeps none w = refl
  resolve-Keeps (some key) w = elim (Option-cases (sv.gateways key)) [
    | inl e ↦ rw e refl
    | inr (g, e) ↦ rw e refl
  ]

  postpone_job-Keeps : (job : Option ℕ) (g : PaymentGateway X) → Keeps (postpone_job sv job g)
  postpone_job-Keeps none g w = refl
  postpone_job-Keeps (some job) g w =
      outside-Keeps
        (sv.job_update job
          (sv.now w.ext + (g.expiry_in_minutes + g.verification_deadline_in_minutes) * 60_000))
        w

  ticket_for-Keeps :
      (row : PaymentRow) (o : OrderContext) (amount : ℕ) (g : PaymentGateway X)
      → Keeps (ticket_for sv row o amount g)
  ticket_for-Keeps row o amount g w =
      outside-Keeps
        (g.create_payment (record {
          provider_id = row.id;
          phone = o.customer_phone;
          merchandise = o.merchandise;
          amount = amount;
        }))
        w

  pub cancel_job-Keeps : (job : Option ℕ) → Keeps (cancel_job sv job)
  cancel_job-Keeps none w = refl
  cancel_job-Keeps (some job) w = outside-Keeps (sv.job_cancel job) w

  raise_if-Keeps : (b : Bool) (e : PaymentError) → Keeps (raise_if {W = W} {X = X} b e)
  raise_if-Keeps true e w = refl
  raise_if-Keeps false e w = refl

  pub settle_with_gateway-Effect :
      (row : PaymentRow) (o : OrderContext) (key amount : ℕ) (w : World W X)
      → row.status ≡ pending
      → find_by_id row.id w.db.payments ≡ some row
      → Effect row.id w.db (settle_with_gateway sv row o key amount w)
  unfolding settle_with_gateway
  settle_with_gateway-Effect row o key amount w p found =
      Keeps-then row.id (resolve sv (some key)) _ w.db w refl (resolve-Keeps (some key)) λ g w1 e1.
        Keeps-then row.id (postpone_job sv row.expiry_job_id g) _ w.db w1 e1
          (postpone_job-Keeps row.expiry_job_id g)
          λ _ w2 e2.
            Keeps-then row.id (ticket_for sv row o amount g) _ w.db w2 e2
              (ticket_for-Keeps row o amount g)
              λ t w3 e3.
                let at = sv.now w3.ext in
                let s = by_gateway amount key t.tracking_code in
                let k : Bool → Action W X (Unit {0}) = λ b. raise_if (not b) conflict in
                let tx = settle_row sv row.id at row.customer_id s >>= k in
                then_pure-Effect row.id w.db (transaction tx) t.payment_url w3 (
                  at_start row.id row.id w.db w3.db (transaction tx w3) e3 refl (
                    transaction-Effect row.id tx w3 (
                      settle-then-Quiet w3.db row at s k w3 refl p tt
                        (found_at row w.db w3.db e3 found) λ b. raise_if-Quiet (not b) conflict)))

  pub settle_with_both-Effect :
      (row : PaymentRow) (o : OrderContext) (key wallet_amount gateway_amount : ℕ) (w : World W X)
      → row.status ≡ pending
      → (1 ≤ wallet_amount) × (1 ≤ gateway_amount)
      → find_by_id row.id w.db.payments ≡ some row
      → Effect row.id w.db (settle_with_both sv row o key wallet_amount gateway_amount w)
  unfolding settle_with_both
  settle_with_both-Effect row o key a b w p pos found =
      Keeps-then row.id (resolve sv (some key)) _ w.db w refl (resolve-Keeps (some key)) λ g w1 e1.
        Keeps-then row.id (raise_if (not g.supports_partial_payment) bad_request) _ w.db w1 e1
          (raise_if-Keeps (not g.supports_partial_payment) bad_request)
          λ _ w2 e2.
            Keeps-then row.id (postpone_job sv row.expiry_job_id g) _ w.db w2 e2
              (postpone_job-Keeps row.expiry_job_id g)
              λ _ w3 e3.
                Keeps-then row.id (ticket_for sv row o b g) _ w.db w3 e3
                  (ticket_for-Keeps row o b g)
                  λ t w4 e4.
                    let at = sv.now w4.ext in
                    let s = by_both a b key t.tracking_code in
                    let k : Bool → Action W X (Unit {0}) = λ found. raise_if (not found) conflict in
                    let change = settle_row sv row.id at row.customer_id s >>= k in
                    let tx = withdraw_for sv row at a >> change in
                    then_pure-Effect row.id w.db (transaction tx) t.payment_url w4 (
                      at_start row.id row.id w.db w4.db (transaction tx w4) e4 refl (
                        transaction-Effect row.id tx w4 (
                          Quiet-then-Effect row.id w4.db (withdraw_for sv row at a) change w4 refl
                            (in_db-Quiet _)
                            λ v e.
                              settle-then-Quiet w4.db row at s k v e p pos
                                (found_at row w.db w4.db e4 found)
                                λ found. raise_if-Quiet (not found) conflict)))
