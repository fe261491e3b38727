-- ===== src/Payment/Refunds.antt =====
-- `refund`: what it does to the payments.
use jonoob_part_backend.Common.{
  Number, natural, other, max_safe_integer, ℕ, ◌≡◌, refl, ◌&&◌, not, Option, none, some, arith, ltb,
  leb,
}
use jonoob_part_backend.Payment.Rows.{
  paid, PaymentMethod, PaymentRow, find_by_id, to_refunded, to_partly_refunded,
}
use jonoob_part_backend.Payment.Monad.{Db, World, bad_request, ◌>>◌, when, outside}
use jonoob_part_backend.Payment.Services.{Services}
use jonoob_part_backend.Payment.Selection.{
  RefundRequest, full_refund, partial_refund, is_partial, is_wallet, paid_total,
}
use jonoob_part_backend.Payment.Core.{update_status, refund_to_wallet}
use jonoob_part_backend.Payment.Refund.{
  mark_refunded, refund_part, refund_at_gateway, refund_all, refund_as, refund,
}
use jonoob_part_backend.Payment.Logic.{Post, when-Quiet, require-then, raise_if-then, assert-then}
use jonoob_part_backend.Payment.Outcome.{Outcome, find_by_id-id, found_own}
use jonoob_part_backend.Payment.Effects.{
  refund_to_wallet-Quiet, update-Effect, Quiet-then-Effect, Effect, transaction-Effect, at_start,
  resolve-then, found_at, Keeps, outside-Keeps, when-Keeps, Keeps-then,
}

module _ {W X : Type 0} (sv : Services W X) where
  refund_part-Effect :
      (row : PaymentRow) (a : Number) (w : World W X)
      → row.status ≡ paid
      → find_by_id row.id w.db.payments ≡ some row
      → Effect row.id w.db (refund_part sv row a w)
  unfolding refund_part
  refund_part-Effect row other w p found = refl
  refund_part-Effect row (natural a) w p found =
      let Q = λ (_ : Unit {0}) (db : Db W). Outcome row.id w.db db in
      let back = refund_to_wallet sv row (some a) in
      let change = update_status sv row.id (to_partly_refunded a) in
      raise_if-then sv w.db Q (not (leb 1 a && leb a max_safe_integer)) bad_request _ w refl
        λ positive. raise_if-then sv w.db Q (ltb (paid_total row) a) bad_request _ w refl λ enough.
          transaction-Effect row.id (back >> change) w (
            Quiet-then-Effect row.id w.db back change w refl
              (refund_to_wallet-Quiet sv row (some a))
              λ w' e.
                update-Effect sv w.db row (to_partly_refunded a) w' e
                  (p, ground (arith, positive), ground (arith, enough)) found)

  refund_at_gateway-Keeps : (row : PaymentRow) → Keeps (refund_at_gateway sv row)
  refund_at_gateway-Keeps row w =
      resolve-then sv (λ _ db. db ≡ w.db) row.gateway_key
        (λ g. outside (g.refund_payment row.id row.tracking_code)) w
        λ g. outside-Keeps (g.refund_payment row.id row.tracking_code) w

  mark_refunded-Effect :
      (start : Db W) (row : PaymentRow) (m : Option PaymentMethod) (w : World W X)
      → w.db.payments ≡ start.payments
      → row.status ≡ paid
      → row.method ≡ m
      → find_by_id row.id start.payments ≡ some row
      → Post (λ _ db. Outcome row.id start db) (λ _. Unit) (mark_refunded sv row m w)
  mark_refunded-Effect start row none w e p same_method found = tt
  mark_refunded-Effect start row (some m) w e p same_method found =
      update-Effect sv start row (to_refunded m) w e (p, same_method) found

  refund_all-Effect :
      (row : PaymentRow) (w : World W X)
      → row.status ≡ paid
      → find_by_id row.id w.db.payments ≡ some row
      → Effect row.id w.db (refund_all sv row w)
  unfolding refund_all
  refund_all-Effect row w p found =
      let all_back = when (is_wallet row.method) (refund_to_wallet sv row row.amount) in
      let part_back = when (is_partial row.method) (refund_to_wallet sv row row.wallet_amount) in
      let change = mark_refunded sv row row.method in
      Keeps-then row.id (when (not (is_wallet row.method)) (refund_at_gateway sv row)) _ w.db w refl
        (when-Keeps (not (is_wallet row.method)) (refund_at_gateway sv row)
          (refund_at_gateway-Keeps row))
        λ _ w' e. at_start row.id row.id w.db w'.db _ e refl (
          transaction-Effect row.id (all_back >> (part_back >> change)) w' (
            Quiet-then-Effect row.id w'.db all_back (part_back >> change) w' refl
              (when-Quiet (is_wallet row.method) (refund_to_wallet sv row row.amount)
                (refund_to_wallet-Quiet sv row row.amount))
              λ v same_v.
                Quiet-then-Effect row.id w'.db part_back change v same_v
                  (when-Quiet (is_partial row.method) (refund_to_wallet sv row row.wallet_amount)
                    (refund_to_wallet-Quiet sv row row.wallet_amount))
                  λ v' same_v'.
                    mark_refunded-Effect w'.db row row.method v' same_v' p refl
                      (found_at row w.db w'.db e found)))

  refund_as-Effect :
      (row : PaymentRow) (request : RefundRequest) (w : World W X)
      → row.status ≡ paid
      → find_by_id row.id w.db.payments ≡ some row
      → Effect row.id w.db (refund_as sv row request w)
  unfolding refund_as
  refund_as-Effect row full_refund w p found = refund_all-Effect row w p found
  refund_as-Effect row (partial_refund a) w p found = refund_part-Effect row a w p found

  -- In every world and for all answers of the services: an exception of `refund` leaves the database
  -- as it was, and otherwise the payments change by at most one step of the payment named: a
  -- settlement while it was pending, or a status update that `Permits` allows, which for a partial
  -- refund has an amount of at least 1 and at most what was paid.
  pub refund-Effect :
      (id : ℕ) (request : RefundRequest) (w : World W X) → Effect id w.db (refund sv id request w)
  unfolding refund
  refund-Effect id request w =
      require-then sv w.db (λ _ db. Outcome id w.db db) id _ w refl
        λ row found.
          let same_id = find_by_id-id id w.db.payments row found in
          assert-then sv w.db (λ _ db. Outcome id w.db db) row paid _ w refl
            λ p.
              at_start id row.id w.db w.db (refund_as sv row request w) refl same_id
                (refund_as-Effect row request w p (found_own id w.db.payments row found))
