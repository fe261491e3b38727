-- ===== src/Payment/Unsettled.antt =====
-- `expire`, `verify` and `cancel`: what they do to the payments.
use jonoob_part_backend.Common.{ℕ, ◌≡◌, refl, inl, inr, some}
use jonoob_part_backend.Payment.Rows.{
  pending, processing, PaymentRow, find_by_id, StatusUpdate, to_pending, to_failure, to_expired,
  to_paid,
}
use jonoob_part_backend.Payment.Monad.{
  World, Action, pure, ◌>>=◌, ◌>>◌, when, transaction, in_db, outside,
}
use jonoob_part_backend.Payment.Services.{Services, GatewayStatus, verified, verified_before}
use jonoob_part_backend.Payment.Selection.{is_partial}
use jonoob_part_backend.Payment.Core.{
  update_status, refund_to_wallet, on_paid, on_failed, expire, on_verified, verify, cancel,
}
use jonoob_part_backend.Payment.Logic.{
  in_db-Quiet, when-Quiet, then-Quiet, outside-then, require-then, assert-then,
}
use jonoob_part_backend.Payment.Outcome.{Permits, Outcome, same, find_by_id-id, found_own}
use jonoob_part_backend.Payment.Effects.{
  refund_to_wallet-Quiet, update-Effect, then-Quiet-Effect, Quiet-then-Effect, Effect,
  transaction-Effect, at_start, checked-Effect, found_at, then_pure-Effect,
}

module _ {W X : Type 0} (sv : Services W X) where
  on_failed-Effect :
      (row : PaymentRow) (u : StatusUpdate) (w : World W X)
      → Permits row u
      → find_by_id row.id w.db.payments ≡ some row
      → Effect row.id w.db (on_failed sv row u w)
  unfolding on_failed
  on_failed-Effect row u w ok_u found =
      let back = refund_to_wallet sv row row.wallet_amount in
      let undo : Action W X (Unit {0}) = in_db (sv.cancel_delivery row.order_id) in
      let change = update_status sv row.id u in
      let after : Action W X (Unit {0}) = when (is_partial row.method) back >> undo in
      transaction-Effect row.id (change >> after) w (
        then-Quiet-Effect row.id w.db change after w (update-Effect sv w.db row u w refl ok_u found)
          (then-Quiet (when (is_partial row.method) back) undo
            (when-Quiet (is_partial row.method) back
              (refund_to_wallet-Quiet sv row row.wallet_amount))
            (in_db-Quiet (sv.cancel_delivery row.order_id))))

  on_paid-Effect :
      (row : PaymentRow) (w : World W X)
      → Permits row to_paid
      → find_by_id row.id w.db.payments ≡ some row
      → Effect row.id w.db (on_paid sv row.id row.order_id w)
  unfolding on_paid
  on_paid-Effect row w ok_u found =
      let change = update_status sv row.id to_paid in
      let after : Action W X (Unit {0}) = in_db (sv.fulfill row.order_id) in
      transaction-Effect row.id (change >> after) w (
        then-Quiet-Effect row.id w.db change after w
          (update-Effect sv w.db row to_paid w refl ok_u found)
          (in_db-Quiet (sv.fulfill row.order_id)))

  on_verified-Effect :
      (row : PaymentRow) (status : GatewayStatus) (w : World W X)
      → row.status ≡ processing
      → find_by_id row.id w.db.payments ≡ some row
      → Effect row.id w.db (on_verified sv row status w)
  unfolding on_verified
  on_verified-Effect row verified w p found = on_paid-Effect row w p found
  on_verified-Effect row verified_before w p found = on_paid-Effect row w p found
  on_verified-Effect row GatewayStatus.pending w p found = same refl
  on_verified-Effect row GatewayStatus.expired w p found =
      on_failed-Effect row to_expired w (inr p) found
  on_verified-Effect row GatewayStatus.failed w p found = on_failed-Effect row to_failure w p found
  on_verified-Effect row GatewayStatus.canceled w p found =
      on_failed-Effect row to_failure w p found
  on_verified-Effect row GatewayStatus.reversed w p found =
      on_failed-Effect row to_failure w p found

  -- In every world and for all answers of the services: an exception of `expire` leaves the database
  -- as it was, and otherwise the payments change by at most one step of the payment named: a
  -- settlement while it was pending, or a status update that `Permits` allows.
  pub expire-Effect : (id : ℕ) (w : World W X) → Effect id w.db (expire sv id w)
  unfolding expire
  expire-Effect id w =
      require-then sv w.db (λ _ db. Outcome id w.db db) id _ w refl
        λ row found.
          let same_id = find_by_id-id id w.db.payments row found in
          assert-then sv w.db (λ _ db. Outcome id w.db db) row pending _ w refl
            λ p.
              at_start id row.id w.db w.db (on_failed sv row to_expired w) refl same_id
                (on_failed-Effect row to_expired w (inl p) (found_own id w.db.payments row found))

  -- The transaction of `cancel`.
  abbrev undo_settlement : PaymentRow → Action W X (Unit {0})
  undo_settlement row =
      when (is_partial row.method) (refund_to_wallet sv row row.wallet_amount)
      >> (update_status sv row.id to_pending >> in_db (sv.cancel_delivery row.order_id))

  undo-Effect :
      (row : PaymentRow) (w : World W X)
      → row.status ≡ processing
      → find_by_id row.id w.db.payments ≡ some row
      → Effect row.id w.db (transaction (undo_settlement row) w)
  undo-Effect row w p found =
      let back = refund_to_wallet sv row row.wallet_amount in
      let change = update_status sv row.id to_pending in
      let undo : Action W X (Unit {0}) = in_db (sv.cancel_delivery row.order_id) in
      transaction-Effect row.id (undo_settlement row) w (
        Quiet-then-Effect row.id w.db (when (is_partial row.method) back) (change >> undo) w refl
          (when-Quiet (is_partial row.method) back
            (refund_to_wallet-Quiet sv row row.wallet_amount))
          λ w' e.
            then-Quiet-Effect row.id w.db change undo w'
              (update-Effect sv w.db row to_pending w' e p found)
              (in_db-Quiet (sv.cancel_delivery row.order_id)))

  -- In every world and for all answers of the services: an exception of `verify` leaves the database
  -- as it was, and otherwise the payments change by at most one step of the payment named: a
  -- settlement while it was pending, or a status update that `Permits` allows.
  pub verify-Effect : (id : ℕ) (w : World W X) → Effect id w.db (verify sv id w)
  unfolding verify
  verify-Effect id w =
      checked-Effect sv id
        (λ row g. do
          status ← outside (g.verify_payment row.id row.tracking_code)
          on_verified sv row status
          pure status)
        w
        λ row g p found.
          outside-then sv w.db (λ _ db. Outcome row.id w.db db)
            (g.verify_payment row.id row.tracking_code) _ w refl
            λ status w' e. then_pure-Effect row.id w.db (on_verified sv row status) status w' (
              at_start row.id row.id w.db w'.db (on_verified sv row status w') e refl
                (on_verified-Effect row status w' p (found_at row w.db w'.db e found)))

  -- In every world and for all answers of the services: an exception of `cancel` leaves the database
  -- as it was, and otherwise the payments change by at most one step of the payment named: a
  -- settlement while it was pending, or a status update that `Permits` allows.
  pub cancel-Effect : (id : ℕ) (w : World W X) → Effect id w.db (cancel sv id w)
  unfolding cancel
  cancel-Effect id w =
      checked-Effect sv id
        (λ row g. do
          outside (g.cancel_payment row.id row.tracking_code)
          transaction (undo_settlement row))
        w
        λ row g p found.
          outside-then sv w.db (λ _ db. Outcome row.id w.db db)
            (g.cancel_payment row.id row.tracking_code) _ w refl
            λ _ w' e.
              at_start row.id row.id w.db w'.db (transaction (undo_settlement row) w') e refl
                (undo-Effect row w' p (found_at row w.db w'.db e found))
