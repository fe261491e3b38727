-- ===== src/Fulfillment/Effects.antt =====
-- What the two cancellations of the fulfillment service do.
use jonoob_part_backend.Common.{ℕ, ◌≡◌, refl, ◌⊎◌, inl, inr, find?, ◌==◌, Option-cases, ok, err}
use jonoob_part_backend.Fulfillment.Service.{
  Status, pending, processing, fulfilled, canceled_by_customer, canceled_by_manager,
  canceled_by_merchant, FulfillmentError, not_found, conflict, invalid_status, Warehouse, Db,
  find_row, update, cancel_in, cancel, cancel_by_manager,
}

cancel_in-same :
    {Stock : Type 0} (s : Status) (db : Db Stock)
    → (cancel_in s db ≡ ok db) ⊎ ((e : FulfillmentError) × (cancel_in s db ≡ err e))
cancel_in-same pending db = inl refl
cancel_in-same processing db = inl refl
cancel_in-same canceled_by_customer db = inl refl
cancel_in-same fulfilled db = inr (conflict, refl)
cancel_in-same canceled_by_manager db = inr (conflict, refl)
cancel_in-same canceled_by_merchant db = inr (invalid_status, refl)

-- In every state and whatever the warehouse does: `cancel` throws or succeeds without a change, so
-- the fulfillment keeps its state and its reservation; and `cancelByManager` throws, since it writes a
-- state that the column's enum does not have.
pub cancellations_change_nothing :
    {Stock : Type 0} (wh : Warehouse Stock) (id : ℕ) (db : Db Stock)
    → ((cancel id db ≡ ok db) ⊎ ((e : FulfillmentError) × (cancel id db ≡ err e)))
      × ((e : FulfillmentError) × (cancel_by_manager wh id db ≡ err e))
unfolding cancel cancel_by_manager find_row update
cancellations_change_nothing wh id db = elim (Option-cases (find? (λ r. r.id == id) db.rows)) [
  | inl e ↦ rw e (inr (not_found, refl), (not_found, refl))
  | inr (r, e) ↦ rw e (cancel_in-same r.status db, (invalid_status, refl))
]
