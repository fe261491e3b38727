-- ===== src/Fulfillment/Tests.antt =====
-- Runs of the fulfillment service.
use jonoob_part_backend.Common.{
  ℕ, suc, ◌≡◌, refl, ◌⊎◌, ℤ, pos, negsuc, some, List, [], ◌∷◌, ok, err,
}
use jonoob_part_backend.Fulfillment.Service.{
  pending, processing, fulfilled, bundle, single, Row, order_fulfilled, FulfillmentError,
  mismatched, Warehouse, Db, Pick, fulfill, complete, cancel, cancel_by_manager,
}
use jonoob_part_backend.Fulfillment.Effects.{cancellations_change_nothing}

-- A warehouse that counts its calls.
abbrev counting : Warehouse ℕ
counting = record { release = λ id n. some (suc n); issue = λ key order items n. some (suc n) }

-- Three pieces of stock 5, two of them in a bundle taken twice, and two of stock 6.
abbrev row : Row
row = record {
  id = 1;
  order_id = 8;
  reservation_id = 3;
  status = pending;
  lines =
      bundle
        (record { stock_id = some 5; quantity = 1 }
          ∷ record { stock_id = some 6; quantity = 1 }
          ∷ [])
        2
      ∷ single (some 5) 1
      ∷ [];
}

abbrev db : Db ℕ
db = record { rows = row ∷ []; events = []; stock = 0 }

abbrev pick : ℕ → ℤ → Pick
pick s q = record { stock_id = s; quantity = q }

abbrev good : List Pick
good = pick 6 (pos 2) ∷ pick 5 (pos 4) ∷ pick 5 (negsuc 0) ∷ []

completes :
    complete counting 1 good db
    ≡ ok (record {
      rows = record row { status = fulfilled } ∷ [];
      events = order_fulfilled 8 ∷ [];
      stock = 2;
    })
unfolding complete
completes = refl

mismatch_found :
    complete counting 1 (pick 5 (pos 3) ∷ []) db
    ≡ err (mismatched (record { stock_id = 6; required = pos 2; picked = pos 0 } ∷ []))
unfolding complete
mismatch_found = refl

moves_on : fulfill 1 db ≡ ok (record db { rows = record row { status = processing } ∷ [] })
unfolding fulfill
moves_on = refl

cancellations_example :
    ((cancel 1 db ≡ ok db) ⊎ ((e : FulfillmentError) × (cancel 1 db ≡ err e)))
    × ((e : FulfillmentError) × (cancel_by_manager counting 1 db ≡ err e))
cancellations_example = cancellations_change_nothing counting 1 db
