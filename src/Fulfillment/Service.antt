-- ===== src/Fulfillment/Service.antt =====
-- fulfillment.service.ts and fulfillment.repository.ts of features/order, with the enum of
-- infrastructure/schema/src/order/fulfillments.schema.ts. The reservation and movement services
-- are parameters: each takes their state and may fail.
use jonoob_part_backend.Common.{
  ℕ, ◌*◌, ℤ, pos, Bool, true, false, Option, none, some, List, [], ◌∷◌, ◌++◌, map, find?, ◌==◌,
  if◌then◌else◌, Result, ok, err,
}
use jonoob_part_backend.Fulfillment.Stocks.{
  Line, StockMap, StockError, Mismatch, sum_by_stock, diff_stocks,
}

-- The names of states that the code writes or reads.
pub data Status : Type 0 where
  pending : Status
  processing : Status
  fulfilled : Status
  canceled_by_customer : Status
  canceled_by_manager : Status
  canceled_by_merchant : Status

-- The values of the enum `fulfillment_status`.
abbrev pub in_enum : Status → Bool
in_enum canceled_by_merchant = false
in_enum _ = true

pub record Item : Type 0 where
  pub stock_id : Option ℕ
  pub quantity : ℕ

pub data MerchandiseLine : Type 0 where
  bundle : List Item → (quantity : ℕ) → MerchandiseLine
  single : (stock_id : Option ℕ) (quantity : ℕ) → MerchandiseLine

pub record Row : Type 0 where
  pub id : ℕ
  pub order_id : ℕ
  pub reservation_id : ℕ
  pub status : Status
  pub lines : List MerchandiseLine

pub data Event : Type 0 where
  order_fulfilled : (order_id : ℕ) → Event
  order_canceled_by_manager : (order_id : ℕ) → Event

pub data FulfillmentError : Type 0 where
  not_found : FulfillmentError
  conflict : FulfillmentError
  mismatched : List Mismatch → FulfillmentError
  no_stock : FulfillmentError
  invalid_status : FulfillmentError
  service_failed : FulfillmentError

-- The warehouse's services.
pub record Warehouse (Stock : Type 0) : Type 0 where
  pub release : (reservation_id : ℕ) → Stock → Option Stock
  pub issue : (idempotency_key order_id : ℕ) → StockMap → Stock → Option Stock

-- What a transaction covers.
pub record Db (Stock : Type 0) : Type 0 where
  pub rows : List Row
  pub events : List Event
  pub stock : Stock

-- `line.items.map(...)` and its like
abbrev pub lines_of : MerchandiseLine → List Line
lines_of (bundle items n) =
    map (λ i. record { stock_id = i.stock_id; quantity = pos (i.quantity * n) }) items
lines_of (single s n) = record { stock_id = s; quantity = pos n } ∷ []

unfoldable pub flat_lines : List MerchandiseLine → List Line
flat_lines [] = []
flat_lines (l ∷ ls) = lines_of l ++ flat_lines ls

-- A pick: a stock and a whole number.
pub record Pick : Type 0 where
  pub stock_id : ℕ
  pub quantity : ℤ

abbrev pub picked_line : Pick → Line
picked_line p = record { stock_id = some p.stock_id; quantity = p.quantity }

infixl 5 ◌>>=◌
abbrev pub ◌>>=◌ :
    {A B : Type 0}
    → Result FulfillmentError A
    → (A → Result FulfillmentError B)
    → Result FulfillmentError B
ok a >>= f = f a
err e >>= f = err e

abbrev pub sums_of : Result StockError StockMap → Result FulfillmentError StockMap
sums_of (ok m) = ok m
sums_of (err e) = err no_stock

abbrev pub with_status : ℕ → Status → Row → Row
with_status id s r = if r.id == id then record r { status = s } else r

abbrev pub is_pending : Status → Bool
is_pending pending = true
is_pending _ = false

abbrev pub Change : Type 0 → Type 0
Change Stock = Result FulfillmentError (Db Stock)

abbrev pub found : Option Row → Result FulfillmentError Row
found none = err not_found
found (some r) = ok r

module _ {Stock : Type 0} where
  -- `findById` with `assertFulfillmentFound`
  unfoldable pub find_row : ℕ → Db Stock → Result FulfillmentError Row
  find_row id db = found (find? (λ r. r.id == id) db.rows)

  unfoldable pub update : ℕ → Status → Db Stock → Change Stock
  update id s db =
      if in_enum s
      then ok (record db { rows = map (with_status id s) db.rows })
      else err invalid_status

  abbrev pub of_service : Option Stock → Db Stock → Change Stock
  of_service none db = err service_failed
  of_service (some s) db = ok (record db { stock = s })

  unfoldable pub fulfill : ℕ → Db Stock → Change Stock
  unfolding find_row update
  fulfill id db =
      find_row id db >>= λ r. if is_pending r.status then update id processing db else err conflict

  abbrev pub unless_mismatched : List Mismatch → Change Stock → Change Stock
  unless_mismatched [] k = k
  unless_mismatched (d ∷ ds) k = err (mismatched (d ∷ ds))

  abbrev pub cancel_in : Status → Db Stock → Change Stock
  cancel_in canceled_by_customer db = ok db
  cancel_in pending db = ok db
  cancel_in processing db = ok db
  cancel_in fulfilled db = err conflict
  cancel_in canceled_by_manager db = err conflict
  -- `assertNever`
  cancel_in canceled_by_merchant db = err invalid_status

  unfoldable pub cancel : ℕ → Db Stock → Change Stock
  unfolding find_row
  cancel id db = find_row id db >>= λ r. cancel_in r.status db

module _ {Stock : Type 0} (wh : Warehouse Stock) where
  unfoldable pub issue_picked : Row → StockMap → Db Stock → Change Stock
  unfolding update
  issue_picked r required db = of_service (wh.release r.reservation_id db.stock) db >>= λ db.
      of_service (wh.issue r.id r.order_id required db.stock) db >>= λ db.
      update r.id fulfilled db >>= λ db.
      ok (record db { events = db.events ++ (order_fulfilled r.order_id ∷ []) })

  unfoldable pub complete : ℕ → List Pick → Db Stock → Change Stock
  unfolding find_row flat_lines sum_by_stock diff_stocks issue_picked
  complete id picked db = find_row id db >>= λ r.
      sums_of (sum_by_stock (flat_lines r.lines)) >>= λ required.
      sums_of (sum_by_stock (map picked_line picked)) >>= λ actual.
      unless_mismatched (diff_stocks required actual) (issue_picked r required db)

  unfoldable pub cancel_by_manager : ℕ → Db Stock → Change Stock
  unfolding find_row update
  cancel_by_manager id db = find_row id db >>= λ r. update id canceled_by_merchant db >>= λ db.
      of_service (wh.release r.reservation_id db.stock) db >>= λ db.
      ok (record db { events = db.events ++ (order_canceled_by_manager r.order_id ∷ []) })
