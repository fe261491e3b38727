-- ===== src/Supply/Documents.antt =====
-- The documents of features/procurement/supply/impl/src and what an edit makes of them. Prices are only
-- compared and copied; quantities are natural numbers.
use jonoob_part_backend.Common.{
  ℕ, ◌-◌, Bool, true, false, Option, none, some, List, ◌++◌, map, mem, ltb, ◌==◌, if◌then◌else◌,
}
use jonoob_part_backend.Collections.LineItems.{LineItems}
use jonoob_part_backend.Collections.Keyed.{collect}

-- `SupplyDocumentLine`
pub record Line : Type 0 where
  pub good_id : ℕ
  pub quantity : ℕ
  pub purchase_price : ℕ

pub record SupplyDocument : Type 0 where
  pub id : ℕ
  pub specialist_id : ℕ
  pub supplier_id : ℕ
  pub supplied_at : ℕ
  pub lines : List Line

-- The fields of a document that an edit and a recording give.
pub record DocumentEdit : Type 0 where
  pub id : ℕ
  pub specialist_id : ℕ
  pub lines : List Line

pub record PurchaseRecord : Type 0 where
  pub id : ℕ
  pub good_id : ℕ

pub data Operation : Type 0 where
  incr : Operation
  decr : Operation

pub record StockUpdate : Type 0 where
  pub good_id : ℕ
  pub quantity : ℕ
  pub operation : Operation

-- What the warehouse is given, `{ goodId, quantity }`.
pub record Goods : Type 0 where
  pub good_id : ℕ
  pub quantity : ℕ

abbrev pub goods_changed : StockUpdate → Goods
goods_changed u = record { good_id = u.good_id; quantity = u.quantity }

abbrev pub goods_of : Line → Goods
goods_of l = record { good_id = l.good_id; quantity = l.quantity }

pub data PurchaseTask : Type 0 where
  removal : ℕ → ℕ → PurchaseTask
  creation : ℕ → ℕ → PurchaseTask
  correction : ℕ → ℕ → ℕ → PurchaseTask

abbrev pub task_good : PurchaseTask → ℕ
task_good (removal record_id good) = good
task_good (creation good price) = good
task_good (correction record_id good price) = good

abbrev pub line_good : Line → ℕ
line_good l = l.good_id

abbrev pub update_good : StockUpdate → ℕ
update_good u = u.good_id

abbrev pub quantity_of : Option Line → ℕ
quantity_of none = 0
quantity_of (some l) = l.quantity

-- `quantityDelta`, where it is not 0
abbrev pub changed_by : ℕ → ℕ → ℕ → Option StockUpdate
changed_by good old new =
    if new == old
    then none
    else if ltb old new
    then some (record { good_id = good; quantity = new - old; operation = incr })
    else some (record { good_id = good; quantity = old - new; operation = decr })

-- The stock's part of the loop over the old lines, given the new line.
unfoldable pub stock_change : (ℕ → Option Line) → Line → Option StockUpdate
stock_change new_line l = changed_by l.good_id l.quantity (quantity_of (new_line l.good_id))

abbrev pub task_for : Option PurchaseRecord → Line → Option Line → Option PurchaseTask
task_for none l n = none
task_for (some r) l none = some (removal r.id l.good_id)
task_for (some r) l (some n) =
    if l.purchase_price == n.purchase_price
    then none
    else some (correction r.id l.good_id n.purchase_price)

-- The purchases' part of it. A line without a record has thrown.
unfoldable pub purchase_change :
    (ℕ → Option PurchaseRecord) → (ℕ → Option Line) → Line → Option PurchaseTask
purchase_change record_of new_line l = task_for (record_of l.good_id) l (new_line l.good_id)

-- The loop over the new lines.
unfoldable pub stock_added : List ℕ → Line → Option StockUpdate
stock_added existing l =
    if mem l.good_id existing
    then none
    else some (record { good_id = l.good_id; quantity = l.quantity; operation = incr })

unfoldable pub purchase_added : List ℕ → Line → Option PurchaseTask
purchase_added existing l =
    if mem l.good_id existing then none else some (creation l.good_id l.purchase_price)

abbrev pub is_incr : StockUpdate → Bool
is_incr u = elim u.operation [ incr ↦ true | decr ↦ false ]

abbrev pub is_decr : StockUpdate → Bool
is_decr u = elim u.operation [ incr ↦ false | decr ↦ true ]

abbrev pub is_removal : PurchaseTask → Bool
is_removal (removal r g) = true
is_removal _ = false

abbrev pub is_creation : PurchaseTask → Bool
is_creation (creation g p) = true
is_creation _ = false

abbrev pub is_correction : PurchaseTask → Bool
is_correction (correction r g p) = true
is_correction _ = false

module _ (c : LineItems) where
  abbrev pub new_line : List Line → ℕ → Option Line
  new_line lines k = c.get Line k (c.from Line line_good lines)

  abbrev pub record_for : List PurchaseRecord → ℕ → Option PurchaseRecord
  record_for records k = c.get PurchaseRecord k (c.from PurchaseRecord (λ r. r.good_id) records)

  -- `updateStock`, after both loops
  unfoldable pub stock_updates : List Line → List Line → List StockUpdate
  unfolding stock_change stock_added collect
  stock_updates old new = c.to_array StockUpdate (
      c.from StockUpdate update_good (
        collect (stock_change (new_line new)) old
        ++ collect (stock_added (map line_good old)) (c.to_array Line (c.from Line line_good new))))

  -- `purchaseTasks`, after both loops
  unfoldable pub purchase_tasks : List PurchaseRecord → List Line → List Line → List PurchaseTask
  unfolding purchase_change purchase_added collect
  purchase_tasks records old new = c.to_array PurchaseTask (
      c.from PurchaseTask task_good (
        collect (purchase_change (record_for records) (new_line new)) old
        ++ collect (purchase_added (map line_good old))
            (c.to_array Line (c.from Line line_good new))))
