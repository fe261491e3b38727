-- ===== src/Supply/Service.antt =====
-- recordSupply, editDocument and deleteDocument of
-- features/procurement/supply/impl/src/supply.service.ts. The services are parameters; an error takes the
-- transaction back.
use jonoob_part_backend.Common.{
  ℕ, Bool, true, false, Option, none, some, List, [], ◌∷◌, map, filter, ltb, is_some, if◌then◌else◌,
  Result, ok, err,
}
use jonoob_part_backend.Collections.LineItems.{LineItems}
use jonoob_part_backend.Supply.Documents.{
  Line, Goods, goods_of, goods_changed, SupplyDocument, DocumentEdit, PurchaseRecord, StockUpdate,
  PurchaseTask, is_incr, is_decr, is_removal, is_creation, is_correction, record_for, stock_updates,
  purchase_tasks,
}

pub data SupplyError : Type 0 where
  not_found : SupplyError
  too_late : SupplyError
  no_record : SupplyError
  failed : SupplyError

abbrev pub Act : Type 0 → Type 0
Act W = W → Result SupplyError W

infixl 5 ◌>>◌
abbrev pub ◌>>◌ : {W : Type 0} → Act W → Act W → Act W
◌>>◌ m k w = elim (m w) [ ok w' ↦ k w' | err e ↦ err e ]

abbrev pub unless_empty : {A W : Type 0} → List A → Act W → Act W
unless_empty [] m w = ok w
unless_empty (x ∷ xs) m w = m w

-- The warehouse, the purchases, the suppliers, the outbox and the repository, and the date three days on.
pub record Services (W : Type 0) : Type 0 where
  pub three_days_after : ℕ → ℕ
  pub find_by_id : ℕ → W → Option SupplyDocument
  pub find_supplier : ℕ → W → Option ℕ
  pub find_records : ℕ → W → List PurchaseRecord
  pub create_document : DocumentEdit → ℕ → W → Result SupplyError (ℕ × W)
  pub update_document : DocumentEdit → Act W
  pub delete_document : ℕ → Act W
  pub receipt_goods : ℕ → List Goods → Act W
  pub issue_goods : ℕ → List Goods → Act W
  pub delete_many : List ℕ → Act W
  pub create_many : SupplyDocument → List PurchaseTask → Act W
  pub correct_many : List PurchaseTask → Act W
  pub create_records : ℕ → DocumentEdit → ℕ → Act W
  pub save_event : ℕ → DocumentEdit → ℕ → Act W

abbrev pub record_id : PurchaseTask → List ℕ → List ℕ
record_id (PurchaseTask.removal r g) rest = r ∷ rest
record_id _ rest = rest

abbrev pub record_ids : List PurchaseTask → List ℕ
record_ids [] = []
record_ids (t ∷ ts) = record_id t (record_ids ts)

-- `getOrThrow` in the loop over the old lines, which has written nothing yet
abbrev pub all_recorded : (ℕ → Option PurchaseRecord) → List Line → Bool
all_recorded record_of [] = true
all_recorded record_of (l ∷ ls) =
    let rest = all_recorded record_of ls in if is_some (record_of l.good_id) then rest else false

module _ {W : Type 0} (sv : Services W) where
  abbrev pub in_time : (now : ℕ) → SupplyDocument → Act W → Act W
  in_time now s m w = if ltb (sv.three_days_after s.supplied_at) now then err too_late else m w

  abbrev pub of_document : ℕ → (SupplyDocument → Act W) → Act W
  of_document id k w = elim (sv.find_by_id id w) [ none ↦ err not_found | some s ↦ k s w ]

  -- The transaction of an edit.
  unfoldable pub apply_changes :
      SupplyDocument → DocumentEdit → List StockUpdate → List PurchaseTask → Act W
  apply_changes s document updates tasks =
      unless_empty (filter is_incr updates)
        (sv.receipt_goods s.id (map goods_changed (filter is_incr updates)))
      >> unless_empty (filter is_decr updates)
          (sv.issue_goods s.id (map goods_changed (filter is_decr updates)))
      >> unless_empty (filter is_removal tasks)
          (sv.delete_many (record_ids (filter is_removal tasks)))
      >> unless_empty (filter is_creation tasks) (sv.create_many s (filter is_creation tasks))
      >> unless_empty (filter is_correction tasks) (sv.correct_many (filter is_correction tasks))
      >> sv.update_document document

  unfoldable pub edit_document : LineItems → (now : ℕ) → DocumentEdit → Act W
  unfolding stock_updates purchase_tasks apply_changes
  edit_document c now document = of_document document.id λ s. in_time now s λ w.
      let records = sv.find_records s.id w in
      if all_recorded (record_for c records) s.lines
      then apply_changes s document (stock_updates c s.lines document.lines)
          (purchase_tasks c records s.lines document.lines) w
      else err no_record

  abbrev pub recorded : DocumentEdit → ℕ → ℕ → Act W
  recorded document s id =
      sv.receipt_goods id (map goods_of document.lines)
      >> sv.create_records id document s
      >> sv.save_event id document s

  abbrev pub record_in : DocumentEdit → ℕ → ℕ → W → Result SupplyError (ℕ × W)
  record_in document s id w = elim (recorded document s id w) [
    | ok w' ↦ ok (id, w')
    | err e ↦ err e
  ]

  -- `recordSupply`, which answers the document's id
  unfoldable pub record_supply : DocumentEdit → ℕ → W → Result SupplyError (ℕ × W)
  record_supply document supplier w = elim (sv.find_supplier supplier w) [
    | none ↦ err failed
    | some s ↦ elim (sv.create_document document s w) [
      | ok (id, w') ↦ record_in document s id w'
      | err e ↦ err e
    ]
  ]

  unfoldable pub remove_document : (now id : ℕ) → Act W
  remove_document now id = of_document id λ s. in_time now s λ w.
      (sv.delete_many (map (λ r. r.id) (sv.find_records id w))
          >> sv.issue_goods id (map goods_of s.lines)
          >> sv.delete_document id)
        w
