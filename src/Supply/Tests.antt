-- ===== src/Supply/Tests.antt =====
-- A warehouse with two goods, and a supply that is recorded, edited and removed.
use jonoob_part_backend.Common.{
  ℕ, ◌+◌, ◌-◌, ◌≤◌, ◌≡◌, refl, subst, inl, inr, Bool, true, ◌&&◌, some, List, [], ◌∷◌, map, filter,
  find?, mem, leb, ◌==◌, not, if◌then◌else◌, Bool-cases, Result, ok, err, arith,
}
use jonoob_part_backend.Collections.Table.{table, table-IsKeyed}
use jonoob_part_backend.Collections.Keyed.{total, found_by, total-absent}
use jonoob_part_backend.Supply.Documents.{
  Line, Goods, SupplyDocument, DocumentEdit, PurchaseTask, task_good, purchase_tasks,
}
use jonoob_part_backend.Supply.Service.{
  SupplyError, failed, too_late, Act, Services, edit_document, record_supply, remove_document,
}
use jonoob_part_backend.Supply.Stock.{amount_in, IsStock}
use jonoob_part_backend.Supply.Diff.{tasks-found}
use jonoob_part_backend.Supply.Moves.{edit-Moves}
use jonoob_part_backend.Supply.Undo.{remove-undoes}

record World : Type 0 where
  documents : List SupplyDocument
  on_hand : ℕ → ℕ

abbrev enough : List Goods → List Goods → (ℕ → ℕ) → Bool
enough whole [] have = true
enough whole (x ∷ xs) have =
    leb (amount_in x.good_id whole) (have x.good_id) && enough whole xs have

enough-le :
    (whole xs : List Goods) (have : ℕ → ℕ) (g : ℕ)
    → enough whole xs have ≡ true
    → mem g (map (λ x. x.good_id) xs) ≡ true
    → amount_in g whole ≤ have g
enough-le whole [] have g h i = cc
enough-le whole (x ∷ xs) have g h i = elim (Bool-cases (x.good_id == g)) [
  | inl e ↦
      let same : x.good_id ≡ g = ground (arith, e) in
      subst (λ k. amount_in k whole ≤ have k) same (ground (arith, h))
  | inr e ↦ enough-le whole xs have g (ground (arith, h)) (ground (arith, i, e))
]

issue-le :
    (xs : List Goods) (have : ℕ → ℕ) (g : ℕ) → enough xs xs have ≡ true → amount_in g xs ≤ have g
issue-le xs have g h = elim (Bool-cases (mem g (map (λ x. x.good_id) xs))) [
  | inl e ↦ enough-le xs xs have g h e
  | inr e ↦ let zero = total-absent (λ x. x.good_id) (λ x. x.quantity) g xs e in omega (arith, zero)
]

abbrev issue : ℕ → List Goods → Act World
issue id xs w =
    if enough xs xs w.on_hand
    then ok (record w { on_hand = λ g. w.on_hand g - amount_in g xs })
    else err failed

abbrev edited : DocumentEdit → SupplyDocument → SupplyDocument
edited d s = if s.id == d.id then record s { lines = d.lines } else s

abbrev services : Services World
services = record {
  three_days_after = λ t. t + 3;
  find_by_id = λ id w. find? (λ s. s.id == id) w.documents;
  find_supplier = λ s w. some s;
  find_records = λ id w. record { id = 11; good_id = 1 } ∷ record { id = 12; good_id = 2 } ∷ [];
  create_document = λ d s w. ok (
    4,
    record w {
      documents =
          record {
            id = 4;
            specialist_id = d.specialist_id;
            supplier_id = s;
            supplied_at = 100;
            lines = d.lines;
          }
          ∷ w.documents;
    },
  );
  update_document = λ d w. ok (record w { documents = map (edited d) w.documents });
  delete_document =
      λ id w. ok (record w { documents = filter (λ s. not (s.id == id)) w.documents });
  receipt_goods = λ id xs w. ok (record w { on_hand = λ g. w.on_hand g + amount_in g xs });
  issue_goods = issue;
  delete_many = λ ids w. ok w;
  create_many = λ id ts w. ok w;
  correct_many = λ ts w. ok w;
  create_records = λ id d s w. ok w;
  save_event = λ id d s w. ok w;
}

abbrev stock : ℕ → World → ℕ
stock g w = w.on_hand g

issued-stock :
    (id : ℕ) (xs : List Goods) (w w' : World) (g : ℕ)
    → issue id xs w ≡ ok w'
    → stock g w' + amount_in g xs ≡ stock g w
issued-stock id xs w w' g h = elim (Bool-cases (enough xs xs w.on_hand)) [
  | inl e ↦
      let left : w.on_hand g - amount_in g xs ≡ stock g w' = cc (rw e at h) in
      omega (arith, left, issue-le xs w.on_hand g e)
  | inr e ↦ cc (rw e at h)
]

stands :
    (v w' : World) (g : ℕ)
    → ◌≡◌ {A = Result SupplyError World} (ok v) (ok w')
    → stock g w' ≡ stock g v
stands v w' g h = cc

drafted :
    (v w' : World) (i id g : ℕ)
    → ◌≡◌ {A = Result SupplyError (ℕ × World)} (ok (i, v)) (ok (id, w'))
    → stock g w' ≡ stock g v
drafted v w' i id g h = cc

stock-IsStock : IsStock services stock
stock-IsStock = record {
  receives = λ id xs w w' g h. stands _ w' g h;
  issues = issued-stock;
  deletes = λ ids w w' g h. stands _ w' g h;
  creates = λ id ts w w' g h. stands _ w' g h;
  corrects = λ ts w w' g h. stands _ w' g h;
  updates = λ d w w' g h. stands _ w' g h;
  drafts = λ d s id w w' g h. drafted _ w' _ id g h;
  records = λ id d s w w' g h. stands _ w' g h;
  saves = λ id d s w w' g h. stands _ w' g h;
  drops = λ id w w' g h. stands _ w' g h;
}

abbrev line : ℕ → ℕ → ℕ → Line
line g q p = record { good_id = g; quantity = q; purchase_price = p }

abbrev first : DocumentEdit
first = record { id = 4; specialist_id = 8; lines = line 1 10 5 ∷ line 2 3 7 ∷ [] }

abbrev second : DocumentEdit
second = record { id = 4; specialist_id = 8; lines = line 1 6 5 ∷ line 3 8 2 ∷ [] }

abbrev supply : List Line → SupplyDocument
supply ls = record { id = 4; specialist_id = 8; supplier_id = 9; supplied_at = 100; lines = ls }

abbrev start : World
start = record { documents = []; on_hand = λ g. 20 }

abbrev left : Result SupplyError World → World
left (ok w) = w
left (err e) = start

abbrev left_at : Result SupplyError (ℕ × World) → World
left_at (ok (i, w)) = w
left_at (err e) = start

abbrev w1 : World
w1 = left_at (record_supply services first 9 start)

abbrev w2 : World
w2 = left (edit_document services table 102 second w1)

abbrev w3 : World
w3 = left (remove_document services 102 4 w2)

edited_stock : (stock 1 w2 ≡ 26) × (stock 2 w2 ≡ 20) × (stock 3 w2 ≡ 28)
unfolding record_supply edit_document total
edited_stock = (refl, refl, refl)

edited_late : edit_document services table 104 second w1 ≡ err too_late
unfolding record_supply edit_document
edited_late = refl

made : record_supply services first 9 start ≡ ok (4, w1)
unfolding record_supply
made = refl

changed : edit_document services table 102 second w1 ≡ ok w2
unfolding record_supply edit_document total
changed = refl

removed : remove_document services 102 4 w2 ≡ ok w3
unfolding record_supply edit_document remove_document total
removed = refl

edit-Moves_example : stock 1 w2 + 10 ≡ stock 1 w1 + 6
unfolding record_supply total
edit-Moves_example =
    edit-Moves services stock stock-IsStock table table-IsKeyed 102 second (supply first.lines) w1
      w2 refl (refl, (refl, tt)) (refl, (refl, tt)) changed 1

remove-undoes_example : stock 2 w3 ≡ stock 2 start
unfolding record_supply edit_document total
remove-undoes_example =
    remove-undoes services stock stock-IsStock table table-IsKeyed first second 9 4 102 102 2
      (supply first.lines) (supply second.lines) start w1 w2 w3 (refl, (refl, tt))
      (refl, (refl, tt)) made refl refl changed refl refl removed

tasks-found_example :
    found_by task_good 2
      (purchase_tasks table (services.find_records 4 w1) first.lines second.lines)
    ≡ some (PurchaseTask.removal 12 2)
tasks-found_example =
    tasks-found table table-IsKeyed first.lines second.lines (refl, (refl, tt)) (refl, (refl, tt))
      (services.find_records 4 w1) 2
