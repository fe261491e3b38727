-- ===== src/Supply/Diff.antt =====
-- What an edit does for each good.
use jonoob_part_backend.Common.{
  ℕ, ◌≡◌, refl, sym, subst, ap, ◌∙◌, true, false, Option, none, some, List, ◌++◌, map, mem, arith,
  Bool-cases, inl, inr, ◌==◌, if◌then◌else◌,
}
use jonoob_part_backend.Collections.LineItems.{LineItems, Distinct, IsKeyed}
use jonoob_part_backend.Collections.Keyed.{
  collect, found_by, or_else, then_for, found-key, found-absent, found-mem,
}
use jonoob_part_backend.Supply.Loops.{both-Distinct, found-both}
use jonoob_part_backend.Supply.Documents.{
  Line, PurchaseRecord, StockUpdate, PurchaseTask, creation, removal, correction, task_good,
  line_good, update_good, changed_by, quantity_of, stock_change, task_for, purchase_change,
  stock_added, purchase_added, new_line, record_for, stock_updates, purchase_tasks, incr,
}

stock_change-good :
    (of : ℕ → Option Line) (l : Line) (u : StockUpdate)
    → stock_change of l ≡ some u
    → u.good_id ≡ l.good_id
unfolding stock_change
stock_change-good of l u h = ground (arith, h)

stock_added-good :
    (existing : List ℕ) (l : Line) (u : StockUpdate)
    → stock_added existing l ≡ some u
    → u.good_id ≡ l.good_id
unfolding stock_added
stock_added-good existing l u h = ground (arith, h)

purchase_change-good :
    (record_of : ℕ → Option PurchaseRecord) (of : ℕ → Option Line) (l : Line) (t : PurchaseTask)
    → purchase_change record_of of l ≡ some t
    → task_good t ≡ l.good_id
unfolding purchase_change
purchase_change-good record_of of l t h = go (record_of l.good_id) (of l.good_id) h
  where
    go :
        (r : Option PurchaseRecord) (n : Option Line)
        → task_for r l n ≡ some t
        → task_good t ≡ l.good_id
    go none n h = cc
    go (some r) none h = ground (arith, h)
    go (some r) (some n) h = ground (arith, h)

purchase_added-good :
    (existing : List ℕ) (l : Line) (t : PurchaseTask)
    → purchase_added existing l ≡ some t
    → task_good t ≡ l.good_id
unfolding purchase_added
purchase_added-good existing l t h = ground (arith, h)

-- What a good's lines in the old and in the new document ask of its purchase record.
abbrev pub task_of : ℕ → Option PurchaseRecord → Option Line → Option Line → Option PurchaseTask
task_of good r none none = none
task_of good r none (some n) = some (creation good n.purchase_price)
task_of good none (some l) n = none
task_of good (some r) (some l) none = some (removal r.id good)
task_of good (some r) (some l) (some n) =
    if n.purchase_price == l.purchase_price
    then none
    else some (correction r.id good n.purchase_price)

task_for-own :
    (k : ℕ) (r : Option PurchaseRecord) (l : Line) (n : Option Line)
    → l.good_id ≡ k
    → task_for r l n ≡ task_of k r (some l) n
task_for-own k none l n own = refl
task_for-own k (some r) l none own = ap (λ j. some (removal r.id j)) own
task_for-own k (some r) l (some n) own = elim (Bool-cases (l.purchase_price == n.purchase_price)) [
  | inl e ↦
      let back : (n.purchase_price == l.purchase_price) ≡ true = ground (arith, e) in
      rw (e, back) refl
  | inr e ↦
      let back : (n.purchase_price == l.purchase_price) ≡ false = ground (arith, e) in
      rw (e, back) (ap (λ j. some (correction r.id j n.purchase_price)) own)
]

-- And the stock.
abbrev pub update_of : ℕ → Option Line → Option Line → Option StockUpdate
update_of good none none = none
update_of good none (some n) =
    some (record { good_id = good; quantity = n.quantity; operation = incr })
update_of good (some l) n = changed_by good l.quantity (quantity_of n)

or_else-none : {A : Type 0} (o : Option A) → or_else o none ≡ o
or_else-none none = refl
or_else-none (some a) = refl

module _ (c : LineItems) (keyed : IsKeyed c) (old new : List Line)
    (d : Distinct (map line_good old)) (d' : Distinct (map line_good new)) where
  new_line-found : (k : ℕ) → new_line c new k ≡ found_by line_good k new
  new_line-found k = keyed.finds Line line_good new k d'

  array-new : c.to_array Line (c.from Line line_good new) ≡ new
  array-new = keyed.keeps Line line_good new d'

  abbrev all_updates : List StockUpdate
  all_updates =
      collect (stock_change (new_line c new)) old ++ collect (stock_added (map line_good old)) new

  abbrev all_tasks : List PurchaseRecord → List PurchaseTask
  all_tasks records =
      collect (purchase_change (record_for c records) (new_line c new)) old
      ++ collect (purchase_added (map line_good old)) new

  updates-Distinct : Distinct (map update_good all_updates)
  unfolding stock_added
  updates-Distinct =
      both-Distinct line_good update_good (stock_change (new_line c new))
        (stock_added (map line_good old)) (stock_change-good (new_line c new))
        (stock_added-good (map line_good old)) old new d d' (λ l i. rw i refl)

  tasks-Distinct : (records : List PurchaseRecord) → Distinct (map task_good (all_tasks records))
  unfolding purchase_added
  tasks-Distinct records =
      both-Distinct line_good task_good (purchase_change (record_for c records) (new_line c new))
        (purchase_added (map line_good old))
        (purchase_change-good (record_for c records) (new_line c new))
        (purchase_added-good (map line_good old)) old new d d' (λ l i. rw i refl)

  stock_updates-all : stock_updates c old new ≡ all_updates
  unfolding stock_updates
  stock_updates-all =
      rw (array-new, stock_updates)
        (keyed.keeps StockUpdate update_good all_updates updates-Distinct)

  purchase_tasks-all :
      (records : List PurchaseRecord) → purchase_tasks c records old new ≡ all_tasks records
  unfolding purchase_tasks
  purchase_tasks-all records =
      rw (array-new, purchase_tasks)
        (keyed.keeps PurchaseTask task_good (all_tasks records) (tasks-Distinct records))

  pub stock_updates-Distinct : Distinct (map update_good (stock_updates c old new))
  stock_updates-Distinct =
      subst (λ us. Distinct (map update_good us)) (sym stock_updates-all) updates-Distinct

  -- A new line whose good has an old line is passed over.
  module _ {B : Type 0} (added : Line → Option B)
      (passed : (l : Line) → mem l.good_id (map line_good old) ≡ true → added l ≡ none) where
    second-none :
        (k : ℕ) (l : Line) (n : Option Line)
        → found_by line_good k old ≡ some l
        → found_by line_good k new ≡ n
        → then_for added n ≡ none
    second-none k l none e f = refl
    second-none k l (some x) e f = passed x (
        subst (λ j. mem j (map line_good old) ≡ true) (sym (found-key line_good k new x f))
          (found-mem line_good k old l e))

  update-of :
      (k : ℕ) (o n : Option Line)
      → found_by line_good k old ≡ o
      → found_by line_good k new ≡ n
      → or_else
          (then_for (stock_change (new_line c new)) o)
          (then_for (stock_added (map line_good old)) n)
        ≡ update_of k o n
  unfolding stock_change stock_added
  update-of k none none e f = refl
  update-of k none (some x) e f =
      let own : x.good_id ≡ k = found-key line_good k new x f in
      let out : mem x.good_id (map line_good old) ≡ false =
        subst (λ j. mem j (map line_good old) ≡ false) (sym own) (found-absent line_good k old e) in
      rw out (ap (λ j. some (record { good_id = j; quantity = x.quantity; operation = incr })) own)
  update-of k (some l) n e f =
      let own : l.good_id ≡ k = found-key line_good k old l e in
      let there : new_line c new l.good_id ≡ n =
        subst (λ j. new_line c new j ≡ n) (sym own) (new_line-found k ∙ f) in
      rw (second-none (stock_added (map line_good old)) (λ x i. rw i refl) k l n e f) (
        or_else-none (stock_change (new_line c new) l)
        ∙ ap (λ x. changed_by l.good_id l.quantity (quantity_of x)) there
        ∙ ap (λ j. changed_by j l.quantity (quantity_of n)) own)

  pub updates-found :
      (k : ℕ)
      → found_by update_good k (stock_updates c old new)
        ≡ update_of k (found_by line_good k old) (found_by line_good k new)
  updates-found k =
      ap (found_by update_good k) stock_updates-all
      ∙ found-both line_good update_good (stock_change (new_line c new))
          (stock_added (map line_good old)) (stock_change-good (new_line c new))
          (stock_added-good (map line_good old)) k old new d d'
      ∙ update-of k (found_by line_good k old) (found_by line_good k new) refl refl

  task-of :
      (records : List PurchaseRecord) (k : ℕ) (o n : Option Line)
      → found_by line_good k old ≡ o
      → found_by line_good k new ≡ n
      → or_else
          (then_for (purchase_change (record_for c records) (new_line c new)) o)
          (then_for (purchase_added (map line_good old)) n)
        ≡ task_of k (record_for c records k) o n
  unfolding purchase_change purchase_added
  task-of records k none none e f = refl
  task-of records k none (some x) e f =
      let own : x.good_id ≡ k = found-key line_good k new x f in
      let out : mem x.good_id (map line_good old) ≡ false =
        subst (λ j. mem j (map line_good old) ≡ false) (sym own) (found-absent line_good k old e) in
      rw out (ap (λ j. some (creation j x.purchase_price)) own)
  task-of records k (some l) n e f =
      let own : l.good_id ≡ k = found-key line_good k old l e in
      let there : new_line c new l.good_id ≡ n =
        subst (λ j. new_line c new j ≡ n) (sym own) (new_line-found k ∙ f) in
      rw (second-none (purchase_added (map line_good old)) (λ x i. rw i refl) k l n e f) (
        or_else-none (purchase_change (record_for c records) (new_line c new) l)
        ∙ ap (task_for (record_for c records l.good_id) l) there
        ∙ ap (λ j. task_for (record_for c records j) l n) own
        ∙ task_for-own k (record_for c records k) l n own)

  -- For every good there is at most the one task in what an edit hands to the purchases that its
  -- lines in the old and the new document and its record ask for: the record is removed where the
  -- good is gone, created with the new price where it is new, corrected to the new price where the
  -- price differs, and left where it is the same; a good of the old document without a record asks
  -- for nothing. The goods in each document are distinct, and collections keep
  -- what is set under distinct keys.
  pub tasks-found :
      (records : List PurchaseRecord) (k : ℕ)
      → found_by task_good k (purchase_tasks c records old new)
        ≡ task_of k (record_for c records k) (found_by line_good k old) (found_by line_good k new)
  tasks-found records k =
      ap (found_by task_good k) (purchase_tasks-all records)
      ∙ found-both line_good task_good (purchase_change (record_for c records) (new_line c new))
          (purchase_added (map line_good old))
          (purchase_change-good (record_for c records) (new_line c new))
          (purchase_added-good (map line_good old)) k old new d d'
      ∙ task-of records k (found_by line_good k old) (found_by line_good k new) refl refl
