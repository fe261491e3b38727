-- ===== src/Supply/Moves.antt =====
-- What recording, editing and removing a document do to the stock.
use mathlib.Core.Option.{some-injective}
use jonoob_part_backend.Common.{
  ℕ, ◌+◌, ◌≡◌, sym, subst, ap, ◌∙◌, Bool, true, false, Option, none, some, List, [], ◌∷◌, map,
  filter, ltb, if◌then◌else◌, Result, ok, err, arith,
}
use jonoob_part_backend.Collections.LineItems.{LineItems, Distinct, IsKeyed}
use jonoob_part_backend.Collections.Keyed.{total}
use jonoob_part_backend.Supply.Documents.{
  SupplyDocument, DocumentEdit, StockUpdate, PurchaseTask, goods_changed, line_good, is_incr,
  is_decr, is_removal, is_creation, is_correction, record_for, stock_updates, purchase_tasks,
}
use jonoob_part_backend.Supply.Service.{
  SupplyError, too_late, no_record, not_found, Act, ◌>>◌, unless_empty, Services, in_time,
  of_document, record_ids, all_recorded, apply_changes, edit_document,
}
use jonoob_part_backend.Supply.Stock.{
  quantity_in, update_sum, IsStock, >>-ok, updates_balance, amount-changed,
}

unchanged :
    {W : Type 0} (stock : ℕ → W → ℕ) (w w' : W) (g : ℕ)
    → ◌≡◌ {A = Result SupplyError W} (ok w) (ok w')
    → stock g w' ≡ stock g w
unchanged stock w w' g h = cc

module _ {W : Type 0} (sv : Services W) (stock : ℕ → W → ℕ) (law : IsStock sv stock) where
  received :
      (id : ℕ) (us : List StockUpdate) (w w' : W) (g : ℕ)
      → unless_empty us (sv.receipt_goods id (map goods_changed us)) w ≡ ok w'
      → stock g w' ≡ stock g w + update_sum g us
  unfolding total
  received id [] w w' g h = omega (arith, unchanged stock w w' g h)
  received id (u ∷ us) w w' g h =
      law.receives id (map goods_changed (u ∷ us)) w w' g h
      ∙ ap (λ n. stock g w + n) (amount-changed g (u ∷ us))

  issued :
      (id : ℕ) (us : List StockUpdate) (w w' : W) (g : ℕ)
      → unless_empty us (sv.issue_goods id (map goods_changed us)) w ≡ ok w'
      → stock g w' + update_sum g us ≡ stock g w
  unfolding total
  issued id [] w w' g h = omega (arith, unchanged stock w w' g h)
  issued id (u ∷ us) w w' g h =
      ap (λ n. stock g w' + n) (sym (amount-changed g (u ∷ us)))
      ∙ law.issues id (map goods_changed (u ∷ us)) w w' g h

  left_alone :
      {A : Type 0} (xs : List A) (m : Act W) (w w' : W) (g : ℕ)
      → (m w ≡ ok w' → stock g w' ≡ stock g w)
      → unless_empty xs m w ≡ ok w'
      → stock g w' ≡ stock g w
  left_alone [] m w w' g keep h = unchanged stock w w' g h
  left_alone (x ∷ xs) m w w' g keep h = keep h

  changes-Moves :
      (s : SupplyDocument) (document : DocumentEdit) (us : List StockUpdate)
      (ts : List PurchaseTask) (w w' : W)
      → apply_changes sv s document us ts w ≡ ok w'
      → (g : ℕ)
      → stock g w' + update_sum g (filter is_decr us) ≡ stock g w + update_sum g (filter is_incr us)
  unfolding apply_changes
  changes-Moves s document us ts w w' h g =
      let incrs = filter is_incr us in
      let decrs = filter is_decr us in
      let a = unless_empty incrs (sv.receipt_goods s.id (map goods_changed incrs)) in
      let b = unless_empty decrs (sv.issue_goods s.id (map goods_changed decrs)) in
      let removals = filter is_removal ts in
      let creations = filter is_creation ts in
      let corrections = filter is_correction ts in
      let x = unless_empty removals (sv.delete_many (record_ids removals)) in
      let y = unless_empty creations (sv.create_many s creations) in
      let z = unless_empty corrections (sv.correct_many corrections) in
      let (w5, h5, k5) = >>-ok (a >> b >> x >> y >> z) (sv.update_document document) w w' h in
      let (w4, h4, k4) = >>-ok (a >> b >> x >> y) z w w5 h5 in
      let (w3, h3, k3) = >>-ok (a >> b >> x) y w w4 h4 in
      let (w2, h2, k2) = >>-ok (a >> b) x w w3 h3 in
      let (w1, h1, k1) = >>-ok a b w w2 h2 in
      omega (
        arith,
        received s.id incrs w w1 g h1,
        issued s.id decrs w1 w2 g k1,
        left_alone removals (sv.delete_many (record_ids removals)) w2 w3 g
            (law.deletes (record_ids removals) w2 w3 g) k2,
        left_alone creations (sv.create_many s creations) w3 w4 g (law.creates s creations w3 w4 g)
            k3,
        left_alone corrections (sv.correct_many corrections) w4 w5 g
            (law.corrects corrections w4 w5 g) k4,
        law.updates document w5 w' g k5,
      )

  -- A document that is there and in time.
  pub in_time-ok :
      (now id : ℕ) (s : SupplyDocument) (k : SupplyDocument → Act W) (w w' : W)
      → sv.find_by_id id w ≡ some s
      → of_document sv id (λ s. in_time sv now s (k s)) w ≡ ok w'
      → k s w ≡ ok w'
  in_time-ok now id s k w w' found h = go (sv.find_by_id id w) found h
    where
      timely : (b : Bool) → (if b then err too_late else k s w) ≡ ok w' → k s w ≡ ok w'
      timely true h = cc
      timely false h = h

      go :
          (o : Option SupplyDocument)
          → o ≡ some s
          → elim o [ none ↦ err not_found | some t ↦ in_time sv now t (k t) w ] ≡ ok w'
          → k s w ≡ ok w'
      go none e h = cc
      go (some t) e h =
          let same : t ≡ s = some-injective t s e in
          timely (ltb (sv.three_days_after s.supplied_at) now)
            (subst (λ x. in_time sv now x (k x) w ≡ ok w') same h)

  module _ (c : LineItems) (keyed : IsKeyed c) where
    -- An edit that succeeds changes the stock of each good by its quantity in the new document less
    -- its quantity in the old one; the goods in each document are distinct, a receipt adds to the
    -- stock and an issue takes from it what they are given, the other services leave it alone, and
    -- collections keep what is set under distinct keys.
    pub edit-Moves :
        (now : ℕ) (document : DocumentEdit) (s : SupplyDocument) (w w' : W)
        → sv.find_by_id document.id w ≡ some s
        → Distinct (map line_good s.lines)
        → Distinct (map line_good document.lines)
        → edit_document sv c now document w ≡ ok w'
        → (g : ℕ) → stock g w' + quantity_in g s.lines ≡ stock g w + quantity_in g document.lines
    unfolding edit_document
    edit-Moves now document s w w' found d d' h g =
        let records = sv.find_records s.id w in
        let us = stock_updates c s.lines document.lines in
        let ts = purchase_tasks c records s.lines document.lines in
        let applied =
          go (all_recorded (record_for c records) s.lines) (apply_changes sv s document us ts w) (
            in_time-ok now document.id s
              (λ s w.
                let records = sv.find_records s.id w in
                if all_recorded (record_for c records) s.lines
                then apply_changes sv s document (stock_updates c s.lines document.lines)
                    (purchase_tasks c records s.lines document.lines) w
                else err no_record)
              w w' found h) in
        omega (
          arith,
          changes-Moves s document us ts w w' applied g,
          updates_balance c keyed s.lines document.lines d d' g,
        )
      where
        go :
            (b : Bool) (r : Result SupplyError W)
            → (if b then r else err no_record) ≡ ok w'
            → r ≡ ok w'
        go true r h = h
        go false r h = cc
