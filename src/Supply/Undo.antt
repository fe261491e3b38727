-- ===== src/Supply/Undo.antt =====
-- A supply that is recorded, edited and removed.
use jonoob_part_backend.Common.{
  ℕ, ◌+◌, ◌≡◌, refl, sym, subst, ap, ◌∙◌, Option, none, some, map, Result, ok, err, arith,
}
use jonoob_part_backend.Collections.LineItems.{LineItems, Distinct, IsKeyed}
use jonoob_part_backend.Supply.Documents.{SupplyDocument, DocumentEdit, goods_of, line_good}
use jonoob_part_backend.Supply.Service.{
  SupplyError, failed, Act, ◌>>◌, Services, edit_document, record_supply, record_in, recorded,
  remove_document,
}
use jonoob_part_backend.Supply.Stock.{quantity_in, IsStock, >>-ok, amount-lines}
use jonoob_part_backend.Supply.Moves.{in_time-ok, edit-Moves}

module _ {W : Type 0} (sv : Services W) (stock : ℕ → W → ℕ) (law : IsStock sv stock) where
  recorded-Moves :
      (document : DocumentEdit) (s id : ℕ) (w w' : W)
      → recorded sv document s id w ≡ ok w'
      → (g : ℕ) → stock g w' ≡ stock g w + quantity_in g document.lines
  recorded-Moves document s id w w' h g =
      let a = sv.receipt_goods id (map goods_of document.lines) in
      let b = sv.create_records id document s in
      let (w2, h2, k2) = >>-ok (a >> b) (sv.save_event id document s) w w' h in
      let (w1, h1, k1) = >>-ok a b w w2 h2 in
      omega (
        arith,
        law.receives id (map goods_of document.lines) w w1 g h1,
        amount-lines g document.lines,
        law.records id document s w1 w2 g k1,
        law.saves id document s w2 w' g k2,
      )

  record_in-Moves :
      (document : DocumentEdit) (s i id : ℕ) (w w' : W)
      → record_in sv document s i w ≡ ok (id, w')
      → (g : ℕ) → stock g w' ≡ stock g w + quantity_in g document.lines
  record_in-Moves document s i id w w' h = go (recorded sv document s i w) refl h
    where
      go :
          (r : Result SupplyError W)
          → recorded sv document s i w ≡ r
          → ◌≡◌ {A = Result SupplyError (ℕ × W)}
              (elim r [ ok v ↦ ok (i, v) | err e ↦ err e ])
              (ok (id, w'))
          → (g : ℕ) → stock g w' ≡ stock g w + quantity_in g document.lines
      go (ok v) e h = let same : v ≡ w' = cc in recorded-Moves document s i w w' (e ∙ ap ok same)
      go (err x) e h = cc

  record-Moves :
      (document : DocumentEdit) (supplier id : ℕ) (w w' : W)
      → record_supply sv document supplier w ≡ ok (id, w')
      → (g : ℕ) → stock g w' ≡ stock g w + quantity_in g document.lines
  unfolding record_supply
  record-Moves document supplier id w w' h = go (sv.find_supplier supplier w) h
    where
      made :
          (s : ℕ) (r : Result SupplyError (ℕ × W))
          → sv.create_document document s w ≡ r
          → elim r [ ok (i, v) ↦ record_in sv document s i v | err e ↦ err e ] ≡ ok (id, w')
          → (g : ℕ) → stock g w' ≡ stock g w + quantity_in g document.lines
      made s (ok (i, v)) e h g =
          omega (arith, law.drafts document s i w v g e, record_in-Moves document s i id v w' h g)
      made s (err x) e h g = cc

      go :
          (o : Option ℕ)
          → elim o [
            | none ↦ err failed
            | some s ↦ elim (sv.create_document document s w) [
              | ok (i, v) ↦ record_in sv document s i v
              | err e ↦ err e
            ]
          ]
            ≡ ok (id, w')
          → (g : ℕ) → stock g w' ≡ stock g w + quantity_in g document.lines
      go none h = cc
      go (some s) h = made s (sv.create_document document s w) refl h

  remove-Moves :
      (now id : ℕ) (s : SupplyDocument) (w w' : W)
      → sv.find_by_id id w ≡ some s
      → remove_document sv now id w ≡ ok w'
      → (g : ℕ) → stock g w' + quantity_in g s.lines ≡ stock g w
  unfolding remove_document
  remove-Moves now id s w w' found h g =
      let ids = map (λ r. r.id) (sv.find_records id w) in
      let goods = map goods_of s.lines in
      let k : SupplyDocument → Act W = λ s w.
        (sv.delete_many (map (λ r. r.id) (sv.find_records id w))
            >> sv.issue_goods id (map goods_of s.lines)
            >> sv.delete_document id)
          w in
      let done = in_time-ok sv stock law now id s k w w' found h in
      let a = sv.delete_many ids in
      let b = sv.issue_goods id goods in
      let (w2, h2, k2) = >>-ok (a >> b) (sv.delete_document id) w w' done in
      let (w1, h1, k1) = >>-ok a b w w2 h2 in
      omega (
        arith,
        law.deletes ids w w1 g h1,
        law.issues id goods w1 w2 g k1,
        amount-lines g s.lines,
        law.drops id w2 w' g k2,
      )

  module _ (c : LineItems) (keyed : IsKeyed c) where
    -- A supply that is recorded, then edited and then removed, each with success, leaves the stock
    -- of every good as it was before, where the repository answers the lines that were given to it
    -- last; the goods in both documents are distinct, and the services and collections behave as
    -- for an edit.
    pub remove-undoes :
        (first second : DocumentEdit) (supplier id now later g : ℕ) (s s' : SupplyDocument)
        (w w1 w2 w3 : W)
        → Distinct (map line_good first.lines)
        → Distinct (map line_good second.lines)
        → record_supply sv first supplier w ≡ ok (id, w1)
        → sv.find_by_id second.id w1 ≡ some s
        → s.lines ≡ first.lines
        → edit_document sv c now second w1 ≡ ok w2
        → sv.find_by_id id w2 ≡ some s'
        → s'.lines ≡ second.lines
        → remove_document sv later id w2 ≡ ok w3
        → stock g w3 ≡ stock g w
    remove-undoes first second supplier id now later g s s' w w1 w2 w3 d d' made found lines edited
          found' lines' removed =
        let ds : Distinct (map line_good s.lines) =
          subst (λ ls. Distinct (map line_good ls)) (sym lines) d in
        omega (
          arith,
          record-Moves first supplier id w w1 made g,
          edit-Moves sv stock law c keyed now second s w1 w2 found ds d' edited g,
          ap (quantity_in g) lines,
          ap (quantity_in g) lines',
          remove-Moves later id s' w2 w3 found' removed g,
        )
