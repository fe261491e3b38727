-- ===== src/Supply/Stock.antt =====
-- What the services do to the stock, and the sums of what an edit gives them.
use jonoob_part_backend.Common.{
  ℕ, ◌+◌, ◌≡◌, refl, ap, ◌∙◌, Option, none, some, List, [], ◌∷◌, map, filter, Result, ok, err,
  arith,
}
use jonoob_part_backend.Collections.LineItems.{LineItems, Distinct, IsKeyed}
use jonoob_part_backend.Collections.Keyed.{
  found_by, total, kept_if, amount_of, total-filter, total-found,
}
use jonoob_part_backend.Supply.Documents.{
  Line, SupplyDocument, DocumentEdit, StockUpdate, PurchaseTask, Goods, goods_changed, goods_of,
  line_good, update_good, changed_by, is_incr, is_decr, quantity_of, stock_updates,
}
use jonoob_part_backend.Supply.Service.{SupplyError, Act, ◌>>◌, Services}
use jonoob_part_backend.Supply.Diff.{update_of, stock_updates-Distinct, updates-found}

abbrev pub amount_in : ℕ → List Goods → ℕ
amount_in g = total (λ x. x.good_id) (λ x. x.quantity) g

-- The quantity of a good in the lines of a document.
abbrev pub quantity_in : ℕ → List Line → ℕ
quantity_in g = total line_good (λ l. l.quantity) g

-- The warehouse's part: a receipt adds what it is given to the stock, an issue takes it away; the other
-- services leave the stock alone.
pub record IsStock {W : Type 0} (sv : Services W) (stock : ℕ → W → ℕ) : Type 0 where
  pub receives :
      (id : ℕ) (xs : List Goods) (w w' : W) (g : ℕ)
      → sv.receipt_goods id xs w ≡ ok w'
      → stock g w' ≡ stock g w + amount_in g xs
  pub issues :
      (id : ℕ) (xs : List Goods) (w w' : W) (g : ℕ)
      → sv.issue_goods id xs w ≡ ok w'
      → stock g w' + amount_in g xs ≡ stock g w
  pub deletes :
      (ids : List ℕ) (w w' : W) (g : ℕ) → sv.delete_many ids w ≡ ok w' → stock g w' ≡ stock g w
  pub creates :
      (s : SupplyDocument) (ts : List PurchaseTask) (w w' : W) (g : ℕ)
      → sv.create_many s ts w ≡ ok w'
      → stock g w' ≡ stock g w
  pub corrects :
      (ts : List PurchaseTask) (w w' : W) (g : ℕ)
      → sv.correct_many ts w ≡ ok w'
      → stock g w' ≡ stock g w
  pub updates :
      (d : DocumentEdit) (w w' : W) (g : ℕ)
      → sv.update_document d w ≡ ok w'
      → stock g w' ≡ stock g w
  pub drafts :
      (d : DocumentEdit) (s id : ℕ) (w w' : W) (g : ℕ)
      → sv.create_document d s w ≡ ok (id, w')
      → stock g w' ≡ stock g w
  pub records :
      (id : ℕ) (d : DocumentEdit) (s : ℕ) (w w' : W) (g : ℕ)
      → sv.create_records id d s w ≡ ok w'
      → stock g w' ≡ stock g w
  pub saves :
      (id : ℕ) (d : DocumentEdit) (s : ℕ) (w w' : W) (g : ℕ)
      → sv.save_event id d s w ≡ ok w'
      → stock g w' ≡ stock g w
  pub drops : (id : ℕ) (w w' : W) (g : ℕ) → sv.delete_document id w ≡ ok w' → stock g w' ≡ stock g w

-- An action that succeeds.
pub >>-ok :
    {W : Type 0} (m k : Act W) (w w' : W)
    → (m >> k) w ≡ ok w'
    → (v : W) × (m w ≡ ok v) × (k v ≡ ok w')
>>-ok {W} m k w w' h = go (m w) refl h
  where
    go :
        (r : Result SupplyError W)
        → m w ≡ r
        → elim r [ ok v ↦ k v | err e ↦ err e ] ≡ ok w'
        → (v : W) × (m w ≡ ok v) × (k v ≡ ok w')
    go (ok v) e h = (v, e, h)
    go (err e) f h = cc

total-map :
    {A : Type 0} (key amount : A → ℕ) (f : A → Goods) (g : ℕ) (xs : List A)
    → ((x : A) → (f x).good_id ≡ key x)
    → ((x : A) → (f x).quantity ≡ amount x)
    → amount_in g (map f xs) ≡ total key amount g xs
unfolding total
total-map key amount f g [] k q = refl
total-map key amount f g (x ∷ xs) k q = rw (k x, q x, total-map key amount f g xs k q) refl

abbrev pub update_sum : ℕ → List StockUpdate → ℕ
update_sum g = total update_good (λ u. u.quantity) g

pub amount-changed :
    (g : ℕ) (us : List StockUpdate) → amount_in g (map goods_changed us) ≡ update_sum g us
amount-changed g us =
    total-map update_good (λ u. u.quantity) goods_changed g us (λ u. refl) (λ u. refl)

pub amount-lines : (g : ℕ) (ls : List Line) → amount_in g (map goods_of ls) ≡ quantity_in g ls
amount-lines g ls = total-map line_good (λ l. l.quantity) goods_of g ls (λ l. refl) (λ l. refl)

-- What one good's update is, in numbers.
balance :
    (g : ℕ) (o n : Option Line)
    → amount_of (λ u. u.quantity) (kept_if is_incr (update_of g o n)) + quantity_of o
      ≡ amount_of (λ u. u.quantity) (kept_if is_decr (update_of g o n)) + quantity_of n
balance g none none = refl
balance g none (some n) = omega arith
balance g (some l) n = go l.quantity (quantity_of n)
  where
    go :
        (old new : ℕ)
        → amount_of (λ u. u.quantity) (kept_if is_incr (changed_by g old new)) + old
          ≡ amount_of (λ u. u.quantity) (kept_if is_decr (changed_by g old new)) + new
    go old new = ground arith

quantity-found :
    (g : ℕ) (ls : List Line)
    → Distinct (map line_good ls)
    → quantity_in g ls ≡ quantity_of (found_by line_good g ls)
quantity-found g ls d =
    total-found line_good (λ l. l.quantity) g ls d ∙ go (found_by line_good g ls)
  where
    go : (o : Option Line) → amount_of (λ l. l.quantity) o ≡ quantity_of o
    go none = refl
    go (some l) = refl

pub updates_balance :
    (c : LineItems)
    → IsKeyed c
    → (old new : List Line) → Distinct (map line_good old)
    → Distinct (map line_good new)
    → (g : ℕ)
    → update_sum g (filter is_incr (stock_updates c old new)) + quantity_in g old
      ≡ update_sum g (filter is_decr (stock_updates c old new)) + quantity_in g new
updates_balance c keyed old new d d' g =
    let us = stock_updates c old new in
    let du = stock_updates-Distinct c keyed old new d d' in
    let at = updates-found c keyed old new d d' g in
    let amount : StockUpdate → ℕ = λ u. u.quantity in
    let up =
      total-filter update_good amount is_incr g us du
      ∙ ap (λ o. amount_of amount (kept_if is_incr o)) at in
    let down =
      total-filter update_good amount is_decr g us du
      ∙ ap (λ o. amount_of amount (kept_if is_decr o)) at in
    omega (
      arith,
      up,
      down,
      balance g (found_by line_good g old) (found_by line_good g new),
      quantity-found g old d,
      quantity-found g new d',
    )
