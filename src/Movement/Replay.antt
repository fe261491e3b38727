-- ===== src/Movement/Replay.antt =====
-- Recording a movement again.
use jonoob_part_backend.Common.{
  ℕ, ◌≡◌, refl, sym, subst, ap, ◌∙◌, ◌⊎◌, inl, inr, Bool, true, false, Option, none, some, List, [],
  ◌∷◌, ◌++◌, map, All, ◌==◌, eq_some, if◌then◌else◌, Bool-cases, ok, err, arith,
}
use jonoob_part_backend.Movement.Payloads.{Item, IsReadBack, unordered, same_texts}
use jonoob_part_backend.Movement.Sorted.{
  Reordered, unordered-Reordered, same_unordered-Reordered, same_texts_refl,
}
use jonoob_part_backend.Movement.Repository.{
  Movement, MovementRow, ItemRow, Db, idempotency_conflict, find_conflict, items_of, same_payload,
  row_of, creation_failure, refused_row, Outside, is_text, item_row, inserted, Recorded, with_items,
  record_on, record_movement,
}

-- No item belongs to the next movement yet.
abbrev pub IsFresh : Db → Type 0
IsFresh db = All (λ r. (r.movement_id == db.next_id) ≡ false) db.movement_items

-- The payload of the recorded movement, up to the order of the items.
abbrev pub IsSame : Movement → ℕ → ℕ → List Item → Type 0
IsSame m direction source items =
    (m.direction ≡ direction) × (m.source ≡ source) × Reordered m.items items

same_payload-IsSame :
    (stringify : ℕ → ℕ → ℕ) (parse : ℕ → Item)
    → IsReadBack stringify parse
    → (m : Movement) (r : MovementRow) (items : List Item) → same_payload stringify m r items ≡ true
    → IsSame m r.direction r.source items
unfolding same_payload
same_payload-IsSame stringify parse back m r items h = (
  ground (arith, h),
  ground (arith, h),
  same_unordered-Reordered stringify parse back m.items items (ground (arith, h)),
)

IsSame-same_payload :
    (stringify : ℕ → ℕ → ℕ) (m : Movement) (r : MovementRow) (items : List Item)
    → IsSame m r.direction r.source items
    → same_payload stringify m r items ≡ true
unfolding same_payload
IsSame-same_payload stringify m r items (d, s, o) =
    let sorted : same_texts (unordered stringify m.items) (unordered stringify items) ≡ true =
      subst (λ xs. same_texts (unordered stringify m.items) xs ≡ true)
        (unordered-Reordered stringify o) (same_texts_refl (unordered stringify m.items)) in
    rw sorted (ground arith)

items_of-fresh :
    (id : ℕ) (rs : List ItemRow) → All (λ r. (r.movement_id == id) ≡ false) rs → items_of id rs ≡ []
unfolding items_of
items_of-fresh id [] h = refl
items_of-fresh id (r ∷ rs) (h, hs) = rw h (items_of-fresh id rs hs)

items_of-inserted :
    (id : ℕ) (is : List Item) (rs : List ItemRow)
    → All (λ r. (r.movement_id == id) ≡ false) rs
    → items_of id (map (item_row id) is ++ rs) ≡ is
unfolding items_of
items_of-inserted id [] rs h = items_of-fresh id rs h
items_of-inserted id (i ∷ is) rs h =
    let own : (id == id) ≡ true = ground arith in
    rw own (ap (λ xs. i ∷ xs) (items_of-inserted id is rs h))

-- A movement with a key that is there: it is answered, or refused.
abbrev pub Replays : Outside → Movement → Db → ℕ → ℕ → ℕ → List Item → Type 0
Replays o m db id direction source items =
    ((record_movement o m db ≡ ok ((id, false), db)) × IsSame m direction source items)
    ⊎ ((record_movement o m db ≡ err idempotency_conflict) × (IsSame m direction source items → ⊥))

replayed :
    (o : Outside) (m : Movement) (db : Db) (r : MovementRow) (found : Option MovementRow)
    → found ≡ some r
    → is_text m.idempotency_key ≡ true
    → same_payload o.stringify m r (items_of r.id db.movement_items) ≡ true
    → record_on o m db found ≡ ok ((r.id, false), db)
replayed o m db r found h text e =
    subst (λ x. record_on o m db x ≡ ok ((r.id, false), db)) (sym h) (rw (text, e) refl)

refused :
    (o : Outside) (m : Movement) (db : Db) (r : MovementRow) (found : Option MovementRow)
    → found ≡ some r
    → is_text m.idempotency_key ≡ true
    → same_payload o.stringify m r (items_of r.id db.movement_items) ≡ false
    → record_on o m db found ≡ err idempotency_conflict
refused o m db r found h text e =
    subst (λ x. record_on o m db x ≡ err idempotency_conflict) (sym h) (rw (text, e) refl)

passed :
    (o : Outside) (m : Movement) (db : Db)
    → o.breaks_check m ≡ false
    → record_movement o m db ≡ record_on o m db (find_conflict m.idempotency_key db)
unfolding record_movement
passed o m db e = rw e refl

found-Replays :
    (o : Outside) (parse : ℕ → Item)
    → IsReadBack o.stringify parse
    → (m : Movement) (db : Db) (k : ℕ) (r : MovementRow) → o.breaks_check m ≡ false
    → m.idempotency_key ≡ some k
    → (k == 0) ≡ false
    → find_conflict (some k) db ≡ some r
    → Replays o m db r.id r.direction r.source (items_of r.id db.movement_items)
found-Replays o parse back m db k r valid key filled found =
    let items = items_of r.id db.movement_items in
    let text : is_text m.idempotency_key ≡ true =
      subst (λ x. is_text x ≡ true) (sym key) (rw filled refl) in
    let there : find_conflict m.idempotency_key db ≡ some r =
      subst (λ x. find_conflict x db ≡ some r) (sym key) found in
    let here = find_conflict m.idempotency_key db in
    elim (Bool-cases (same_payload o.stringify m r items)) [
      | inl e ↦ inl (
        passed o m db valid ∙ replayed o m db r here there text e,
        same_payload-IsSame o.stringify parse back m r items e,
      )
      | inr e ↦ inr (
        passed o m db valid ∙ refused o m db r here there text e,
        λ s. cc (IsSame-same_payload o.stringify m r items s),
      )
    ]

-- What a record that creates a movement leaves.
created :
    (o : Outside) (m : Movement) (db db' : Db) (id : ℕ)
    → record_movement o m db ≡ ok ((id, true), db')
    → (id ≡ db.next_id) × (db' ≡ inserted m db)
unfolding record_movement
created o m db db' id e = go (find_conflict m.idempotency_key db) (o.breaks_check m) e
  where
    new :
        (is : List Item) (b : Bool)
        → (if b then err refused_row else with_items is (ok ((db.next_id, true), inserted m db)))
          ≡ ok ((id, true), db')
        → (id ≡ db.next_id) × (db' ≡ inserted m db)
    new is true e = cc
    new [] false e = cc
    new (i ∷ is) false e = (cc e, cc e)

    old :
        (r : MovementRow) (b c : Bool)
        → ◌≡◌ {A = Recorded}
            (if b
              then if c then ok ((r.id, false), db) else err idempotency_conflict
              else err creation_failure)
            (ok ((id, true), db'))
        → (id ≡ db.next_id) × (db' ≡ inserted m db)
    old r true true e = cc
    old r true false e = cc
    old r false c e = cc

    go :
        (found : Option MovementRow) (b : Bool)
        → (if b then err refused_row else record_on o m db found) ≡ ok ((id, true), db')
        → (id ≡ db.next_id) × (db' ≡ inserted m db)
    go found true e = cc
    go none false e = new m.items (o.breaks_insert m db) e
    go (some r) false e = old r _ _ e

find-inserted :
    (m : Movement) (db : Db) (k : ℕ)
    → m.idempotency_key ≡ some k
    → find_conflict (some k) (inserted m db) ≡ some (row_of db.next_id m)
unfolding find_conflict
find-inserted m db k key =
    let e : eq_some m.idempotency_key (some k) ≡ true =
      subst (λ x. eq_some x (some k) ≡ true) (sym key) (ground arith) in
    rw e refl

-- Once a movement with a key has been created, a movement with the same key creates nothing: it
-- answers the first one's id, with nothing changed, when it has the same direction and source and the
-- same items in any order, and else it is refused as a conflict. The key is not empty, the second
-- movement breaks no check of its row, no item stood under the new id, and `JSON.parse` reads back what
-- `JSON.stringify` writes.
pub record-Replays :
    (o : Outside) (parse : ℕ → Item)
    → IsReadBack o.stringify parse
    → (m m' : Movement) (db db' : Db) (id k : ℕ) → IsFresh db
    → m.idempotency_key ≡ some k
    → (k == 0) ≡ false
    → record_movement o m db ≡ ok ((id, true), db')
    → m'.idempotency_key ≡ some k
    → o.breaks_check m' ≡ false
    → Replays o m' db' id m.direction m.source m.items
record-Replays o parse back m m' db db' id k fresh key filled made key' valid =
    let (same_id, left) = created o m db db' id made in
    let now = inserted m db in
    subst (λ d. Replays o m' d id m.direction m.source m.items) (sym left)
      (subst (λ j. Replays o m' now j m.direction m.source m.items) (sym same_id)
        (subst (Replays o m' now db.next_id m.direction m.source)
          (items_of-inserted db.next_id m.items db.movement_items fresh)
          (found-Replays o parse back m' now k (row_of db.next_id m) valid key' filled
            (find-inserted m db k key))))
