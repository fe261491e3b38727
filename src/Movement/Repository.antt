-- ===== src/Movement/Repository.antt =====
-- features/warehouse/movement/impl/src/movement.repository.ts: recording a movement once for its
-- idempotency key. The empty key is 0.
use jonoob_part_backend.Common.{
  ℕ, suc, Bool, true, false, not, ◌&&◌, Option, none, some, List, [], ◌∷◌, ◌++◌, map, filter, find?,
  ◌==◌, eq_some, if◌then◌else◌, Result, ok, err,
}
use jonoob_part_backend.Movement.Payloads.{Item, unordered, same_texts}

-- `RecordMovement`
pub record Movement : Type 0 where
  pub idempotency_key : Option ℕ
  pub direction : ℕ
  pub source : ℕ
  pub reference_id : ℕ
  pub items : List Item

pub record MovementRow : Type 0 where
  pub id : ℕ
  pub idempotency_key : Option ℕ
  pub direction : ℕ
  pub source : ℕ
  pub reference_id : ℕ

pub record ItemRow : Type 0 where
  pub movement_id : ℕ
  pub item : Item

pub record Db : Type 0 where
  pub movements : List MovementRow
  pub movement_items : List ItemRow
  pub next_id : ℕ

pub data MovementError : Type 0 where
  creation_failure : MovementError
  idempotency_conflict : MovementError
  no_values : MovementError
  refused_row : MovementError

-- What is not here: `JSON.stringify`, and the constraints of the tables of `@feature/warehouse-schema`,
-- but for the unique key. Those on a row alone are tested before the key's conflict, the others when the
-- rows are inserted.
pub record Outside : Type 0 where
  pub stringify : ℕ → ℕ → ℕ
  pub breaks_check : Movement → Bool
  pub breaks_insert : Movement → Db → Bool

-- `assertString`, at least one character
abbrev pub is_text : Option ℕ → Bool
is_text none = false
is_text (some k) = not (k == 0)

-- The unique column: a key that is not NULL conflicts with its equal.
unfoldable pub find_conflict : Option ℕ → Db → Option MovementRow
find_conflict key db = find? (λ r. eq_some r.idempotency_key key) db.movements

-- The items of `toMovementRecord`.
unfoldable pub items_of : ℕ → List ItemRow → List Item
items_of id [] = []
items_of id (r ∷ rs) = if r.movement_id == id then r.item ∷ items_of id rs else items_of id rs

-- `assertSamePayload`, by direction, source and unordered items
unfoldable pub same_payload : (ℕ → ℕ → ℕ) → Movement → MovementRow → List Item → Bool
unfolding unordered same_texts
same_payload stringify m r items =
    m.direction == r.direction
    && m.source == r.source
    && same_texts (unordered stringify m.items) (unordered stringify items)

abbrev pub row_of : ℕ → Movement → MovementRow
row_of id m = record {
  id = id;
  idempotency_key = m.idempotency_key;
  direction = m.direction;
  source = m.source;
  reference_id = m.reference_id;
}

abbrev pub item_row : ℕ → Item → ItemRow
item_row id i = record { movement_id = id; item = i }

abbrev pub inserted : Movement → Db → Db
inserted m db = record {
  movements = row_of db.next_id m ∷ db.movements;
  movement_items = map (item_row db.next_id) m.items ++ db.movement_items;
  next_id = suc db.next_id;
}

-- The id of the movement, and whether it was created.
abbrev pub Recorded : Type 0
Recorded = Result MovementError ((ℕ × Bool) × Db)

-- An insert of no rows throws.
abbrev pub with_items : List Item → Recorded → Recorded
with_items [] r = err no_values
with_items (i ∷ is) r = r

abbrev pub insert_rows : Outside → Movement → Db → Recorded
insert_rows o m db =
    if o.breaks_insert m db
    then err refused_row
    else with_items m.items (ok ((db.next_id, true), inserted m db))

abbrev pub record_on : Outside → Movement → Db → Option MovementRow → Recorded
record_on o m db none = insert_rows o m db
record_on o m db (some r) =
    if is_text m.idempotency_key
    then if same_payload o.stringify m r (items_of r.id db.movement_items)
      then ok ((r.id, false), db)
      else err idempotency_conflict
    else err creation_failure

-- `record`, in a transaction: an error leaves the store.
unfoldable pub record_movement : Outside → Movement → Db → Recorded
unfolding find_conflict same_payload items_of
record_movement o m db =
    if o.breaks_check m
    then err refused_row
    else record_on o m db (find_conflict m.idempotency_key db)

-- `delete`; the items go with their movement.
unfoldable pub delete_movement : ℕ → Db → Db
delete_movement id db = record db {
  movements = filter (λ r. not (r.id == id)) db.movements;
  movement_items = filter (λ r. not (r.movement_id == id)) db.movement_items;
}
