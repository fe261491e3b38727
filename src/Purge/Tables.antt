-- ===== src/Purge/Tables.antt =====
-- features/warehouse/stocks/http/src/jobs/empty-stocks-purge.repository.ts. Times are in milliseconds.
use jonoob_part_backend.Common.{
  ℕ, ◌+◌, ◌*◌, Bool, true, false, not, ◌&&◌, ◌||◌, Option, none, some, List, [], ◌∷◌, map, filter,
  any, take, mem, ltb, leb, ◌==◌, if◌then◌else◌, Result, ok, err,
}

-- The columns of warehouse.stocks and warehouse.labels that the job reads.
pub record StockRow : Type 0 where
  pub id : ℕ
  pub quantity : ℕ
  pub zeroed_at : Option ℕ

pub record LabelRow : Type 0 where
  pub seq : ℕ
  pub id : ℕ
  pub created_at : ℕ

pub record Db : Type 0 where
  pub stocks : List StockRow
  pub labels : List LabelRow

pub record FkRef : Type 0 where
  pub table : ℕ
  pub column : ℕ

-- A row of the catalog's query: a foreign key whose columns may not include the one asked for.
pub record FkRow : Type 0 where
  pub table : ℕ
  pub column : Option ℕ

pub data JobError : Type 0 where
  foreign_key_violation : JobError
  other_failure : ℕ → JobError
  unsupported_key : JobError

abbrev pub same_ref : FkRef → FkRef → Bool
same_ref a b = a.table == b.table && a.column == b.column

-- The loop of `findReferences`, with the references seen so far.
unfoldable pub collect_references : List FkRef → List FkRow → Result JobError (List FkRef)
collect_references seen [] = ok []
collect_references seen (r ∷ rs) = elim r.column [
  | none ↦ err unsupported_key
  | some c ↦
      let ref : FkRef = record { table = r.table; column = c } in
      elim (any (same_ref ref) seen) [
        | true ↦ collect_references seen rs
        | false ↦ elim (collect_references (ref ∷ seen) rs) [
          | err e ↦ err e
          | ok refs ↦ ok (ref ∷ refs)
        ]
      ]
]

unfoldable pub find_references : Result JobError (List FkRow) → Result JobError (List FkRef)
unfolding collect_references
find_references (err e) = err e
find_references (ok rows) = collect_references [] rows

-- One batch: the time of the statement, the rows that other transactions have locked, and whether the
-- statement fails, which rolls the batch back.
pub record Turn : Type 0 where
  pub now : ℕ
  pub is_locked : ℕ → Bool
  pub failure : Option JobError

-- `PurgeBatchOptions`, less the timeout of the statement
pub record Options : Type 0 where
  pub batch_size : ℕ
  pub grace_days : ℕ

abbrev pub day : ℕ
day = 86_400_000

-- `ORDER BY`: by the first number, then by the second.
abbrev pub comes_before : ℕ × ℕ → ℕ × ℕ → Bool
comes_before (a, b) (c, d) = ltb a c || (a == c && leb b d)

module _ {R : Type 0} (key : R → ℕ × ℕ) where
  unfoldable pub insert_by : R → List R → List R
  insert_by r [] = r ∷ []
  insert_by r (x ∷ xs) =
      let later = insert_by r xs in if comes_before (key r) (key x) then r ∷ x ∷ xs else x ∷ later

  unfoldable pub order_by : List R → List R
  unfolding insert_by
  order_by [] = []
  order_by (r ∷ rs) = insert_by r (order_by rs)

-- Whether the statement's `WHERE` holds for a stock; `exists` tells whether a row of the other table
-- refers to the id.
abbrev pub past_grace : ℕ → ℕ → Option ℕ → Bool
past_grace now days none = false
past_grace now days (some t) = leb (t + days * day) now

abbrev pub is_purgeable : (FkRef → ℕ → Bool) → List FkRef → Turn → Options → StockRow → Bool
is_purgeable exists refs turn opts s =
    s.quantity == 0
    && past_grace turn.now opts.grace_days s.zeroed_at
    && not (any (λ r. exists r s.id) refs)

abbrev pub or_zero : Option ℕ → ℕ
or_zero none = 0
or_zero (some n) = n

abbrev pub picked_stocks : (FkRef → ℕ → Bool) → List FkRef → Turn → Options → List StockRow → List ℕ
picked_stocks exists refs turn opts stocks =
    map (λ s. s.id)
      (take opts.batch_size (
        order_by (λ s. (or_zero s.zeroed_at, s.id))
          (filter (λ s. is_purgeable exists refs turn opts s && not (turn.is_locked s.id)) stocks)))

abbrev pub is_deleted_stock : List ℕ → StockRow → Bool
is_deleted_stock picked s = mem s.id picked && s.quantity == 0

abbrev pub unless_failed : Option JobError → List ℕ × Db → Db → Result JobError (List ℕ) × Db
unless_failed (some e) change db = (err e, db)
unless_failed none (ids, db') db = (ok ids, db')

unfoldable pub delete_empty_stocks_batch :
    (FkRef → ℕ → Bool) → List FkRef → Options → Turn → Db → Result JobError (List ℕ) × Db
unfolding order_by
delete_empty_stocks_batch exists refs opts turn db =
    let deleted = is_deleted_stock (picked_stocks exists refs turn opts db.stocks) in
    unless_failed turn.failure
      (
        map (λ s. s.id) (filter deleted db.stocks),
        record db { stocks = filter (λ s. not (deleted s)) db.stocks },
      )
      db

abbrev pub is_orphan :
    (FkRef → ℕ → List StockRow → Bool)
    → List FkRef
    → Turn
    → Options
    → List StockRow
    → LabelRow
    → Bool
is_orphan exists refs turn opts stocks l =
    leb (l.created_at + opts.grace_days * day) turn.now
    && not (any (λ r. exists r l.id stocks) refs)

abbrev pub picked_labels :
    (FkRef → ℕ → List StockRow → Bool) → List FkRef → Turn → Options → Db → List ℕ
picked_labels exists refs turn opts db =
    map (λ l. l.seq)
      (take opts.batch_size (
        order_by (λ l. (l.created_at, l.seq))
          (filter (λ l. is_orphan exists refs turn opts db.stocks l && not (turn.is_locked l.seq))
            db.labels)))

unfoldable pub delete_orphan_labels_batch :
    (FkRef → ℕ → List StockRow → Bool)
    → List FkRef
    → Options
    → Turn
    → Db
    → Result JobError (List ℕ) × Db
unfolding order_by
delete_orphan_labels_batch exists refs opts turn db =
    let deleted = λ (l : LabelRow). mem l.seq (picked_labels exists refs turn opts db) in
    unless_failed turn.failure
      (
        map (λ l. l.id) (filter deleted db.labels),
        record db { labels = filter (λ l. not (deleted l)) db.labels },
      )
      db
