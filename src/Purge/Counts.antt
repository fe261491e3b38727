-- ===== src/Purge/Counts.antt =====
-- How long the purge job runs and what it counts.
use jonoob_part_backend.Common.{
  ℕ, zero, suc, ◌+◌, ◌≤◌, ◌≡◌, refl, ap, ◌∙◌, Bool, true, false, not, Option, none, some, List, [],
  ◌∷◌, map, filter, length, ltb, if◌then◌else◌, Bool-cases, Result, ok, err, inl, inr, mem, arith,
}
use jonoob_part_backend.Purge.Tables.{
  StockRow, LabelRow, Db, FkRef, JobError, foreign_key_violation, other_failure, unsupported_key,
  find_references, Turn, picked_stocks, is_deleted_stock, unless_failed, delete_empty_stocks_batch,
  picked_labels, delete_orphan_labels_batch,
}
use jonoob_part_backend.Purge.Job.{
  stock_batch, label_batch, max_batches_per_run, State, Environment, Deletion, Outcome, ended,
  one_batch, proceed, drain, with_references, purge_stocks, purge_labels, both_counts, run,
}

length-map : {A B : Type 0} (f : A → B) (xs : List A) → length (map f xs) ≡ length xs
length-map f [] = refl
length-map f (x ∷ xs) = ap suc (length-map f xs)

-- The rows that a test takes and those that it leaves.
length-filter-not :
    {A : Type 0} (p : A → Bool) (xs : List A)
    → length xs ≡ length (filter p xs) + length (filter (λ x. not (p x)) xs)
length-filter-not p [] = refl
length-filter-not p (x ∷ xs) = elim (Bool-cases (p x)) [
  | inl e ↦ rw e (omega (arith, length-filter-not p xs))
  | inr e ↦ rw e (omega (arith, length-filter-not p xs))
]

-- A batch answers as many ids as rows are gone, and a failed one takes none; the other table stays.
abbrev Accounts : (Db → ℕ) → (Db → ℕ) → Db → Result JobError (List ℕ) × Db → Type 0
Accounts m other db (ok ids, db') = (m db ≡ length ids + m db') × (other db' ≡ other db)
Accounts m other db (err e, db') = (m db' ≡ m db) × (other db' ≡ other db)

-- The loop over at most `left` batches has counted from `total` on what is gone.
abbrev Counted : (Db → ℕ) → (Db → ℕ) → ℕ → ℕ → State → Outcome → Type 0
Counted m other left total s (ok n, s') =
    (s'.batch ≤ s.batch + left) × (total + m s.db ≡ n + m s'.db) × (other s'.db ≡ other s.db)
Counted m other left total s (err e, s') =
    (s'.batch ≤ s.batch + left) × (m s'.db ≤ m s.db) × (other s'.db ≡ other s.db)

module _ (env : Environment) (m other : Db → ℕ) (delete : Deletion)
    (step : (t : ℕ) (db : Db) → Accounts m other db (delete (env.turn t) db)) where
  drain-Counted :
      (left size total : ℕ) (s : State)
      → Counted m other left total s (drain env left size delete total s)
  unfolding drain
  drain-Counted zero size total s = (omega arith, refl, refl)
  drain-Counted (suc left) size total s =
      go (delete (env.turn s.batch) s.db).0 (step s.batch s.db)
        λ total'. drain-Counted left size total' (one_batch env delete s).1
    where
      s'' : State
      s'' = (one_batch env delete s).1

      at_end :
          (e : JobError)
          → Accounts m other s.db (err e, s''.db)
          → Counted m other (suc left) total s (ended e total s'')
      at_end foreign_key_violation (a, b) = (omega arith, omega arith, b)
      at_end (other_failure n) (a, b) = (omega arith, omega arith, b)
      at_end unsupported_key (a, b) = (omega arith, omega arith, b)

      later :
          (ids : List ℕ) (o : Outcome)
          → Accounts m other s.db (ok ids, s''.db)
          → Counted m other left (total + length ids) s'' o
          → Counted m other (suc left) total s o
      later ids (ok n, s') (a, b) (c, d, e) = (omega arith, omega arith, e ∙ b)
      later ids (err x, s') (a, b) (c, d, e) = (omega arith, omega arith, e ∙ b)

      split :
          (b : Bool) (ids : List ℕ)
          → Accounts m other s.db (ok ids, s''.db)
          → ((total' : ℕ) → Counted m other left total' s'' (drain env left size delete total' s''))
          → Counted m other (suc left) total s (
              if b
              then (ok (total + length ids), s'')
              else drain env left size delete (total + length ids) s'')
      split true ids (a, b) next = (omega arith, omega arith, b)
      split false ids k next =
          later ids (drain env left size delete (total + length ids) s'') k
            (next (total + length ids))

      go :
          (r : Result JobError (List ℕ))
          → Accounts m other s.db (r, s''.db)
          → ((total' : ℕ) → Counted m other left total' s'' (drain env left size delete total' s''))
          → Counted m other
              (suc left)
              total
              s
              (proceed r size total s'' λ total'. drain env left size delete total' s'')
      go (err e) k next = at_end e k
      go (ok ids) k next = split (ltb (length ids) size) ids k next

abbrev stocks_of : Db → ℕ
stocks_of db = length db.stocks

abbrev labels_of : Db → ℕ
labels_of db = length db.labels

stocks_batch-Accounts :
    (exists : FkRef → ℕ → Bool) (refs : List FkRef) (turn : Turn) (db : Db)
    → Accounts stocks_of labels_of db (delete_empty_stocks_batch exists refs stock_batch turn db)
unfolding delete_empty_stocks_batch
stocks_batch-Accounts exists refs turn db = go turn.failure
  where
    p : StockRow → Bool
    p = is_deleted_stock (picked_stocks exists refs turn stock_batch db.stocks)

    go :
        (f : Option JobError)
        → Accounts stocks_of labels_of db (
            unless_failed f
              (
                map (λ s. s.id) (filter p db.stocks),
                record db { stocks = filter (λ s. not (p s)) db.stocks },
              )
              db)
    go (some e) = (refl, refl)
    go none = (
      omega (
        arith,
        length-filter-not p db.stocks,
        length-map (λ (s : StockRow). s.id) (filter p db.stocks),
      ),
      refl,
    )

labels_batch-Accounts :
    (exists : FkRef → ℕ → List StockRow → Bool) (refs : List FkRef) (turn : Turn) (db : Db)
    → Accounts labels_of stocks_of db (delete_orphan_labels_batch exists refs label_batch turn db)
unfolding delete_orphan_labels_batch
labels_batch-Accounts exists refs turn db = go turn.failure
  where
    p : LabelRow → Bool
    p l = mem l.seq (picked_labels exists refs turn label_batch db)

    go :
        (f : Option JobError)
        → Accounts labels_of stocks_of db (
            unless_failed f
              (
                map (λ l. l.id) (filter p db.labels),
                record db { labels = filter (λ l. not (p l)) db.labels },
              )
              db)
    go (some e) = (refl, refl)
    go none = (
      omega (
        arith,
        length-filter-not p db.labels,
        length-map (λ (l : LabelRow). l.id) (filter p db.labels),
      ),
      refl,
    )

purge_stocks-Counted :
    (env : Environment) (s : State) → Counted stocks_of labels_of 20 0 s (purge_stocks env s)
unfolding purge_stocks
purge_stocks-Counted env s = go (find_references env.stock_keys)
  where
    go :
        (refs : Result JobError (List FkRef))
        → Counted stocks_of labels_of 20 0 s (
            with_references env refs
              (λ refs.
                drain env max_batches_per_run stock_batch.batch_size
                  (delete_empty_stocks_batch env.refers_to_stock refs stock_batch)
                  0)
              s)
    go (err e) = (omega arith, omega arith, refl)
    go (ok refs) =
        drain-Counted env stocks_of labels_of
          (delete_empty_stocks_batch env.refers_to_stock refs stock_batch)
          (λ t db. stocks_batch-Accounts env.refers_to_stock refs (env.turn t) db) 20 500 0 s

purge_labels-Counted :
    (env : Environment) (s : State) → Counted labels_of stocks_of 20 0 s (purge_labels env s)
unfolding purge_labels
purge_labels-Counted env s = go (find_references env.label_keys)
  where
    go :
        (refs : Result JobError (List FkRef))
        → Counted labels_of stocks_of 20 0 s (
            with_references env refs
              (λ refs.
                drain env max_batches_per_run label_batch.batch_size
                  (delete_orphan_labels_batch env.refers_to_label refs label_batch)
                  0)
              s)
    go (err e) = (omega arith, omega arith, refl)
    go (ok refs) =
        drain-Counted env labels_of stocks_of
          (delete_orphan_labels_batch env.refers_to_label refs label_batch)
          (λ t db. labels_batch-Accounts env.refers_to_label refs (env.turn t) db) 20 500 0 s

-- The counts of a run that succeeds are the rows that it has deleted.
abbrev pub AreGone : Result JobError (ℕ × ℕ) → Db → Db → Type 0
AreGone (ok (stocks, labels)) db db' =
    (length db.stocks ≡ stocks + length db'.stocks)
    × (length db.labels ≡ labels + length db'.labels)
AreGone (err e) db db' =
    (length db'.stocks ≤ length db.stocks) × (length db'.labels ≤ length db.labels)

-- A run ends after at most forty batches, twenty for each table, whatever comes of them. If it
-- succeeds, it answers how many stocks and labels it has deleted; if it throws, no row was added.
pub run-AreGone :
    (env : Environment) (s : State)
    → ((run env s).1.batch ≤ s.batch + 40) × AreGone (run env s).0 s.db (run env s).1.db
unfolding run
run-AreGone env s =
    go (purge_stocks env s) (purge_stocks-Counted env s) (purge_labels env (purge_stocks env s).1)
      (purge_labels-Counted env (purge_stocks env s).1)
  where
    go :
        (o : Outcome)
        → Counted stocks_of labels_of 20 0 s o
        → (o' : Outcome) → Counted labels_of stocks_of 20 0 o.1 o'
        → (o'.1.batch ≤ s.batch + 40) × AreGone (both_counts env o.0 o'.0) s.db o'.1.db
    go (ok a, s1) (x, y, z) (ok b, s2) (u, v, w) = (omega arith, (omega arith, omega arith))
    go (ok a, s1) (x, y, z) (err f, s2) (u, v, w) = (omega arith, (omega arith, omega arith))
    go (err e, s1) (x, y, z) (ok b, s2) (u, v, w) = (omega arith, (omega arith, omega arith))
    go (err e, s1) (x, y, z) (err f, s2) (u, v, w) = (omega arith, (omega arith, omega arith))
