-- ===== src/Purge/Job.antt =====
-- features/warehouse/stocks/http/src/jobs/purge-empty-stocks.job.ts. What happens in each batch is a
-- function of its number.
use jonoob_part_backend.Common.{
  ℕ, zero, suc, ◌+◌, Bool, true, false, Option, none, some, List, length, ltb, if◌then◌else◌,
  Result, ok, err,
}
use jonoob_part_backend.Purge.Tables.{
  StockRow, Db, FkRef, FkRow, JobError, foreign_key_violation, other_failure, unsupported_key,
  find_references, Turn, Options, delete_empty_stocks_batch, delete_orphan_labels_batch,
}

abbrev pub stock_batch : Options
stock_batch = record { batch_size = 500; grace_days = 30 }

abbrev pub label_batch : Options
label_batch = record { batch_size = 500; grace_days = 7 }

abbrev pub max_batches_per_run : ℕ
max_batches_per_run = 20

-- The database and the number of the next batch.
pub record State : Type 0 where
  pub db : Db
  pub batch : ℕ

-- What the job finds outside: the batches, the answers of the catalog, and what refers to a row.
pub record Environment : Type 0 where
  pub turn : ℕ → Turn
  pub stock_keys : Result JobError (List FkRow)
  pub label_keys : Result JobError (List FkRow)
  pub refers_to_stock : FkRef → ℕ → Bool
  pub refers_to_label : FkRef → ℕ → List StockRow → Bool

abbrev pub Deletion : Type 0
Deletion = Turn → Db → Result JobError (List ℕ) × Db

abbrev pub Outcome : Type 0
Outcome = Result JobError ℕ × State

-- A foreign key violation ends the loop, any other failure is thrown.
abbrev pub ended : JobError → ℕ → State → Outcome
ended foreign_key_violation total s = (ok total, s)
ended (other_failure n) total s = (err (other_failure n), s)
ended unsupported_key total s = (err unsupported_key, s)

-- What follows a batch: a short one is the last.
abbrev pub proceed : Result JobError (List ℕ) → ℕ → ℕ → State → (ℕ → Outcome) → Outcome
proceed (err e) size total s next = ended e total s
proceed (ok ids) size total s next =
    if ltb (length ids) size then (ok (total + length ids), s) else next (total + length ids)

module _ (env : Environment) where
  abbrev pub one_batch : Deletion → State → Result JobError (List ℕ) × State
  one_batch delete s =
      let (r, db) = delete (env.turn s.batch) s.db in (r, record { db = db; batch = suc s.batch })

  -- The loop, with the batches left.
  unfoldable pub drain : ℕ → ℕ → Deletion → ℕ → State → Outcome
  drain zero size delete total s = (ok total, s)
  drain (suc left) size delete total s =
      let (r, s') = one_batch delete s in
      proceed r size total s' λ total'. drain left size delete total' s'

  abbrev pub with_references :
      Result JobError (List FkRef) → (List FkRef → State → Outcome) → State → Outcome
  with_references (err e) f s = (err e, s)
  with_references (ok refs) f s = f refs s

  unfoldable pub purge_stocks : State → Outcome
  unfolding find_references drain delete_empty_stocks_batch
  purge_stocks = with_references (find_references env.stock_keys) λ refs.
      drain max_batches_per_run stock_batch.batch_size
        (delete_empty_stocks_batch env.refers_to_stock refs stock_batch) 0

  unfoldable pub purge_labels : State → Outcome
  unfolding find_references drain delete_orphan_labels_batch
  purge_labels = with_references (find_references env.label_keys) λ refs.
      drain max_batches_per_run label_batch.batch_size
        (delete_orphan_labels_batch env.refers_to_label refs label_batch) 0

  -- The first failure is thrown at the end.
  abbrev pub both_counts : Result JobError ℕ → Result JobError ℕ → Result JobError (ℕ × ℕ)
  both_counts (err e) r = err e
  both_counts (ok stocks) (err e) = err e
  both_counts (ok stocks) (ok labels) = ok (stocks, labels)

  unfoldable pub run : State → Result JobError (ℕ × ℕ) × State
  unfolding purge_stocks purge_labels
  run s =
      let (stocks, s') = purge_stocks s in
      let (labels, s'') = purge_labels s' in (both_counts stocks labels, s'')

  -- `handle`, with the flag `running`; it logs what came of the run and throws nothing.
  unfoldable pub handle : Bool → State → Option (Result JobError (ℕ × ℕ)) × Bool × State
  unfolding run
  handle true s = (none, true, s)
  handle false s = let (r, s') = run s in (some r, false, s')
