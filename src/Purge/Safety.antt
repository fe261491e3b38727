-- ===== src/Purge/Safety.antt =====
-- Which rows the purge job deletes.
use jonoob_part_backend.Common.{ℕ, ◌≡◌, refl, sym, subst, ◌⊎◌, inl, inr, List, In, Result, ok, err}
use jonoob_part_backend.Purge.Tables.{
  StockRow, LabelRow, FkRef, JobError, find_references, delete_empty_stocks_batch,
  delete_orphan_labels_batch,
}
use jonoob_part_backend.Purge.Job.{
  stock_batch, label_batch, max_batches_per_run, State, Environment, with_references, drain,
  purge_stocks, purge_labels, run,
}
use jonoob_part_backend.Purge.Deleted.{drain-TakesAll}
use jonoob_part_backend.Purge.Batches.{
  IsKeyed, WasPurgeable, WasOrphan, KeepsLabels, KeepsStocks, stocks_batch-Takes,
  labels_batch-Takes,
}

module _ (env : Environment) where
  -- A row is in the table, or it was deleted by a batch when it could be, by the references `refs`.
  abbrev pub StaysOr :
      {R : Type 0}
      → Result JobError (List FkRef)
      → (List FkRef → ℕ → R → Type 0)
      → List R
      → R
      → Type 0
  StaysOr refs P rows r =
      In r rows ⊎ ((found : List FkRef) × (t : ℕ) × (refs ≡ ok found) × P found t r)

  purge_stocks-Takes :
      (s : State)
      → IsKeyed s.db
      → KeepsLabels s.db.labels (purge_stocks env s).1.db
        × ((r : StockRow)
            → In r s.db.stocks
            → StaysOr
                (find_references env.stock_keys)
                (WasPurgeable env)
                (purge_stocks env s).1.db.stocks
                r)
  unfolding purge_stocks
  purge_stocks-Takes s h = go (find_references env.stock_keys) refl
    where
      go :
          (refs : Result JobError (List FkRef))
          → find_references env.stock_keys ≡ refs
          → let after =
              (with_references env refs
                (λ refs.
                  drain env max_batches_per_run stock_batch.batch_size
                    (delete_empty_stocks_batch env.refers_to_stock refs stock_batch)
                    0)
                s).1.db in
            KeepsLabels s.db.labels after
            × ((r : StockRow)
                → In r s.db.stocks
                → StaysOr (find_references env.stock_keys) (WasPurgeable env) after.stocks r)
      go (err e) same = ((h, refl), λ r i. inl i)
      go (ok refs) same =
          let (k, f) =
            drain-TakesAll env (KeepsLabels s.db.labels) (λ db. db.stocks) (WasPurgeable env refs)
              (delete_empty_stocks_batch env.refers_to_stock refs stock_batch)
              (stocks_batch-Takes env s.db.labels refs) max_batches_per_run stock_batch.batch_size 0
              s (h, refl) in
          (k, λ r i. elim (f r i) [ inl j ↦ inl j | inr (t, p) ↦ inr (refs, t, same, p) ])

  purge_labels-Takes :
      (s : State)
      → IsKeyed s.db
      → KeepsStocks s.db.stocks (purge_labels env s).1.db
        × ((l : LabelRow)
            → In l s.db.labels
            → StaysOr
                (find_references env.label_keys)
                (λ refs. WasOrphan env refs s.db.stocks)
                (purge_labels env s).1.db.labels
                l)
  unfolding purge_labels
  purge_labels-Takes s h = go (find_references env.label_keys) refl
    where
      go :
          (refs : Result JobError (List FkRef))
          → find_references env.label_keys ≡ refs
          → let after =
              (with_references env refs
                (λ refs.
                  drain env max_batches_per_run label_batch.batch_size
                    (delete_orphan_labels_batch env.refers_to_label refs label_batch)
                    0)
                s).1.db in
            KeepsStocks s.db.stocks after
            × ((l : LabelRow)
                → In l s.db.labels
                → StaysOr
                    (find_references env.label_keys)
                    (λ refs. WasOrphan env refs s.db.stocks)
                    after.labels
                    l)
      go (err e) same = ((h, refl), λ r i. inl i)
      go (ok refs) same =
          let (k, f) =
            drain-TakesAll env (KeepsStocks s.db.stocks) (λ db. db.labels)
              (WasOrphan env refs s.db.stocks)
              (delete_orphan_labels_batch env.refers_to_label refs label_batch)
              (labels_batch-Takes env s.db.stocks refs) max_batches_per_run label_batch.batch_size 0
              s (h, refl) in
          (k, λ r i. elim (f r i) [ inl j ↦ inl j | inr (t, p) ↦ inr (refs, t, same, p) ])

  -- Whatever happens in the batches, failures and a rethrown exception included, and where the two
  -- tables have their keys: after a run each stock is still there, or at the time of one batch it had
  -- been empty for thirty days, was not locked and nothing referred to it; and each label is still
  -- there, or at the time of one batch it was seven days old, not locked, and nothing referred to it,
  -- given the stocks that are left. The references are those that the catalog listed.
  pub run-StaysOr :
      (s : State)
      → IsKeyed s.db
      → let after = (run env s).1.db in
        ((r : StockRow)
          → In r s.db.stocks
          → StaysOr (find_references env.stock_keys) (WasPurgeable env) after.stocks r)
        × ((l : LabelRow)
            → In l s.db.labels
            → StaysOr
                (find_references env.label_keys)
                (λ refs. WasOrphan env refs after.stocks)
                after.labels
                l)
  unfolding run
  run-StaysOr s h =
      let s' = (purge_stocks env s).1 in
      let ((h', labels), f) = purge_stocks-Takes s h in
      let ((h'', stocks), g) = purge_labels-Takes s' h' in
      (
        λ r i.
            subst (λ rows. StaysOr (find_references env.stock_keys) (WasPurgeable env) rows r)
              (sym stocks) (f r i),
        λ l i.
            subst
              (λ rows.
                StaysOr (find_references env.label_keys) (λ refs. WasOrphan env refs rows)
                  (purge_labels env s').1.db.labels l)
              (sym stocks) (g l (subst (In l) (sym labels) i)),
      )
