-- ===== src/Purge/Tests.antt =====
-- Runs of the purge job.
use jonoob_part_backend.Common.{
  ◌+◌, ◌*◌, ◌≤◌, ◌≡◌, refl, sym, ◌∙◌, inl, inr, true, false, none, some, [], ◌∷◌, In, ◌==◌, ok, err,
  arith,
}
use jonoob_part_backend.Purge.Tables.{
  StockRow, LabelRow, Db, foreign_key_violation, unsupported_key, insert_by, find_references, day,
}
use jonoob_part_backend.Purge.Job.{State, Environment, run, handle}
use jonoob_part_backend.Purge.Counts.{AreGone, run-AreGone}
use jonoob_part_backend.Purge.Batches.{WasPurgeable, WasOrphan}
use jonoob_part_backend.Purge.Safety.{StaysOr, run-StaysOr}

-- Stock 1 is empty for long, stock 2 is not empty, stock 3 is locked.
abbrev db : Db
db = record {
  stocks =
      record { id = 1; quantity = 0; zeroed_at = some 0 }
      ∷ record { id = 2; quantity = 4; zeroed_at = none }
      ∷ record { id = 3; quantity = 0; zeroed_at = some 5 }
      ∷ [];
  labels = record { seq = 7; id = 70; created_at = 0 } ∷ [];
}

abbrev calm : Environment
calm = record {
  turn = λ n. record { now = 40 * day; is_locked = λ id. id == 3; failure = none };
  stock_keys =
      ok (record { table = 1; column = some 2 } ∷ record { table = 1; column = some 2 } ∷ []);
  label_keys = ok [];
  refers_to_stock = λ ref id. false;
  refers_to_label = λ ref id stocks. false;
}

abbrev start : State
start = record { db = db; batch = 0 }

purges : (run calm start).0 ≡ ok (1, 1)
unfolding run insert_by
purges = refl

references_once : find_references calm.stock_keys ≡ ok (record { table = 1; column = 2 } ∷ [])
unfolding find_references
references_once = refl

-- A batch that meets a new reference ends the loop; the catalog's failure is thrown.
abbrev stormy : Environment
stormy = record calm {
  turn =
      λ n. record { now = 40 * day; is_locked = λ id. false; failure = some foreign_key_violation };
  label_keys = ok (record { table = 1; column = none } ∷ []);
}

throws_last : (run stormy start).0 ≡ err unsupported_key
unfolding run insert_by
throws_last = refl

skips_while_running : (handle calm true start).0 ≡ none
unfolding handle
skips_while_running = refl

run-AreGone_example :
    ((run calm start).1.batch ≤ 0 + 40) × AreGone (run calm start).0 db (run calm start).1.db
run-AreGone_example = run-AreGone calm start

stocks_keyed : (a b : StockRow) → In a db.stocks → In b db.stocks → a.id ≡ b.id → a ≡ b
stocks_keyed a b (inl e) (inl f) same = e ∙ sym f
stocks_keyed a b (inl e) (inr (inl f)) same = ground arith
stocks_keyed a b (inl e) (inr (inr (inl f))) same = ground arith
stocks_keyed a b (inl e) (inr (inr (inr f))) same = absurd f
stocks_keyed a b (inr (inl e)) (inl f) same = ground arith
stocks_keyed a b (inr (inl e)) (inr (inl f)) same = e ∙ sym f
stocks_keyed a b (inr (inl e)) (inr (inr (inl f))) same = ground arith
stocks_keyed a b (inr (inl e)) (inr (inr (inr f))) same = absurd f
stocks_keyed a b (inr (inr (inl e))) (inl f) same = ground arith
stocks_keyed a b (inr (inr (inl e))) (inr (inl f)) same = ground arith
stocks_keyed a b (inr (inr (inl e))) (inr (inr (inl f))) same = e ∙ sym f
stocks_keyed a b (inr (inr (inl e))) (inr (inr (inr f))) same = absurd f
stocks_keyed a b (inr (inr (inr e))) j same = absurd e

labels_keyed : (a b : LabelRow) → In a db.labels → In b db.labels → a.seq ≡ b.seq → a ≡ b
labels_keyed a b (inl e) (inl f) same = e ∙ sym f
labels_keyed a b (inl e) (inr f) same = absurd f
labels_keyed a b (inr e) j same = absurd e

run-StaysOr_example :
    let after = (run calm start).1.db in
    ((r : StockRow)
      → In r db.stocks
      → StaysOr calm (find_references calm.stock_keys) (WasPurgeable calm) after.stocks r)
    × ((l : LabelRow)
        → In l db.labels
        → StaysOr calm
            (find_references calm.label_keys)
            (λ refs. WasOrphan calm refs after.stocks)
            after.labels
            l)
run-StaysOr_example = run-StaysOr calm start (stocks_keyed, labels_keyed)
