-- ===== src/Purge/Batches.antt =====
-- Which rows one batch of the purge job deletes.
use jonoob_part_backend.Common.{
  ◌+◌, ◌*◌, ◌≤◌, [], ◌∷◌, ◌==◌, any, All, leb, ==_iff, Bool, true, false, arith, Bool-cases, ℕ, ◌≡◌,
  refl, sym, subst, inl, inr, true, not, ◌&&◌, Option, none, some, List, filter, In, mem,
}
use jonoob_part_backend.Purge.Tables.{
  day, past_grace, StockRow, LabelRow, Db, FkRef, JobError, is_purgeable, or_zero, picked_stocks,
  is_deleted_stock, unless_failed, delete_empty_stocks_batch, is_orphan, picked_labels,
  delete_orphan_labels_batch,
}
use jonoob_part_backend.Purge.Job.{stock_batch, label_batch, Environment}
use jonoob_part_backend.Purge.Deleted.{
  IsKeyedBy, picked-In, IsKeyedBy-filter, and-left, deleted_or_stays, Takes,
}

and-both : (a b : Bool) → (a && b) ≡ true → (a ≡ true) × (b ≡ true)
and-both true b e = (refl, e)
and-both false b e = cc

not-false : (b : Bool) → not b ≡ true → b ≡ false
not-false true e = cc
not-false false e = refl

none-refers :
    (f : FkRef → Bool) (refs : List FkRef) → any f refs ≡ false → All (λ r. f r ≡ false) refs
none-refers f [] e = tt
none-refers f (r ∷ rs) e = elim (Bool-cases (f r)) [
  | inl t ↦ cc (rw t at e)
  | inr t ↦ (t, none-refers f rs (rw t at e))
]

leb→le : (a b : ℕ) → leb a b ≡ true → a ≤ b
leb→le a b h = ground arith

past_grace-some :
    (now : ℕ) (o : Option ℕ)
    → past_grace now 30 o ≡ true
    → (z : ℕ) × (o ≡ some z) × (z + 30 * day ≤ now)
past_grace-some now none e = cc
past_grace-some now (some z) e = (z, refl, ground arith)

-- Both tables have their keys.
abbrev pub IsKeyed : Db → Type 0
IsKeyed db = IsKeyedBy (λ s. s.id) db.stocks × IsKeyedBy (λ l. l.seq) db.labels

abbrev pub KeepsLabels : List LabelRow → Db → Type 0
KeepsLabels labels db = IsKeyed db × (db.labels ≡ labels)

abbrev pub KeepsStocks : List StockRow → Db → Type 0
KeepsStocks stocks db = IsKeyed db × (db.stocks ≡ stocks)

module _ (env : Environment) where
  -- At the time of a batch the stock was empty, for thirty days, not locked, and nothing referred to it.
  abbrev pub WasPurgeable : List FkRef → ℕ → StockRow → Type 0
  WasPurgeable refs t s =
      (s.quantity ≡ 0)
      × ((z : ℕ) × (s.zeroed_at ≡ some z) × (z + 30 * day ≤ (env.turn t).now))
      × ((env.turn t).is_locked s.id ≡ false)
      × All (λ ref. env.refers_to_stock ref s.id ≡ false) refs

  -- The label was seven days old, not locked, and nothing referred to it.
  abbrev pub WasOrphan : List FkRef → List StockRow → ℕ → LabelRow → Type 0
  WasOrphan refs stocks t l =
      (l.created_at + 7 * day ≤ (env.turn t).now)
      × ((env.turn t).is_locked l.seq ≡ false)
      × All (λ ref. env.refers_to_label ref l.id stocks ≡ false) refs

  purgeable-WasPurgeable :
      (refs : List FkRef) (t : ℕ) (s : StockRow)
      → (is_purgeable env.refers_to_stock refs (env.turn t) stock_batch s
          && not ((env.turn t).is_locked s.id))
        ≡ true
      → WasPurgeable refs t s
  purgeable-WasPurgeable refs t s e =
      let (p, free) = and-both _ _ e in
      let (first, unreferenced) = and-both _ _ p in
      let (empty, old) = and-both (s.quantity == 0) _ first in
      (
        (==_iff s.quantity 0).0 empty,
        past_grace-some (env.turn t).now s.zeroed_at old,
        not-false _ free,
        none-refers (λ ref. env.refers_to_stock ref s.id) refs (not-false _ unreferenced),
      )

  orphan-WasOrphan :
      (refs : List FkRef) (stocks : List StockRow) (t : ℕ) (l : LabelRow)
      → (is_orphan env.refers_to_label refs (env.turn t) label_batch stocks l
          && not ((env.turn t).is_locked l.seq))
        ≡ true
      → WasOrphan refs stocks t l
  orphan-WasOrphan refs stocks t l e =
      let (p, free) = and-both _ _ e in
      let (old, unreferenced) = and-both _ _ p in
      (
        leb→le (l.created_at + 7 * day) (env.turn t).now old,
        not-false _ free,
        none-refers (λ ref. env.refers_to_label ref l.id stocks) refs (not-false _ unreferenced),
      )

  pub stocks_batch-Takes :
      (labels : List LabelRow) (refs : List FkRef) (t : ℕ) (db : Db)
      → KeepsLabels labels db
      → Takes
          (KeepsLabels labels)
          (λ db. db.stocks)
          (WasPurgeable refs)
          t
          db
          (delete_empty_stocks_batch env.refers_to_stock refs stock_batch (env.turn t) db).1
  unfolding delete_empty_stocks_batch
  stocks_batch-Takes labels refs t db ((ks, kl), same) = go (env.turn t).failure _
    where
      picked : List ℕ
      picked = picked_stocks env.refers_to_stock refs (env.turn t) stock_batch db.stocks

      purgeable :
          (r : StockRow) → In r db.stocks → is_deleted_stock picked r ≡ true → WasPurgeable refs t r
      purgeable r i d =
          let (a, j, p, e) =
            picked-In (λ s. (or_zero s.zeroed_at, s.id)) (λ s. s.id)
              (λ s.
                is_purgeable env.refers_to_stock refs (env.turn t) stock_batch s
                && not ((env.turn t).is_locked s.id))
              stock_batch.batch_size r.id db.stocks (and-left _ _ d) in
          subst (WasPurgeable refs t) (sym (ks r a i j e)) (purgeable-WasPurgeable refs t a p)

      go :
          (f : Option JobError) (ids : List ℕ)
          → Takes
              (KeepsLabels labels)
              (λ db. db.stocks)
              (WasPurgeable refs)
              t
              db
              (unless_failed f
                (
                  ids,
                  record db { stocks = filter (λ s. not (is_deleted_stock picked s)) db.stocks },
                )
                db).1
      go (some e) ids = (((ks, kl), same), λ r i. inl i)
      go none ids = (
        (
          (IsKeyedBy-filter (λ s. s.id) (λ s. not (is_deleted_stock picked s)) db.stocks ks, kl),
          same,
        ),
        λ r i. elim (deleted_or_stays (is_deleted_stock picked) db.stocks r i) [
          | inl j ↦ inl j
          | inr d ↦ inr (purgeable r i d)
        ],
      )

  pub labels_batch-Takes :
      (stocks : List StockRow) (refs : List FkRef) (t : ℕ) (db : Db)
      → KeepsStocks stocks db
      → Takes
          (KeepsStocks stocks)
          (λ db. db.labels)
          (WasOrphan refs stocks)
          t
          db
          (delete_orphan_labels_batch env.refers_to_label refs label_batch (env.turn t) db).1
  unfolding delete_orphan_labels_batch
  labels_batch-Takes stocks refs t db ((ks, kl), same) = go (env.turn t).failure _
    where
      picked : List ℕ
      picked = picked_labels env.refers_to_label refs (env.turn t) label_batch db

      orphan : (r : LabelRow) → In r db.labels → mem r.seq picked ≡ true → WasOrphan refs stocks t r
      orphan r i d =
          let (a, j, p, e) =
            picked-In (λ l. (l.created_at, l.seq)) (λ l. l.seq)
              (λ l.
                is_orphan env.refers_to_label refs (env.turn t) label_batch db.stocks l
                && not ((env.turn t).is_locked l.seq))
              label_batch.batch_size r.seq db.labels d in
          subst (λ st. WasOrphan refs st t r) same
            (subst (WasOrphan refs db.stocks t) (sym (kl r a i j e))
              (orphan-WasOrphan refs db.stocks t a p))

      go :
          (f : Option JobError) (ids : List ℕ)
          → Takes
              (KeepsStocks stocks)
              (λ db. db.labels)
              (WasOrphan refs stocks)
              t
              db
              (unless_failed f
                (ids, record db { labels = filter (λ l. not (mem l.seq picked)) db.labels })
                db).1
      go (some e) ids = (((ks, kl), same), λ r i. inl i)
      go none ids = (
        ((ks, IsKeyedBy-filter (λ l. l.seq) (λ l. not (mem l.seq picked)) db.labels kl), same),
        λ r i. elim (deleted_or_stays (λ (l : LabelRow). mem l.seq picked) db.labels r i) [
          | inl j ↦ inl j
          | inr d ↦ inr (orphan r i d)
        ],
      )
