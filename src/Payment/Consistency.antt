-- ===== src/Payment/Consistency.antt =====
-- Every call keeps the constraints of the table.
use jonoob_part_backend.Common.{
  ℕ, ◌≡◌, refl, ap, sym, ◌∙◌, subst, inl, inr, Bool, true, false, ◌==◌, if◌then◌else◌, Option, some,
  List, [], ◌∷◌, All, is_some, arith, Bool-cases,
}
use jonoob_part_backend.Payment.Rows.{
  PaymentStatus, pending, processing, paid, PaymentMethod, PaymentRow, find_by_id, has_id,
  Settlement, by_wallet, by_gateway, by_both, settled, is_pending_row, update_rows, StatusUpdate,
  to_pending, to_failure, to_expired, to_paid, to_refunded, to_partly_refunded, with_status,
}
use jonoob_part_backend.Payment.Monad.{Db}
use jonoob_part_backend.Payment.Outcome.{Permits, IsPositive, Outcome, same, settles, updates}
use jonoob_part_backend.Payment.Scheduling.{Links, linked}
use jonoob_part_backend.Payment.Constraints.{
  status_method, refund_fields, MeetsChecks, IsKeyed, WellFormed,
}

has_method :
    (s : PaymentStatus) (m : Option PaymentMethod)
    → s ≡ processing
    → status_method s m ≡ true
    → is_some m ≡ true
has_method s m e h = subst (λ t. status_method t m ≡ true) e h

has_method_paid :
    (s : PaymentStatus) (m : Option PaymentMethod)
    → s ≡ paid
    → status_method s m ≡ true
    → is_some m ≡ true
has_method_paid s m e h = subst (λ t. status_method t m ≡ true) e h

update-MeetsChecks :
    (row : PaymentRow) (now : ℕ) (u : StatusUpdate)
    → Permits row u
    → MeetsChecks row
    → MeetsChecks (with_status now u row)
unfolding with_status
update-MeetsChecks row now to_paid p (a, m, s, r, t) =
    (a, has_method row.status row.method p m, s, refl, refl)
update-MeetsChecks row now to_failure p (a, m, s, r, t) =
    (a, has_method row.status row.method p m, s, refl, refl)
update-MeetsChecks row now to_expired p (a, m, s, r, t) = (a, refl, s, refl, refl)
update-MeetsChecks row now to_pending p (a, m, s, r, t) = (refl, refl, refl, refl, refl)
update-MeetsChecks row now (to_refunded d) p (a, m, s, r, t) =
    (a, has_method_paid row.status row.method p.0 m, s, refl, refl)
update-MeetsChecks row now (to_partly_refunded n) p (a, m, s, r, t) =
    (a, has_method_paid row.status row.method p.0 m, s, refl, refl)

not_refunded :
    (row : PaymentRow)
    → row.status ≡ pending
    → refund_fields row.status row.refunded_at row.refund_type row.refund_destination
        row.refunded_amount
      ≡ true
    → refund_fields paid row.refunded_at row.refund_type row.refund_destination row.refunded_amount
      ≡ true
not_refunded row p r =
    subst
      (λ s.
        refund_fields s row.refunded_at row.refund_type row.refund_destination row.refunded_amount
        ≡ true)
      p r

settled-MeetsChecks :
    (row : PaymentRow) (at : ℕ) (customer : Option ℕ) (s : Settlement)
    → row.status ≡ pending
    → IsPositive s
    → MeetsChecks row
    → MeetsChecks (settled at customer s row)
unfolding settled
settled-MeetsChecks row at customer (by_wallet n) p pos (a, m, st, r, t) =
    (refl, refl, refl, not_refunded row p r, refl)
settled-MeetsChecks row at customer (by_gateway n key code) p pos (a, m, st, r, t) =
    (refl, refl, refl, not_refunded row p r, refl)
settled-MeetsChecks row at customer (by_both w g key code) p pos (a, m, st, r, t) =
    (ground (arith, pos.0, pos.1), refl, refl, not_refunded row p r, refl)

-- The rows with the id of the row that is found are that row.
own_row :
    (id : ℕ) (rows : List PaymentRow) (row : PaymentRow)
    → IsKeyed rows
    → find_by_id id rows ≡ some row
    → All (λ x. (x.id == id) ≡ true → x ≡ row) rows
own_row id [] row k e = tt
own_row id (x ∷ xs) row (k, ks) e = elim (Bool-cases (x.id == id)) [
  | inl t ↦ let e' : some x ≡ some row = rw t at e in (λ _. cc e', others xs t k)
  | inr f ↦ (λ t. cc (f, t), own_row id xs row ks (rw f at e))
]
  where
    others :
        (ys : List PaymentRow)
        → (x.id == id) ≡ true
        → All (λ y. (y.id == x.id) ≡ false) ys
        → All (λ y. (y.id == id) ≡ true → y ≡ row) ys
    others [] t h = tt
    others (y ∷ ys) t (h, hs) = (λ t'. ground (arith, t, t', h), others ys t hs)

update-All :
    (p : PaymentRow → Bool) (f : PaymentRow → PaymentRow) (rows : List PaymentRow)
    → All (λ x. p x ≡ true → MeetsChecks x → MeetsChecks (f x)) rows
    → All MeetsChecks rows
    → All MeetsChecks (update_rows p f rows)
update-All p f [] h a = tt
update-All p f (x ∷ xs) (h, hs) (a, more) = elim (Bool-cases (p x)) [
  | inl e ↦ rw e (h e a, update-All p f xs hs more)
  | inr e ↦ rw e (a, update-All p f xs hs more)
]

update-IsKeyed :
    (p : PaymentRow → Bool) (f : PaymentRow → PaymentRow) (rows : List PaymentRow)
    → ((x : PaymentRow) → (f x).id ≡ x.id)
    → IsKeyed rows
    → IsKeyed (update_rows p f rows)
update-IsKeyed p f [] h k = tt
update-IsKeyed p f (x ∷ xs) h (k, ks) = (others xs k, update-IsKeyed p f xs h ks)
  where
    same_id : (x : PaymentRow) → (if p x then f x else x).id ≡ x.id
    same_id x = elim (Bool-cases (p x)) [ inl e ↦ rw e (h x) | inr e ↦ rw e refl ]

    others :
        (ys : List PaymentRow)
        → All (λ y. (y.id == x.id) ≡ false) ys
        → All (λ y. (y.id == (if p x then f x else x).id) ≡ false) (update_rows p f ys)
    others [] h = tt
    others (y ∷ ys) (h, hs) = (rw (same_id x, same_id y) h, others ys hs)

pub with_status-id : (now : ℕ) (u : StatusUpdate) (x : PaymentRow) → (with_status now u x).id ≡ x.id
unfolding with_status
with_status-id now to_paid x = refl
with_status-id now to_pending x = refl
with_status-id now to_failure x = refl
with_status-id now to_expired x = refl
with_status-id now (to_refunded d) x = refl
with_status-id now (to_partly_refunded a) x = refl

pub settled-id :
    (at : ℕ) (c : Option ℕ) (s : Settlement) (x : PaymentRow) → (settled at c s x).id ≡ x.id
unfolding settled
settled-id at c (by_wallet a) x = refl
settled-id at c (by_gateway a k t) x = refl
settled-id at c (by_both w g k t) x = refl

All-map :
    {P Q : PaymentRow → Type 0} (rows : List PaymentRow)
    → ((x : PaymentRow) → P x → Q x)
    → All P rows
    → All Q rows
All-map [] f h = tt
All-map (x ∷ xs) f (h, hs) = (f x h, All-map xs f hs)

pub Outcome-WellFormed :
    {W : Type 0} (id : ℕ) (db db' : Db W)
    → Outcome id db db'
    → WellFormed db.payments
    → WellFormed db'.payments
Outcome-WellFormed id db db' (same e) h = subst WellFormed (sym e) h
Outcome-WellFormed id db db' (settles row at c s found p pos e) (keyed, checks) =
    subst WellFormed (sym e) (
      update-IsKeyed (is_pending_row id) (settled at c s) db.payments (settled-id at c s) keyed,
      update-All (is_pending_row id) (settled at c s) db.payments
          (All-map db.payments
            (λ x own t.
              settled-MeetsChecks x at c s (ap (λ r. r.status) (own (has_id_of x t)) ∙ p) pos)
            (own_row id db.payments row keyed found))
          checks,
    )
  where
    has_id_of : (x : PaymentRow) → is_pending_row id x ≡ true → (x.id == id) ≡ true
    has_id_of x t = ground (arith, t)
Outcome-WellFormed id db db' (updates row now u found p e) (keyed, checks) =
    subst WellFormed (sym e) (
      update-IsKeyed (has_id id) (with_status now u) db.payments (with_status-id now u) keyed,
      update-All (has_id id) (with_status now u) db.payments
          (All-map db.payments
            (λ x own t. update-MeetsChecks x now u (subst (λ r. Permits r u) (sym (own t)) p))
            (own_row id db.payments row keyed found))
          checks,
    )

-- A link to an expiry job touches no column of the constraints.
pub Links-WellFormed :
    {W : Type 0} (db db' : Db W) → Links db db' → WellFormed db.payments → WellFormed db'.payments
Links-WellFormed db db' (inl e) h = subst WellFormed (sym e) h
Links-WellFormed db db' (inr (id, job, e)) (keyed, checks) = subst WellFormed (sym e) (
  update-IsKeyed (has_id id) (linked job) db.payments (λ x. refl) keyed,
  update-All (has_id id) (linked job) db.payments (always db.payments) checks,
)
  where
    always :
        (rows : List PaymentRow)
        → All (λ x. has_id id x ≡ true → MeetsChecks x → MeetsChecks (linked job x)) rows
    always [] = tt
    always (x ∷ xs) = (λ t c. c, always xs)
