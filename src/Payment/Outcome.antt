-- ===== src/Payment/Outcome.antt =====
-- What a successful call of the service may do to the payments.
use jonoob_part_backend.Common.{
  ℕ, ◌≤◌, ◌≡◌, sym, ◌∙◌, ◌⊎◌, Option, some, List, [], ◌∷◌, arith, subst,
}
use jonoob_part_backend.Payment.Rows.{
  pending, processing, paid, PaymentRow, find_by_id, has_id, Settlement, by_wallet, by_gateway,
  by_both, settled, is_pending_row, update_rows, StatusUpdate, to_pending, to_failure, to_expired,
  to_paid, to_refunded, to_partly_refunded, with_status,
}
use jonoob_part_backend.Payment.Monad.{Db}
use jonoob_part_backend.Payment.Selection.{paid_total}

-- The status changes that the service makes, by the row that it found.
abbrev pub Permits : PaymentRow → StatusUpdate → Type 0
Permits row to_paid = row.status ≡ processing
Permits row to_pending = row.status ≡ processing
Permits row to_failure = row.status ≡ processing
Permits row to_expired = (row.status ≡ pending) ⊎ (row.status ≡ processing)
Permits row (to_refunded m) = (row.status ≡ paid) × (row.method ≡ some m)
Permits row (to_partly_refunded a) = (row.status ≡ paid) × (1 ≤ a) × (a ≤ paid_total row)

-- Both parts of a shared payment are positive.
abbrev pub IsPositive : Settlement → Type 0
IsPositive (by_wallet a) = Unit
IsPositive (by_gateway a key code) = Unit
IsPositive (by_both w g key code) = (1 ≤ w) × (1 ≤ g)

-- What a successful call does to the payments: nothing, one settlement of a pending payment, or one
-- permitted status change of the payment named.
pub data Outcome {W : Type 0} (id : ℕ) (db db' : Db W) : Type 0 where
  same : db'.payments ≡ db.payments → Outcome id db db'
  settles :
      (row : PaymentRow) (at : ℕ) (customer : Option ℕ) (s : Settlement)
      → find_by_id id db.payments ≡ some row
      → row.status ≡ pending
      → IsPositive s
      → db'.payments ≡ update_rows (is_pending_row id) (settled at customer s) db.payments
      → Outcome id db db'
  updates :
      (row : PaymentRow) (now : ℕ) (u : StatusUpdate)
      → find_by_id id db.payments ≡ some row
      → Permits row u
      → db'.payments ≡ update_rows (has_id id) (with_status now u) db.payments
      → Outcome id db db'

pub Outcome-congr :
    {W : Type 0} (id : ℕ) (db d e : Db W)
    → e.payments ≡ d.payments
    → Outcome id db d
    → Outcome id db e
Outcome-congr id db d e p (same h) = same (p ∙ h)
Outcome-congr id db d e p (settles row at c s f st pos h) = settles row at c s f st pos (p ∙ h)
Outcome-congr id db d e p (updates row now u f ok_u h) = updates row now u f ok_u (p ∙ h)

pub find_by_id-id :
    (id : ℕ) (rows : List PaymentRow) (row : PaymentRow)
    → find_by_id id rows ≡ some row
    → row.id ≡ id
find_by_id-id id [] row e = cc
find_by_id-id id (x ∷ xs) row e = ground (arith, find_by_id-id id xs row)

pub found_own :
    (id : ℕ) (rows : List PaymentRow) (row : PaymentRow)
    → find_by_id id rows ≡ some row
    → find_by_id row.id rows ≡ some row
found_own id rows row found =
    subst (λ i. find_by_id i rows ≡ some row) (sym (find_by_id-id id rows row found)) found
