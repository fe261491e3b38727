-- ===== src/Payment/Logic.antt =====
-- Rules for the results of payment actions: what holds of the database after success, and that a
-- failure leaves it as it was.
use jonoob_part_backend.Common.{
  ℕ, ◌≡◌, refl, ◌∙◌, inl, inr, Bool, true, false, Option, none, some, arith, Bool-cases,
  Option-cases, Result, ok, err,
}
use jonoob_part_backend.Payment.Rows.{PaymentStatus, PaymentRow, same_status, find_by_id}
use jonoob_part_backend.Payment.Monad.{
  Db, World, PaymentError, Action, and_then, or_raise, ◌>>=◌, ◌>>◌, raise_if, when, commit, in_db,
  in_db_result, outside, outside_result,
}
use jonoob_part_backend.Payment.Services.{Services}
use jonoob_part_backend.Payment.Core.{require_payment, assert_status}

pub same_status-eq : (s t : PaymentStatus) → same_status s t ≡ true → s ≡ t
same_status-eq s t h = ground arith

-- `Q` of the value and the database after success, `E` of the database after an exception.
abbrev pub Post :
    {W X A : Type 0}
    → (A → Db W → Type 0)
    → (Db W → Type 0)
    → Result PaymentError A × World W X
    → Type 0
Post Q E (ok a, w) = Q a w.db
Post Q E (err e, w) = E w.db

module _ {W X : Type 0} where
  pub Post-then :
      {A B : Type 0} (P : A → Db W → Type 0) (Q : B → Db W → Type 0) (E : Db W → Type 0)
      (r : Result PaymentError A × World W X) (f : A → Action W X B)
      → Post P E r
      → ((a : A) (w : World W X) → P a w.db → Post Q E (f a w))
      → Post Q E (and_then r f)
  Post-then P Q E (ok a, w) f p k = k a w p
  Post-then P Q E (err e, w) f p k = p

  pub Post-weaken :
      {A : Type 0} (P Q : A → Db W → Type 0) (E : Db W → Type 0)
      (r : Result PaymentError A × World W X)
      → Post P E r
      → ((a : A) (db : Db W) → P a db → Q a db)
      → Post Q E r
  Post-weaken P Q E (ok a, w) p h = h a w.db p
  Post-weaken P Q E (err e, w) p h = p

  -- A transaction that fails puts the database back.
  pub Post-commit :
      {A : Type 0} (Q : A → Db W → Type 0) (E : Db W → Type 0) (db : Db W)
      (r : Result PaymentError A × World W X)
      → E db
      → Post Q (λ _. Unit) r
      → Post Q E (commit db r)
  Post-commit Q E db (ok a, w) e p = p
  Post-commit Q E db (err x, w) e p = e

  -- An action that leaves the payments alone when it succeeds.
  abbrev pub Quiet : {A : Type 0} → Action W X A → Type 0
  Quiet {A} m =
      (w : World W X) → Post {A = A} (λ _ db. db.payments ≡ w.db.payments) (λ _. Unit) (m w)

  pub in_db-Quiet : (f : W → Result PaymentError W) → Quiet (in_db f)
  in_db-Quiet f w = go (f w.db.side)
    where
      go :
          (r : Result PaymentError W)
          → Post {X = X} (λ _ db. db.payments ≡ w.db.payments) (λ _. Unit) (in_db_result w r)
      go (ok s) = refl
      go (err e) = tt

  pub when-Quiet : (b : Bool) (m : Action W X (Unit {0})) → Quiet m → Quiet (when b m)
  when-Quiet true m q = q
  when-Quiet false m q = λ w. refl

  pub then-Quiet :
      {A : Type 0} (m : Action W X (Unit {0})) (k : Action W X A)
      → Quiet m
      → Quiet k
      → Quiet (m >> k)
  then-Quiet m k q s w =
      Post-then (λ _ db. db.payments ≡ w.db.payments) (λ _ db. db.payments ≡ w.db.payments)
        (λ _. Unit) (m w) (λ _. k) (q w) (λ a w' e. weaken w' (k w') e (s w'))
    where
      weaken :
          {A : Type 0} (w' : World W X) (r : Result PaymentError A × World W X)
          → w'.db.payments ≡ w.db.payments
          → Post (λ _ db. db.payments ≡ w'.db.payments) (λ _. Unit) r
          → Post (λ _ db. db.payments ≡ w.db.payments) (λ _. Unit) r
      weaken w' (ok a, v) e h = h ∙ e
      weaken w' (err x, v) e h = tt

-- The rules for code that runs where the database is still the one at the start.
module _ {W X : Type 0} (sv : Services W X) (start : Db W) where
  abbrev pub Ends : {A : Type 0} → (A → Db W → Type 0) → Result PaymentError A × World W X → Type 0
  Ends Q r = Post Q (λ db. db ≡ start) r

  pub outside-then :
      {A B : Type 0} (Q : B → Db W → Type 0) (f : X → Result PaymentError A × X)
      (k : A → Action W X B) (w : World W X)
      → w.db ≡ start
      → ((a : A) (w' : World W X) → w'.db ≡ start → Ends Q (k a w'))
      → Ends Q ((outside f >>= k) w)
  outside-then {A} Q f k w e h = go (f w.ext)
    where
      go : (r : Result PaymentError A × X) → Ends Q (and_then (outside_result w r) k)
      go (ok a, x) = h a (record w { ext = x }) e
      go (err y, x) = e

  pub require-then :
      {B : Type 0} (Q : B → Db W → Type 0) (id : ℕ) (k : PaymentRow → Action W X B) (w : World W X)
      → w.db ≡ start
      → ((row : PaymentRow) → find_by_id id w.db.payments ≡ some row → Ends Q (k row w))
      → Ends Q ((require_payment sv id >>= k) w)
  unfolding require_payment
  require-then Q id k w e h = elim (Option-cases (find_by_id id w.db.payments)) [
    | inl none_found ↦ rw none_found e
    | inr (row, found) ↦ rw found (h row found)
  ]

  pub raise_if-then :
      {B : Type 0} (Q : B → Db W → Type 0) (b : Bool) (x : PaymentError) (k : Action W X B)
      (w : World W X)
      → w.db ≡ start
      → (b ≡ false → Ends Q (k w))
      → Ends Q ((raise_if b x >> k) w)
  raise_if-then Q true x k w e h = e
  raise_if-then Q false x k w e h = h refl

  pub assert-then :
      {B : Type 0} (Q : B → Db W → Type 0) (row : PaymentRow) (s : PaymentStatus) (k : Action W X B)
      (w : World W X)
      → w.db ≡ start
      → (row.status ≡ s → Ends Q (k w))
      → Ends Q ((assert_status sv row s >> k) w)
  unfolding assert_status
  assert-then Q row s k w e h = elim (Bool-cases (same_status row.status s)) [
    | inl t ↦ rw t (h (same_status-eq row.status s t))
    | inr f ↦ rw f e
  ]

  pub or_raise-then :
      {A B : Type 0} (Q : B → Db W → Type 0) (o : Option A) (x : PaymentError)
      (k : A → Action W X B) (w : World W X)
      → w.db ≡ start
      → ((a : A) → Ends Q (k a w))
      → Ends Q ((or_raise o x >>= k) w)
  or_raise-then Q none x k w e h = e
  or_raise-then Q (some a) x k w e h = h a
