-- ===== src/Payment/Monad.antt =====
-- Actions of the payment service: the database, what is outside of it (gateways, the job queue, the
-- clock), and exceptions. The lock of `exclusive` makes one action on a payment run at a time.
use jonoob_part_backend.Common.{ℕ, Bool, true, false, Option, none, some, List, Result, ok, err}
use jonoob_part_backend.Payment.Rows.{PaymentRow}

-- What the joins of `findSettleContext` read of an order.
pub record OrderContext : Type 0 where
  pub order_id : ℕ
  pub grand_total : ℕ
  pub customer_phone : ℕ
  pub merchandise : ℕ

-- The database: the payments, the orders that they belong to, and the tables of the other services.
pub record Db (W : Type 0) : Type 0 where
  pub payments : List PaymentRow
  pub orders : List OrderContext
  pub side : W

pub record World (W X : Type 0) : Type 0 where
  pub db : Db W
  pub ext : X

-- The exceptions of the service, by their HTTP class, and those of the services that it calls.
pub data PaymentError : Type 0 where
  not_found conflict bad_request unprocessable internal : PaymentError
  failed : ℕ → PaymentError

abbrev pub Action : Type 0 → Type 0 → Type 0 → Type 0
Action W X A = World W X → Result PaymentError A × World W X

module _ {W X A : Type 0} where
  abbrev pub pure : A → Action W X A
  pure a w = (ok a, w)

  abbrev pub raise : PaymentError → Action W X A
  raise e w = (err e, w)

  abbrev pub or_raise : Option A → PaymentError → Action W X A
  or_raise none e w = (err e, w)
  or_raise (some a) e w = (ok a, w)

  abbrev pub gets : (World W X → A) → Action W X A
  gets f w = (ok (f w), w)

-- What a raised action leaves, or the next action.
abbrev pub and_then :
    {W X A B : Type 0}
    → Result PaymentError A × World W X
    → (A → Action W X B)
    → Result PaymentError B × World W X
and_then (ok a, w) f = f a w
and_then (err e, w) f = (err e, w)

infixl 5 ◌>>=◌ ◌>>◌
abbrev pub ◌>>=◌ : {W X A B : Type 0} → Action W X A → (A → Action W X B) → Action W X B
◌>>=◌ m f w = and_then (m w) f

abbrev pub ◌>>◌ : {W X A B : Type 0} → Action W X A → Action W X B → Action W X B
m >> k = m >>= λ _. k

abbrev pub raise_if : {W X : Type 0} → Bool → PaymentError → Action W X (Unit {0})
raise_if true e w = (err e, w)
raise_if false e w = (ok tt, w)

abbrev pub when : {W X : Type 0} → Bool → Action W X (Unit {0}) → Action W X (Unit {0})
when true m w = m w
when false m w = (ok tt, w)

-- `tx.run`: an exception rolls the database back, and nothing outside of it.
abbrev pub commit :
    {W X A : Type 0} → Db W → Result PaymentError A × World W X → Result PaymentError A × World W X
commit db (ok a, w) = (ok a, w)
commit db (err e, w) = (err e, record w { db = db })

abbrev pub transaction : {W X A : Type 0} → Action W X A → Action W X A
transaction m w = commit w.db (m w)

-- A call into a service whose tables share the database.
abbrev pub in_db_result :
    {W X : Type 0} → World W X → Result PaymentError W → Result PaymentError (Unit {0}) × World W X
in_db_result w (ok s) = (ok tt, record w { db = record (w.db) { side = s } })
in_db_result w (err e) = (err e, w)

abbrev pub in_db : {W X : Type 0} → (W → Result PaymentError W) → Action W X (Unit {0})
in_db f w = in_db_result w (f w.db.side)

-- A call to something outside the database.
abbrev pub outside_result :
    {W X A : Type 0} → World W X → Result PaymentError A × X → Result PaymentError A × World W X
outside_result w (r, x) = (r, record w { ext = x })

abbrev pub outside : {W X A : Type 0} → (X → Result PaymentError A × X) → Action W X A
outside f w = outside_result w (f w.ext)
