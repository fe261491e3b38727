-- ===== src/Payment/Effects.antt =====
-- Rules for the effect of an action on the payments.
use jonoob_part_backend.Common.{
  ℕ, ◌≡◌, refl, sym, ◌∙◌, Bool, true, false, Option, none, some, Result, ok, err, ap, subst,
}
use jonoob_part_backend.Payment.Rows.{
  pending, processing, PaymentRow, find_by_id, has_id, Settlement, settled, is_pending_row,
  update_rows, StatusUpdate, with_status,
}
use jonoob_part_backend.Payment.Monad.{
  Db, World, PaymentError, internal, Action, pure, and_then, ◌>>=◌, ◌>>◌, raise_if, when,
  transaction, outside, outside_result,
}
use jonoob_part_backend.Payment.Services.{Services, PaymentGateway}
use jonoob_part_backend.Payment.Selection.{is_wallet}
use jonoob_part_backend.Payment.Core.{
  require_payment, assert_status, resolve, update_status, refund_to_wallet, deposit_refund,
  settle_row,
}
use jonoob_part_backend.Payment.Logic.{
  Post, Post-then, Post-weaken, Post-commit, Quiet, in_db-Quiet, Ends, require-then, raise_if-then,
  assert-then, or_raise-then,
}
use jonoob_part_backend.Payment.Outcome.{
  Permits, IsPositive, Outcome, settles, updates, Outcome-congr, find_by_id-id, found_own,
}

pub found_at :
    {W : Type 0} (row : PaymentRow) (start db : Db W)
    → db ≡ start
    → find_by_id row.id start.payments ≡ some row
    → find_by_id row.id db.payments ≡ some row
found_at {W} row start db e found =
    subst (λ (d : Db W). find_by_id row.id d.payments ≡ some row) (sym e) found

module _ {W X : Type 0} where
  pub bind-Quiet-Effect :
      {A B : Type 0} (id : ℕ) (start : Db W) (m : Action W X A) (k : A → Action W X B)
      (w : World W X)
      → Post (λ _ db. Outcome id start db) (λ _. Unit) (m w)
      → ((a : A) → Quiet (k a))
      → Post (λ _ db. Outcome id start db) (λ _. Unit) ((m >>= k) w)
  bind-Quiet-Effect id start m k w h q =
      Post-then (λ _ db. Outcome id start db) (λ _ db. Outcome id start db) (λ _. Unit) (m w) k h
        λ a w' o.
          Post-weaken (λ _ db. db.payments ≡ w'.db.payments) (λ _ db. Outcome id start db)
            (λ _. Unit) (k a w') (q a w') λ b db e. Outcome-congr id start w'.db db e o

  pub then-Quiet-Effect :
      {A B : Type 0} (id : ℕ) (start : Db W) (m : Action W X A) (k : Action W X B) (w : World W X)
      → Post (λ _ db. Outcome id start db) (λ _. Unit) (m w)
      → Quiet k
      → Post (λ _ db. Outcome id start db) (λ _. Unit) ((m >> k) w)
  then-Quiet-Effect id start m k w h q = bind-Quiet-Effect id start m (λ _. k) w h (λ _. q)

  -- Calls that leave the payments alone, before what has an effect.
  pub Quiet-then-Effect :
      {A : Type 0} (id : ℕ) (start : Db W) (m : Action W X (Unit {0})) (k : Action W X A)
      (w : World W X)
      → w.db.payments ≡ start.payments
      → Quiet m
      → ((w' : World W X)
          → w'.db.payments ≡ start.payments
          → Post (λ _ db. Outcome id start db) (λ _. Unit) (k w'))
      → Post (λ _ db. Outcome id start db) (λ _. Unit) ((m >> k) w)
  Quiet-then-Effect id start m k w e q h =
      Post-then (λ _ db. db.payments ≡ w.db.payments) (λ _ db. Outcome id start db) (λ _. Unit)
        (m w) (λ _. k) (q w) λ a w' e'. h w' (e' ∙ e)

  abbrev pub Effect : {A : Type 0} → ℕ → Db W → Result PaymentError A × World W X → Type 0
  Effect {A} id start r = Post {A = A} (λ _ db. Outcome id start db) (λ db. db ≡ start) r

  pub transaction-Effect :
      {A : Type 0} (id : ℕ) (m : Action W X A) (w : World W X)
      → Post (λ _ db. Outcome id w.db db) (λ _. Unit) (m w)
      → Effect id w.db (transaction m w)
  transaction-Effect id m w h =
      Post-commit (λ _ db. Outcome id w.db db) (λ db. db ≡ w.db) w.db (m w) refl h

  -- The same effect, read from the start of the call and for the id that was asked for.
  pub at_start :
      {A : Type 0} (id id' : ℕ) (start db : Db W) (r : Result PaymentError A × World W X)
      → db ≡ start
      → id' ≡ id
      → Effect id' db r
      → Effect id start r
  at_start id id' start db r e f h = subst (λ d. Effect id d r) e (subst (λ i. Effect i db r) f h)

  pub then_pure-Effect :
      {A B : Type 0} (id : ℕ) (start : Db W) (m : Action W X A) (b : B) (w : World W X)
      → Effect id start (m w)
      → Effect id start ((m >> pure b) w)
  then_pure-Effect id start m b w h =
      Post-then (λ _ db. Outcome id start db) (λ _ db. Outcome id start db) (λ db. db ≡ start) (m w)
        (λ _. pure b) h λ a w' o. o

  -- What an action that changes nothing in the database leaves.
  abbrev pub Keeps : {A : Type 0} → Action W X A → Type 0
  Keeps {A} m = (w : World W X) → Post {A = A} (λ _ db. db ≡ w.db) (λ db. db ≡ w.db) (m w)

  pub outside-Keeps : {A : Type 0} (f : X → Result PaymentError A × X) → Keeps (outside f)
  outside-Keeps {A} f w = go (f w.ext)
    where
      go :
          (r : Result PaymentError A × X)
          → Post (λ _ db. db ≡ w.db) (λ db. db ≡ w.db) (outside_result w r)
      go (ok a, x) = refl
      go (err y, x) = refl

  -- What follows such an action has its effect from the start of the call.
  pub Keeps-then :
      {A B : Type 0} (id : ℕ) (m : Action W X A) (k : A → Action W X B) (start : Db W)
      (w : World W X)
      → w.db ≡ start
      → Keeps m
      → ((a : A) (w' : World W X) → w'.db ≡ start → Effect id start (k a w'))
      → Effect id start ((m >>= k) w)
  Keeps-then {A} {B} id m k start w e q h = go (m w) (q w)
    where
      go :
          (r : Result PaymentError A × World W X)
          → Post (λ _ db. db ≡ w.db) (λ db. db ≡ w.db) r
          → Effect id start (and_then r k)
      go (ok a, w') p = h a w' (p ∙ e)
      go (err y, w') p = p ∙ e

  pub when-Keeps : (b : Bool) (m : Action W X (Unit {0})) → Keeps m → Keeps (when b m)
  when-Keeps true m q w = q w
  when-Keeps false m q w = refl

module _ {W X : Type 0} (sv : Services W X) where
  pub refund_to_wallet-Quiet :
      (row : PaymentRow) (amount : Option ℕ) → Quiet (refund_to_wallet sv row amount)
  unfolding refund_to_wallet
  refund_to_wallet-Quiet row amount = go row.customer_id row.settle_requested_at
    where
      go : (c t : Option ℕ) → Quiet (deposit_refund sv row.id amount c t)
      go (some c) (some t) = in_db-Quiet _
      go (some c) none = λ w. tt
      go none t = λ w. tt

  -- Inside a transaction: the payments are still those at the start, and the status is updated.
  pub update-Effect :
      (start : Db W) (row : PaymentRow) (u : StatusUpdate) (w : World W X)
      → w.db.payments ≡ start.payments
      → Permits row u
      → find_by_id row.id start.payments ≡ some row
      → Post (λ _ db. Outcome row.id start db) (λ _. Unit) (update_status sv row.id u w)
  unfolding update_status
  update-Effect start row u w e ok_u found =
      updates row (sv.now w.ext) u found ok_u
        (ap (update_rows (has_id row.id) (with_status (sv.now w.ext) u)) e)

  -- What `verify` and `cancel` check before they call the gateway.
  abbrev pub checked :
      {A : Type 0} → ℕ → (PaymentRow → PaymentGateway X → Action W X A) → Action W X A
  checked id k = do
    row ← require_payment sv id
    assert_status sv row processing
    raise_if (is_wallet row.method) internal
    g ← resolve sv row.gateway_key
    k row g

  pub resolve-then :
      {B : Type 0} (Q : B → Db W → Type 0) (key : Option ℕ) (k : PaymentGateway X → Action W X B)
      (w : World W X)
      → ((g : PaymentGateway X) → Ends sv w.db Q (k g w))
      → Ends sv w.db Q ((resolve sv key >>= k) w)
  resolve-then Q none k w h = refl
  resolve-then Q (some key) k w h = or_raise-then sv w.db Q (sv.gateways key) internal k w refl h

  pub checked-Effect :
      {A : Type 0} (id : ℕ) (k : PaymentRow → PaymentGateway X → Action W X A) (w : World W X)
      → ((row : PaymentRow) (g : PaymentGateway X)
          → row.status ≡ processing
          → find_by_id row.id w.db.payments ≡ some row
          → Effect row.id w.db (k row g w))
      → Effect id w.db (checked id k w)
  checked-Effect {A} id k w h =
      let Q = λ (a : A) (db : Db W). Outcome id w.db db in
      require-then sv w.db Q id _ w refl λ row found.
        let same_id = find_by_id-id id w.db.payments row found in
        assert-then sv w.db Q row processing _ w refl λ p.
          raise_if-then sv w.db Q (is_wallet row.method) internal _ w refl λ _.
            resolve-then Q row.gateway_key (k row) w λ g.
              at_start id row.id w.db w.db (k row g w) refl same_id
                (h row g p (found_own id w.db.payments row found))

  -- Inside a transaction: the payments are still those at the start, and the pending one is settled.
  pub settle_row-Effect :
      (start : Db W) (row : PaymentRow) (at : ℕ) (s : Settlement) (w : World W X)
      → w.db.payments ≡ start.payments
      → row.status ≡ pending
      → IsPositive s
      → find_by_id row.id start.payments ≡ some row
      → Post
          (λ _ db. Outcome row.id start db)
          (λ _. Unit)
          (settle_row sv row.id at row.customer_id s w)
  unfolding settle_row
  settle_row-Effect start row at s w e p pos found =
      settles row at row.customer_id s found p pos
        (ap (update_rows (is_pending_row row.id) (settled at row.customer_id s)) e)
