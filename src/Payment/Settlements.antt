-- ===== src/Payment/Settlements.antt =====
-- `settle`: what it does to the payments.
use jonoob_part_backend.Common.{
  ℕ, ◌≡◌, refl, sym, ◌⊎◌, inl, inr, Bool, not, some, Result, ok, err, Option-cases, ◌==◌, find?,
  subst,
}
use jonoob_part_backend.Payment.Rows.{pending, PaymentRow, find_by_id, by_wallet}
use jonoob_part_backend.Payment.Monad.{
  OrderContext, Db, World, PaymentError, conflict, Action, pure, and_then, ◌>>=◌, ◌>>◌, raise_if,
  transaction, in_db,
}
use jonoob_part_backend.Payment.Services.{Services}
use jonoob_part_backend.Payment.Selection.{
  PaymentMethodSelection, use_wallet, use_gateway, use_both, Allocation, wallet_only, gateway_only,
  split, SettlementResult, settled_now, settling,
}
use jonoob_part_backend.Payment.Core.{settle_row, find_settle_context}
use jonoob_part_backend.Payment.Settle.{
  withdraw_for, cancel_job, settle_with_wallet, settle_with_gateway, settle_with_both,
  settle_allocated, allocate, settle,
}
use jonoob_part_backend.Payment.Logic.{Post, Post-then, in_db-Quiet, then-Quiet}
use jonoob_part_backend.Payment.Outcome.{Outcome, find_by_id-id, found_own}
use jonoob_part_backend.Payment.Effects.{
  Quiet-then-Effect, Effect, transaction-Effect, found_at, Keeps,
}
use jonoob_part_backend.Payment.Allocations.{Covers, allocate-Covers}
use jonoob_part_backend.Payment.Tickets.{
  settle-then-Quiet, raise_if-Quiet, cancel_job-Keeps, settle_with_gateway-Effect,
  settle_with_both-Effect,
}
use jonoob_part_backend.Payment.Rows.{same_status}
use jonoob_part_backend.Payment.Core.{assert_status}
use jonoob_part_backend.Payment.Logic.{same_status-eq}
use jonoob_part_backend.Common.{Bool-cases}

-- What a settlement leaves: an exception after the transaction of a wallet settlement comes from
-- the job queue, and the settlement stands.
abbrev pub SettleEffect :
    {W X A : Type 0}
    → PaymentMethodSelection
    → ℕ
    → Db W
    → Result PaymentError A × World W X
    → Type 0
SettleEffect {W} {X} {A} selection id start r =
    Post {A = A} (λ _ db. Outcome id start db)
      (λ db. (db ≡ start) ⊎ ((selection ≡ use_wallet) × Outcome id start db)) r

module _ {W X : Type 0} where
  weaken-Effect :
      {A : Type 0} (selection : PaymentMethodSelection) (id : ℕ) (start : Db W)
      (r : Result PaymentError A × World W X)
      → Effect id start r
      → SettleEffect selection id start r
  weaken-Effect selection id start (ok a, w) h = h
  weaken-Effect selection id start (err e, w) h = inl h

  then_pure_settle :
      {A B : Type 0} (selection : PaymentMethodSelection) (id : ℕ) (start : Db W) (m : Action W X A)
      (f : A → B) (w : World W X)
      → SettleEffect selection id start (m w)
      → SettleEffect selection id start ((m >>= λ a. pure (f a)) w)
  then_pure_settle selection id start m f w h =
      Post-then (λ _ db. Outcome id start db) (λ _ db. Outcome id start db)
        (λ db. (db ≡ start) ⊎ ((selection ≡ use_wallet) × Outcome id start db)) (m w)
        (λ a. pure (f a)) h λ a w' o. o

  then-Keeps-settle :
      (id : ℕ) (start : Db W) (m : Action W X (Unit {0}))
      (r : Result PaymentError (Unit {0}) × World W X)
      → Keeps m
      → Effect id start r
      → SettleEffect use_wallet id start (and_then r (λ _. m))
  then-Keeps-settle id start m (err e, w) q h = inl h
  then-Keeps-settle id start m (ok a, w) q h = go (m w) (q w)
    where
      go :
          (r : Result PaymentError (Unit {0}) × World W X)
          → Post (λ _ db. db ≡ w.db) (λ db. db ≡ w.db) r
          → SettleEffect use_wallet id start r
      go (ok b, w') e = subst (Outcome id start) (sym e) h
      go (err x, w') e = inr (refl, subst (Outcome id start) (sym e) h)

module _ {W X : Type 0} (sv : Services W X) where
  settle_with_wallet-Effect :
      (row : PaymentRow) (amount : ℕ) (w : World W X)
      → row.status ≡ pending
      → find_by_id row.id w.db.payments ≡ some row
      → SettleEffect use_wallet row.id w.db (settle_with_wallet sv row amount w)
  unfolding settle_with_wallet
  settle_with_wallet-Effect row amount w p found =
      let at = sv.now w.ext in
      let s = by_wallet amount in
      let k : Bool → Action W X (Unit {0}) =
        λ b. raise_if (not b) conflict >> in_db (sv.fulfill row.order_id) in
      let change = settle_row sv row.id at row.customer_id s >>= k in
      let tx = withdraw_for sv row at amount >> change in
      then-Keeps-settle row.id w.db (cancel_job sv row.expiry_job_id) (transaction tx w)
        (cancel_job-Keeps sv row.expiry_job_id)
        (transaction-Effect row.id tx w (
          Quiet-then-Effect row.id w.db (withdraw_for sv row at amount) change w refl
            (in_db-Quiet _)
            λ v e. settle-then-Quiet sv w.db row at s k v e p tt found λ b.
              then-Quiet (raise_if (not b) conflict) (in_db (sv.fulfill row.order_id))
                (raise_if-Quiet sv (not b) conflict) (in_db-Quiet (sv.fulfill row.order_id))))

  settle_allocated-Effect :
      (row : PaymentRow) (o : OrderContext) (selection : PaymentMethodSelection) (amount : ℕ)
      (a : Allocation) (w : World W X)
      → row.status ≡ pending
      → Covers selection amount a
      → find_by_id row.id w.db.payments ≡ some row
      → SettleEffect selection row.id w.db (settle_allocated sv row o a w)
  unfolding settle_allocated
  settle_allocated-Effect row o use_wallet amount (wallet_only a) w p c found =
      then_pure_settle use_wallet row.id w.db (settle_with_wallet sv row a) (λ _. settled_now) w
        (settle_with_wallet-Effect row a w p found)
  settle_allocated-Effect row o (use_gateway key) amount (gateway_only k a) w p c found =
      then_pure_settle (use_gateway key) row.id w.db (settle_with_gateway sv row o k a) settling w (
        weaken-Effect (use_gateway key) row.id w.db _
          (settle_with_gateway-Effect sv row o k a w p found))
  settle_allocated-Effect row o (use_both key u) amount (split k a b) w p c found =
      then_pure_settle (use_both key u) row.id w.db (settle_with_both sv row o k a b) settling w (
        weaken-Effect (use_both key u) row.id w.db _
          (settle_with_both-Effect sv row o k a b w p (c.1, c.2) found))
  settle_allocated-Effect row o use_wallet amount (gateway_only _ _) w p c found = absurd c
  settle_allocated-Effect row o use_wallet amount (split _ _ _) w p c found = absurd c
  settle_allocated-Effect row o (use_gateway _) amount (wallet_only _) w p c found = absurd c
  settle_allocated-Effect row o (use_gateway _) amount (split _ _ _) w p c found = absurd c
  settle_allocated-Effect row o (use_both _ _) amount (wallet_only _) w p c found = absurd c
  settle_allocated-Effect row o (use_both _ _) amount (gateway_only _ _) w p c found = absurd c

  allocated-then :
      (selection : PaymentMethodSelection) (amount id : ℕ) (start : Db W) (P : Allocation → Type 0)
      (r : Result PaymentError Allocation × World W X)
      (k : Allocation → Action W X SettlementResult)
      → Post (λ a db. Covers selection amount a × P a × (db ≡ start)) (λ db. db ≡ start) r
      → ((a : Allocation) (w : World W X)
          → Covers selection amount a
          → w.db ≡ start
          → SettleEffect selection id start (k a w))
      → SettleEffect selection id start (and_then r k)
  allocated-then selection amount id start P (ok a, w) k h f = f a w h.0 h.2
  allocated-then selection amount id start P (err e, w) k h f = inl h

  settle_found-Effect :
      (row : PaymentRow) (o : OrderContext) (selection : PaymentMethodSelection) (w : World W X)
      → row.status ≡ pending
      → find_by_id row.id w.db.payments ≡ some row
      → SettleEffect selection row.id w.db
          ((allocate sv row.customer_id o.grand_total selection >>= settle_allocated sv row o) w)
  settle_found-Effect row o selection w p found =
      allocated-then selection o.grand_total row.id w.db _
        (allocate sv row.customer_id o.grand_total selection w) (settle_allocated sv row o)
        (allocate-Covers sv row.customer_id o.grand_total selection w)
        λ a w' c e.
          subst (λ db. SettleEffect selection row.id db (settle_allocated sv row o a w')) e
            (settle_allocated-Effect row o selection o.grand_total a w' p c
              (found_at row w.db w'.db e found))

  pub settle-Effect :
      (id : ℕ) (selection : PaymentMethodSelection) (w : World W X)
      → SettleEffect selection id w.db (settle sv id selection w)
  unfolding settle find_settle_context assert_status
  settle-Effect id selection w = elim (Option-cases (find_by_id id w.db.payments)) [
    | inl e ↦ rw e (inl refl)
    | inr (row, found) ↦
        elim (Option-cases (find? (λ (o : OrderContext). o.order_id == row.order_id) w.db.orders)) [
          | inl e ↦ rw (found, e) (inl refl)
          | inr (o, e) ↦ elim (Bool-cases (same_status row.status pending)) [
            | inr f ↦ rw (found, e, f) (inl refl)
            | inl t ↦
                rw (found, e, t)
                  (subst
                    (λ i. SettleEffect selection i w.db (
                      (allocate sv row.customer_id o.grand_total selection
                          >>= settle_allocated sv row o)
                        w))
                    (find_by_id-id id w.db.payments row found)
                    (settle_found-Effect row o selection w (same_status-eq row.status pending t)
                      (found_own id w.db.payments row found)))
          ]
        ]
  ]
