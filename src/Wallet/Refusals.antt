-- ===== src/Wallet/Refusals.antt =====
-- The tables refuse every change of a balance.
use jonoob_part_backend.Common.{
  Number, natural, other, max_safe_integer, ℕ, ◌≡◌, refl, false, ◌&&◌, Option, none, some, leb,
  ◌==◌, inl, inr, Result, ok, err, Bool-cases, Option-cases,
}
use jonoob_part_backend.Wallet.Tables.{
  Wallet, FreezedAmount, TransactionType, name_of, same_name, Db, WalletError, bad_request,
  not_found, conflict, unprocessable, not_in_enum, find_by_customer_id, release_frozen,
  find_transaction,
}
use jonoob_part_backend.Wallet.Service.{
  WalletInput, Change, deposit, withdraw, type_name, Outcome, ◌>>=◌, record_spent, run_amount,
  run_idempotently, record_and_apply, credit, debit, spend_frozen, commit_freeze,
}

abbrev pub Fails : Outcome → Type 0
Fails r = (e : WalletError) × (r ≡ err e)

-- No stored type is one that a change is recorded under.
foreign_type : (t : Change) (s : TransactionType) → same_name (name_of s) (type_name t) ≡ false
foreign_type deposit TransactionType.credit = refl
foreign_type deposit TransactionType.debit = refl
foreign_type deposit TransactionType.freeze = refl
foreign_type deposit TransactionType.commit_freeze = refl
foreign_type deposit TransactionType.unfreeze = refl
foreign_type withdraw TransactionType.credit = refl
foreign_type withdraw TransactionType.debit = refl
foreign_type withdraw TransactionType.freeze = refl
foreign_type withdraw TransactionType.commit_freeze = refl
foreign_type withdraw TransactionType.unfreeze = refl

module _ (increase decrease : ℕ → ℕ → Db → Result WalletError (Option Db)) where
  record_and_apply-Fails :
      (t : Change) (w : Wallet) (key amount reason : ℕ) (db : Db)
      → Fails (record_and_apply increase decrease t w key amount reason db)
  unfolding record_and_apply
  record_and_apply-Fails deposit w key amount reason db = (not_in_enum, refl)
  record_and_apply-Fails withdraw w key amount reason db = (not_in_enum, refl)

  run_amount-Fails :
      (t : Change) (input : WalletInput) (n : Number) (db : Db)
      → Fails (run_amount increase decrease t input n db)
  run_amount-Fails t input other db = (bad_request, refl)
  run_amount-Fails t input (natural a) db = elim (Bool-cases (leb 1 a && leb a max_safe_integer)) [
    | inr f ↦ rw f (bad_request, refl)
    | inl g ↦ elim (Option-cases (find_by_customer_id input.customer_id db)) [
      | inl e ↦ rw (g, e) (not_found, refl)
      | inr (w, e) ↦ elim (Option-cases (find_transaction input.idempotency_key w.id db)) [
        | inl k ↦ rw (g, e, k) (record_and_apply-Fails t w input.idempotency_key a input.reason db)
        | inr (x, k) ↦ rw (g, e, k, foreign_type t x.type) (conflict, refl)
      ]
    ]
  ]

  spend_frozen-Fails :
      (w : Wallet) (key : ℕ) (f : Option FreezedAmount) (db : Db)
      → Fails (spend_frozen increase decrease w key f db)
  unfolding spend_frozen record_spent
  spend_frozen-Fails w key none db = (not_found, refl)
  spend_frozen-Fails w key (some f) db = elim (Bool-cases (w.id == f.wallet_id)) [
    | inr e ↦ rw e (bad_request, refl)
    | inl e ↦ rw e (go (decrease w.id f.amount db))
  ]
    where
      go : (r : Result WalletError (Option Db)) → Fails (r >>= record_spent f key)
      go (err x) = (x, refl)
      go (ok none) = (unprocessable, refl)
      go (ok (some db')) = (not_in_enum, refl)

  commit_freeze-Fails :
      (customer freeze_id key : ℕ) (db : Db)
      → Fails (commit_freeze increase decrease customer freeze_id key db)
  unfolding commit_freeze
  commit_freeze-Fails customer freeze_id key db =
      elim (Option-cases (find_by_customer_id customer db)) [
        | inl e ↦ rw (commit_freeze, e) (not_found, refl)
        | inr (w, e) ↦ elim (Option-cases (find_transaction key w.id db)) [
          | inr (x, k) ↦ rw (commit_freeze, e, k, foreign_type withdraw x.type) (conflict, refl)
          | inl k ↦
              let (f, db') = release_frozen freeze_id db in
              rw (commit_freeze, e, k) (spend_frozen-Fails w key f db')
        ]
      ]

  -- Whatever the wallets and their transactions are, and whatever the statements on the balance do:
  -- every credit, every debit and every commit of a frozen amount throws. The transaction of a new key
  -- is of a type that the database's enum does not have, and no stored type is the one that a repeated
  -- call looks for.
  pub changes_fail :
      (input : WalletInput) (customer freeze_id key : ℕ) (db : Db)
      → Fails (credit increase decrease input db)
        × Fails (debit increase decrease input db)
        × Fails (commit_freeze increase decrease customer freeze_id key db)
  unfolding credit debit run_idempotently
  changes_fail input customer freeze_id key db = (
    run_amount-Fails deposit input input.amount db,
    run_amount-Fails withdraw input input.amount db,
    commit_freeze-Fails customer freeze_id key db,
  )
