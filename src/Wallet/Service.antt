-- ===== src/Wallet/Service.antt =====
-- `WalletService`: `credit`, `debit` and `commitFreeze`.
use jonoob_part_backend.Common.{
  Number, natural, other, max_safe_integer, ℕ, not, ◌&&◌, ◌||◌, Option, none, some, leb, ◌==◌,
  if◌then◌else◌, Result, ok, err,
}
use jonoob_part_backend.Wallet.Tables.{
  Wallet, FreezedAmount, TypeName, deposit_name, withdraw_name, name_of, same_name,
  WalletTransaction, Db, WalletError, bad_request, not_found, conflict, unprocessable,
  find_by_customer_id, release_frozen, find_transaction, NewTransaction, record_transaction,
}

pub record WalletInput : Type 0 where
  pub customer_id : ℕ
  pub amount : Number
  pub idempotency_key : ℕ
  pub reason : ℕ

-- What `runIdempotently` is called for.
pub data Change : Type 0 where
  deposit withdraw : Change

-- The id of a transaction with the database after it.
abbrev pub Outcome : Type 0
Outcome = Result WalletError (ℕ × Db)

infixl 5 ◌>>=◌
abbrev pub ◌>>=◌ :
    {A B : Type 0} → Result WalletError A → (A → Result WalletError B) → Result WalletError B
ok a >>= f = f a
err e >>= f = err e

-- The type that a change is recorded under.
abbrev pub type_name : Change → TypeName
type_name deposit = deposit_name
type_name withdraw = withdraw_name

abbrev pub new_transaction : TypeName → (wallet_id key amount reason : ℕ) → NewTransaction
new_transaction type wallet key amount reason = record {
  type = type;
  wallet_id = wallet;
  idempotency_key = key;
  amount = amount;
  reason = reason;
  freezed_amount_id = none;
  available_balance_after = none;
}

abbrev pub insufficient : Change → WalletError
insufficient withdraw = unprocessable
insufficient deposit = not_found

abbrev pub or_fail : Option Db → ℕ → WalletError → Outcome
or_fail none id e = err e
or_fail (some db) id e = ok (id, db)

-- A transaction with the key stands already.
abbrev pub replay : Change → ℕ → WalletTransaction → Db → Outcome
replay t amount existing db =
    if not (same_name (name_of existing.type) (type_name t)) || not (existing.amount == amount)
    then err conflict
    else ok (existing.id, db)

-- The rest of `commitFreeze`, after the decrease of the balance.
unfoldable pub record_spent : FreezedAmount → ℕ → Option Db → Outcome
unfolding record_transaction
record_spent f key none = err unprocessable
record_spent f key (some db) =
    record_transaction (new_transaction withdraw_name f.wallet_id key f.amount f.reason) db

-- `increaseBalance` and `decreaseBalance` are statements on a column `total`, which the table does not
-- have: what the query builder and the database make of them are the parameters. They throw, or
-- answer the database after them, or `none` where they return no row.
module _ (increase_balance decrease_balance : ℕ → ℕ → Db → Result WalletError (Option Db)) where
  abbrev apply_balance : Change → ℕ → ℕ → Db → Result WalletError (Option Db)
  apply_balance deposit = increase_balance
  apply_balance withdraw = decrease_balance

  -- The balance changes after the transaction has been recorded.
  unfoldable pub record_and_apply : Change → Wallet → ℕ → ℕ → ℕ → Db → Outcome
  unfolding record_transaction
  record_and_apply t w key amount reason db =
      record_transaction (new_transaction (type_name t) w.id key amount reason) db >>= λ (id, db').
      apply_balance t w.id amount db' >>= λ updated. or_fail updated id (insufficient t)

  abbrev pub run_amount : Change → WalletInput → Number → Db → Outcome
  run_amount t input other db = err bad_request
  run_amount t input (natural amount) db =
      if not (leb 1 amount && leb amount max_safe_integer)
      then err bad_request
      else elim (find_by_customer_id input.customer_id db) [
        | none ↦ err not_found
        | some w ↦ elim (find_transaction input.idempotency_key w.id db) [
          | some existing ↦ replay t amount existing db
          | none ↦ record_and_apply t w input.idempotency_key amount input.reason db
        ]
      ]

  unfoldable pub run_idempotently : Change → WalletInput → Db → Outcome
  unfolding record_and_apply
  run_idempotently t input db = run_amount t input input.amount db

  unfoldable pub credit : WalletInput → Db → Outcome
  unfolding run_idempotently
  credit = run_idempotently deposit

  unfoldable pub debit : WalletInput → Db → Outcome
  unfolding run_idempotently
  debit = run_idempotently withdraw

  -- The frozen amount has been deleted: it is spent, if it is this wallet's.
  unfoldable pub spend_frozen : Wallet → ℕ → Option FreezedAmount → Db → Outcome
  unfolding record_spent
  spend_frozen w key none db = err not_found
  spend_frozen w key (some f) db =
      if not (w.id == f.wallet_id)
      then err bad_request
      else decrease_balance w.id f.amount db >>= record_spent f key

  unfoldable pub commit_freeze : (customer_id freeze_id idempotency_key : ℕ) → Db → Outcome
  unfolding spend_frozen
  commit_freeze customer freeze_id key db = elim (find_by_customer_id customer db) [
    | none ↦ err not_found
    | some w ↦ elim (find_transaction key w.id db) [
      | some existing ↦
          if not (same_name (name_of existing.type) withdraw_name)
          then err conflict
          else ok (existing.id, db)
      | none ↦ let (f, db') = release_frozen freeze_id db in spend_frozen w key f db'
    ]
  ]
