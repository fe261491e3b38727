-- ===== src/Wallet/Tables.antt =====
-- The tables of wallets.schema.ts, and the statements of `WalletRepository` on them. Of the
-- constraints of an insert, the enum of the types, the column that must not be NULL and the unique
-- key are modelled; the other CHECKs can only refuse more.
use jonoob_part_backend.Common.{
  ℕ, ◌+◌, Bool, not, ◌&&◌, Option, none, some, List, [], ◌∷◌, ◌++◌, ◌==◌, if◌then◌else◌, eq_some,
  filter, find?, any, Result, ok, err,
}

pub record Wallet : Type 0 where
  pub id : ℕ
  pub customer_id : ℕ
  pub available_balance : ℕ

-- `freezed_amounts`
pub record FreezedAmount : Type 0 where
  pub id : ℕ
  pub wallet_id : ℕ
  pub amount : ℕ
  pub reason : ℕ

-- `walletTransactionType`, the enum of the database.
pub data TransactionType : Type 0 where
  credit debit freeze commit_freeze unfreeze : TransactionType

-- The texts that the service uses as types.
pub data TypeName : Type 0 where
  deposit_name withdraw_name credit_name debit_name freeze_name commit_freeze_name unfreeze_name :
      TypeName

abbrev pub name_of : TransactionType → TypeName
name_of credit = credit_name
name_of debit = debit_name
name_of freeze = freeze_name
name_of commit_freeze = commit_freeze_name
name_of unfreeze = unfreeze_name

-- The value of the enum that a text stands for, if there is one.
abbrev pub type_of : TypeName → Option TransactionType
type_of deposit_name = none
type_of withdraw_name = none
type_of credit_name = some credit
type_of debit_name = some debit
type_of freeze_name = some freeze
type_of commit_freeze_name = some commit_freeze
type_of unfreeze_name = some unfreeze

abbrev name_index : TypeName → ℕ
name_index deposit_name = 0
name_index withdraw_name = 1
name_index credit_name = 2
name_index debit_name = 3
name_index freeze_name = 4
name_index commit_freeze_name = 5
name_index unfreeze_name = 6

-- `===` on the texts.
abbrev pub same_name : TypeName → TypeName → Bool
same_name a b = name_index a == name_index b

pub record WalletTransaction : Type 0 where
  pub id : ℕ
  pub type : TransactionType
  pub wallet_id : ℕ
  pub idempotency_key : ℕ
  pub amount : ℕ
  pub reason : ℕ
  pub freezed_amount_id : Option ℕ
  pub available_balance_after : ℕ

pub record Db : Type 0 where
  pub wallets : List Wallet
  pub freezed : List FreezedAmount
  pub transactions : List WalletTransaction
  -- the identifier that the database gives to the next transaction
  pub next_id : ℕ

-- The exceptions: the HTTP errors of the service, and what the database throws.
pub data WalletError : Type 0 where
  bad_request not_found conflict unprocessable : WalletError
  not_in_enum not_null_violation unique_violation : WalletError
  database_error : ℕ → WalletError

abbrev pub find_by_customer_id : ℕ → Db → Option Wallet
find_by_customer_id customer db = find? (λ w. w.customer_id == customer) db.wallets

-- `releaseFrozen`: the row that was deleted. The transactions that refer to it go with it.
abbrev pub release_frozen : ℕ → Db → Option FreezedAmount × Db
release_frozen freeze_id db = (
  find? (λ f. f.id == freeze_id) db.freezed,
  record db {
    freezed = filter (λ f. not (f.id == freeze_id)) (db.freezed);
    transactions =
        filter (λ t. not (eq_some t.freezed_amount_id (some freeze_id))) (db.transactions);
  },
)

abbrev pub is_key : ℕ → ℕ → WalletTransaction → Bool
is_key key wallet t = t.idempotency_key == key && t.wallet_id == wallet

-- `findTransactionByIdempotencyKeyAndWalletId`
abbrev pub find_transaction : ℕ → ℕ → Db → Option WalletTransaction
find_transaction key wallet db = find? (is_key key wallet) db.transactions

-- What `recordTransaction` is given: a column that is left out is NULL.
pub record NewTransaction : Type 0 where
  pub type : TypeName
  pub wallet_id : ℕ
  pub idempotency_key : ℕ
  pub amount : ℕ
  pub reason : ℕ
  pub freezed_amount_id : Option ℕ
  pub available_balance_after : Option ℕ

unfoldable pub record_transaction : NewTransaction → Db → Result WalletError (ℕ × Db)
record_transaction x db = elim (type_of x.type) [
  | none ↦ err not_in_enum
  | some type ↦ elim x.available_balance_after [
    | none ↦ err not_null_violation
    | some after ↦
        if any (is_key x.idempotency_key x.wallet_id) db.transactions
        then err unique_violation
        else ok (
          db.next_id,
          record db {
            transactions =
                db.transactions
                ++ (record {
                  id = db.next_id;
                  type = type;
                  wallet_id = x.wallet_id;
                  idempotency_key = x.idempotency_key;
                  amount = x.amount;
                  reason = x.reason;
                  freezed_amount_id = x.freezed_amount_id;
                  available_balance_after = after;
                }
                    ∷ []);
            next_id = db.next_id + 1;
          },
        )
  ]
]
