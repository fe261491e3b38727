-- ===== src/Wallet/Tests.antt =====
-- Calls on two wallets, of which one has a frozen amount.
use jonoob_part_backend.Common.{natural, ℕ, ◌≡◌, refl, [], ◌∷◌, none, some, Option, Result, ok, err}
use jonoob_part_backend.Wallet.Tables.{TransactionType, Db, WalletError, conflict, not_in_enum}
use jonoob_part_backend.Wallet.Service.{WalletInput, credit, debit, commit_freeze}
use jonoob_part_backend.Wallet.Refusals.{Fails, changes_fail}

abbrev db : Db
db = record {
  wallets =
      record { id = 1; customer_id = 11; available_balance = 100 }
      ∷ record { id = 2; customer_id = 12; available_balance = 0 }
      ∷ [];
  freezed = record { id = 5; wallet_id = 1; amount = 30; reason = 0 } ∷ [];
  transactions =
      record {
        id = 0;
        type = TransactionType.credit;
        wallet_id = 1;
        idempotency_key = 7;
        amount = 100;
        reason = 0;
        freezed_amount_id = none;
        available_balance_after = 100;
      }
      ∷ [];
  next_id = 1;
}

-- Statements on the balance that do nothing.
abbrev unchanged : ℕ → ℕ → Db → Result WalletError (Option Db)
unchanged wallet amount db = ok (some db)

abbrev input : ℕ → WalletInput
input key = record { customer_id = 11; amount = natural 100; idempotency_key = key; reason = 0 }

changes_fail_example :
    Fails (credit unchanged unchanged (input 8) db)
    × Fails (debit unchanged unchanged (input 8) db)
    × Fails (commit_freeze unchanged unchanged 11 5 9 db)
changes_fail_example = changes_fail unchanged unchanged (input 8) 11 5 9 db

-- A new key, and the key of the transaction that stands.
credit_refused : credit unchanged unchanged (input 8) db ≡ err not_in_enum
unfolding credit
credit_refused = refl

credit_conflicts : credit unchanged unchanged (input 7) db ≡ err conflict
unfolding credit
credit_conflicts = refl
