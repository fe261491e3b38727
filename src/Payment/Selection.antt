-- ===== src/Payment/Selection.antt =====
-- What a settlement or a refund asks for (payment.schema.ts, payment.types.ts), and the tests on it.
use jonoob_part_backend.Common.{
  Number, natural, other, ℕ, ◌+◌, Bool, true, false, Option, none, some, ltb, if◌then◌else◌,
}
use jonoob_part_backend.Payment.Rows.{PaymentMethod, wallet, partial, PaymentRow}

-- `PaymentMethodSelection`
pub data WalletUsage : Type 0 where
  full_balance : WalletUsage
  part_of_balance : Number → WalletUsage

pub data PaymentMethodSelection : Type 0 where
  use_wallet : PaymentMethodSelection
  use_gateway : (gateway_key : ℕ) → PaymentMethodSelection
  use_both : (gateway_key : ℕ) → WalletUsage → PaymentMethodSelection

pub data Allocation : Type 0 where
  wallet_only : (amount : ℕ) → Allocation
  gateway_only : (gateway_key amount : ℕ) → Allocation
  split : (gateway_key wallet_amount gateway_amount : ℕ) → Allocation

pub data SettlementResult : Type 0 where
  settled_now : SettlementResult
  settling : (payment_url : ℕ) → SettlementResult

-- `RefundRequest`, without the payment's id.
pub data RefundRequest : Type 0 where
  full_refund : RefundRequest
  partial_refund : Number → RefundRequest

-- `available < amount`, where a balance that is no natural number is a negative one.
abbrev pub below : Number → ℕ → Bool
below (natural a) b = ltb a b
below other b = true

-- `Math.min(available, amount)`
abbrev pub min_number : Number → ℕ → Number
min_number (natural a) b = natural (if ltb b a then b else a)
min_number other b = other

abbrev pub wanted : WalletUsage → Number → ℕ → Number
wanted full_balance available amount = min_number available amount
wanted (part_of_balance a) available amount = a

abbrev pub is_partial : Option PaymentMethod → Bool
is_partial (some partial) = true
is_partial _ = false

abbrev pub is_wallet : Option PaymentMethod → Bool
is_wallet (some wallet) = true
is_wallet _ = false

-- `payment.amount ?? payment.walletAmount! + payment.gatewayAmount!`, where `null + null` is 0.
abbrev pub or_zero : Option ℕ → ℕ
or_zero none = 0
or_zero (some a) = a

abbrev pub paid_total : PaymentRow → ℕ
paid_total row = elim row.amount [
  | none ↦ or_zero row.wallet_amount + or_zero row.gateway_amount
  | some a ↦ a
]
