-- ===== src/Payment/Services.antt =====
-- What the payment service calls: the wallet, the deliveries and the fulfillment, which share its
-- database, and the gateways, the job queue and the clock, which do not. All are parameters.
use jonoob_part_backend.Common.{Number, ℕ, Bool, Option, Result}
use jonoob_part_backend.Payment.Monad.{PaymentError}

-- `walletKey`: the operation, the payment and the time of the settlement.
pub data Operation : Type 0 where
  withdraw_key refund_key : Operation

pub record WalletKey : Type 0 where
  pub payment_id : ℕ
  pub settled_at : ℕ
  pub operation : Operation

pub record WalletRequest : Type 0 where
  pub amount : Option ℕ
  pub customer_id : Option ℕ
  pub idempotency_key : WalletKey

-- `PaymentStatus` of the gateways' contract.
pub data GatewayStatus : Type 0 where
  pending verified failed verified_before canceled expired reversed : GatewayStatus

pub record CreatePayment : Type 0 where
  pub provider_id : ℕ
  pub phone : ℕ
  pub merchandise : ℕ
  pub amount : ℕ

pub record Ticket : Type 0 where
  pub payment_url : ℕ
  pub tracking_code : ℕ

pub record PaymentGateway (X : Type 0) : Type 0 where
  pub supports_partial_payment : Bool
  pub expiry_in_minutes : ℕ
  pub verification_deadline_in_minutes : ℕ
  pub create_payment : CreatePayment → X → Result PaymentError Ticket × X
  pub verify_payment : ℕ → Option ℕ → X → Result PaymentError GatewayStatus × X
  pub cancel_payment : ℕ → Option ℕ → X → Result PaymentError (Unit {0}) × X
  pub refund_payment : ℕ → Option ℕ → X → Result PaymentError (Unit {0}) × X

-- `W` is the state of the services in the database, `X` all else that calls can change.
pub record Services (W X : Type 0) : Type 0 where
  pub withdraw : WalletRequest → W → Result PaymentError W
  pub deposit : WalletRequest → W → Result PaymentError W
  pub available : Option ℕ → W → Result PaymentError Number
  pub cancel_delivery : ℕ → W → Result PaymentError W
  pub fulfill : ℕ → W → Result PaymentError W
  -- `PaymentGatewayResolver`'s map
  pub gateways : ℕ → Option (PaymentGateway X)
  pub job_schedule : ℕ → ℕ → X → Result PaymentError ℕ × X
  pub job_update : ℕ → ℕ → X → Result PaymentError (Unit {0}) × X
  pub job_cancel : ℕ → X → Result PaymentError (Unit {0}) × X
  pub now : X → ℕ
