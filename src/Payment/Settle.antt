-- ===== src/Payment/Settle.antt =====
-- `PaymentService.settle`: `allocate`, `settleWithWallet` and `settleWithGateway`.
use jonoob_part_backend.Common.{
  Number, natural, other, max_safe_integer, ℕ, ◌+◌, ◌-◌, ◌*◌, not, ◌&&◌, Result, Option, none, some,
  leb,
}
use jonoob_part_backend.Payment.Rows.{PaymentStatus, PaymentRow, by_wallet, by_gateway, by_both}
use jonoob_part_backend.Payment.Monad.{
  OrderContext, World, PaymentError, conflict, bad_request, unprocessable, Action, pure, raise,
  ◌>>=◌, ◌>>◌, raise_if, transaction, in_db, outside,
}
use jonoob_part_backend.Payment.Services.{withdraw_key, PaymentGateway, Ticket, Services}
use jonoob_part_backend.Payment.Selection.{
  PaymentMethodSelection, use_wallet, use_gateway, use_both, Allocation, wallet_only, gateway_only,
  split, SettlementResult, settled_now, settling, below, wanted,
}
use jonoob_part_backend.Payment.Core.{
  clock, resolve, settle_row, assert_status, find_settle_context,
}

-- What a call that only reads answers.
abbrev pub answer :
    {W X A : Type 0} → World W X → Result PaymentError A → Result PaymentError A × World W X
answer w r = (r, w)

module _ {W X : Type 0} (sv : Services W X) where
  -- The wallet's part of a payment: its checks, then the rest goes to the gateway.
  unfoldable pub share : ℕ → ℕ → Number → Number → Action W X Allocation
  share key amount available (natural a) = do
    raise_if (not (leb 1 a && leb a max_safe_integer)) bad_request
    raise_if (leb amount a) bad_request
    raise_if (below available a) unprocessable
    pure (split key a (amount - a))
  share key amount available other = raise bad_request

  unfoldable pub allocate_with : ℕ → Number → PaymentMethodSelection → Action W X Allocation
  unfolding share
  allocate_with amount available use_wallet =
      raise_if (below available amount) unprocessable >> pure (wallet_only amount)
  allocate_with amount available (use_gateway key) = pure (gateway_only key amount)
  allocate_with amount available (use_both key usage) =
      share key amount available (wanted usage available amount)

  abbrev pub balance : Option ℕ → Action W X Number
  balance customer w = answer w (sv.available customer w.db.side)

  unfoldable pub allocate : Option ℕ → ℕ → PaymentMethodSelection → Action W X Allocation
  unfolding allocate_with
  allocate customer amount (use_gateway key) = pure (gateway_only key amount)
  allocate customer amount use_wallet = do
    available ← balance customer
    allocate_with amount available use_wallet
  allocate customer amount (use_both key usage) = do
    available ← balance customer
    allocate_with amount available (use_both key usage)

  -- `wallet.withdraw` with the key of this attempt.
  abbrev pub withdraw_for : PaymentRow → ℕ → ℕ → Action W X (Unit {0})
  withdraw_for row at amount = in_db (
      sv.withdraw (record {
        amount = some amount;
        customer_id = row.customer_id;
        idempotency_key = record { payment_id = row.id; settled_at = at; operation = withdraw_key };
      }))

  abbrev pub cancel_job : Option ℕ → Action W X (Unit {0})
  cancel_job none = pure tt
  cancel_job (some job) = outside (sv.job_cancel job)

  unfoldable pub settle_with_wallet : PaymentRow → ℕ → Action W X (Unit {0})
  unfolding settle_row
  settle_with_wallet row amount = do
    at ← clock sv
    transaction (do
      withdraw_for row at amount
      found ← settle_row sv row.id at row.customer_id (by_wallet amount)
      raise_if (not found) conflict
      in_db (sv.fulfill row.order_id))
    cancel_job row.expiry_job_id

  -- The expiry job moves to the end of the gateway's deadlines.
  abbrev pub postpone_job : Option ℕ → PaymentGateway X → Action W X (Unit {0})
  postpone_job none g = pure tt
  postpone_job (some job) g = do
    now ← clock sv
    outside (
        sv.job_update job
          (now + (g.expiry_in_minutes + g.verification_deadline_in_minutes) * 60_000))

  abbrev pub ticket_for : PaymentRow → OrderContext → ℕ → PaymentGateway X → Action W X Ticket
  ticket_for row o amount g = outside (
      g.create_payment (record {
        provider_id = row.id;
        phone = o.customer_phone;
        merchandise = o.merchandise;
        amount = amount;
      }))

  unfoldable pub settle_with_gateway : PaymentRow → OrderContext → ℕ → ℕ → Action W X ℕ
  unfolding settle_row
  settle_with_gateway row o key amount = do
    g ← resolve sv (some key)
    postpone_job row.expiry_job_id g
    ticket ← ticket_for row o amount g
    at ← clock sv
    transaction (do
      found ← settle_row sv row.id at row.customer_id (by_gateway amount key ticket.tracking_code)
      raise_if (not found) conflict)
    pure ticket.payment_url

  unfoldable pub settle_with_both : PaymentRow → OrderContext → ℕ → ℕ → ℕ → Action W X ℕ
  unfolding settle_row
  settle_with_both row o key wallet_amount gateway_amount = do
    g ← resolve sv (some key)
    raise_if (not g.supports_partial_payment) bad_request
    postpone_job row.expiry_job_id g
    ticket ← ticket_for row o gateway_amount g
    at ← clock sv
    transaction (do
      withdraw_for row at wallet_amount
      found ←
          settle_row sv row.id at row.customer_id
            (by_both wallet_amount gateway_amount key ticket.tracking_code)
      raise_if (not found) conflict)
    pure ticket.payment_url

  unfoldable pub settle_allocated :
      PaymentRow → OrderContext → Allocation → Action W X SettlementResult
  unfolding settle_with_wallet settle_with_gateway settle_with_both
  settle_allocated row o (wallet_only amount) = settle_with_wallet row amount >> pure settled_now
  settle_allocated row o (gateway_only key amount) = do
    url ← settle_with_gateway row o key amount
    pure (settling url)
  settle_allocated row o (split key wallet_amount gateway_amount) = do
    url ← settle_with_both row o key wallet_amount gateway_amount
    pure (settling url)

  unfoldable pub settle : ℕ → PaymentMethodSelection → Action W X SettlementResult
  unfolding find_settle_context assert_status allocate settle_allocated
  settle id selection = do
    (row, o) ← find_settle_context sv id
    assert_status sv row PaymentStatus.pending
    allocation ← allocate row.customer_id o.grand_total selection
    settle_allocated row o allocation
