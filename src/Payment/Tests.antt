-- ===== src/Payment/Tests.antt =====
-- Runs of the payment service over a wallet with a balance, one gateway and a job queue that is down
-- at one time.
use jonoob_part_backend.Common.{
  natural, ℕ, ◌+◌, ◌-◌, ◌≡◌, refl, true, none, some, Option, List, [], ◌∷◌, Result, ok, err, ltb,
  ◌==◌, if◌then◌else◌,
}
use jonoob_part_backend.Payment.Rows.{
  PaymentStatus, pending, processing, PaymentRow, partial, find_by_id,
}
use jonoob_part_backend.Payment.Monad.{OrderContext, World, PaymentError, internal}
use jonoob_part_backend.Payment.Services.{Services, WalletRequest, PaymentGateway, canceled}
use jonoob_part_backend.Payment.Selection.{
  PaymentMethodSelection, use_wallet, use_gateway, use_both, part_of_balance, full_refund, settling,
  or_zero,
}
use jonoob_part_backend.Payment.Settle.{settle, allocate}
use jonoob_part_backend.Payment.Logic.{Post}
use jonoob_part_backend.Payment.Constraints.{WellFormed}
use jonoob_part_backend.Payment.Allocations.{Covers, wallet_part, IsAfforded, allocate-Covers}
use jonoob_part_backend.Payment.Requests.{
  Request, call_settle, call_verify, call_cancel, call_expire, call_refund, call_schedule, run,
  run_all,
}
use jonoob_part_backend.Payment.Lifecycle.{Follows, run-Follows, run_all-WellFormed, final_stays}

abbrev wallet_withdraw : WalletRequest → ℕ → Result PaymentError ℕ
wallet_withdraw r n = if ltb n (or_zero r.amount) then err internal else ok (n - or_zero r.amount)

abbrev wallet_deposit : WalletRequest → ℕ → Result PaymentError ℕ
wallet_deposit r n = ok (n + or_zero r.amount)

-- Its answer to every verification is that the payment was cancelled.
abbrev pub only_gateway : PaymentGateway ℕ
only_gateway = record {
  supports_partial_payment = true;
  expiry_in_minutes = 10;
  verification_deadline_in_minutes = 5;
  create_payment = λ r x. (ok (record { payment_url = 77; tracking_code = 88 }), x + 1);
  verify_payment = λ id code x. (ok canceled, x + 1);
  cancel_payment = λ id code x. (ok tt, x + 1);
  refund_payment = λ id code x. (ok tt, x + 1);
}

abbrev pub services : Services ℕ ℕ
services = record {
  withdraw = wallet_withdraw;
  deposit = wallet_deposit;
  available = λ customer n. ok (natural n);
  cancel_delivery = λ order n. ok n;
  fulfill = λ order n. ok n;
  gateways = λ key. if key == 3 then some only_gateway else none;
  job_schedule = λ id at x. (ok 5, x + 1);
  job_update = λ job at x. (ok tt, x + 1);
  job_cancel = λ job x. if x == 100 then (err internal, x) else (ok tt, x + 1);
  now = λ x. x;
}

abbrev pub new_payment : ℕ → PaymentRow
new_payment id = record {
  id = id;
  order_id = id;
  customer_id = some 6;
  expiry_job_id = some 5;
  status = pending;
  method = none;
  amount = none;
  wallet_amount = none;
  gateway_amount = none;
  gateway_key = none;
  tracking_code = none;
  settle_requested_at = none;
  paid_at = none;
  refunded_at = none;
  refund_type = none;
  refund_destination = none;
  refunded_amount = none;
}

abbrev pub processing_payment : ℕ → PaymentRow
processing_payment id = record (new_payment id) {
  status = processing;
  method = some partial;
  wallet_amount = some 30;
  gateway_amount = some 70;
  gateway_key = some 3;
  tracking_code = some 88;
  settle_requested_at = some 1;
}

abbrev expired_payment : ℕ → PaymentRow
expired_payment id = record (new_payment id) { status = PaymentStatus.expired }

abbrev pub order : ℕ → OrderContext
order id = record { order_id = id; grand_total = 100; customer_phone = 9; merchandise = 8 }

abbrev pub world : ℕ → World ℕ ℕ
world time = record {
  db = record {
    payments = new_payment 1 ∷ processing_payment 2 ∷ expired_payment 3 ∷ [];
    orders = order 1 ∷ order 2 ∷ order 3 ∷ [];
    side = 250;
  };
  ext = time;
}

allocate-Covers_example :
    Post
      (λ a db.
        Covers (use_both 3 (part_of_balance (natural 40))) 100 a
        × IsAfforded (ok (natural 250)) (wallet_part a)
        × (db ≡ (world 0).db))
      (λ db. db ≡ (world 0).db)
      (allocate services (some 6) 100 (use_both 3 (part_of_balance (natural 40))) (world 0))
allocate-Covers_example =
    allocate-Covers services (some 6) 100 (use_both 3 (part_of_balance (natural 40))) (world 0)

run-Follows_example :
    Follows (some 2) 2 (processing_payment 2) (run services (call_verify 2) (world 0)).db
run-Follows_example = run-Follows services (call_verify 2) (world 0) 2 (processing_payment 2) refl

abbrev calls : List Request
calls =
    call_settle 1 use_wallet
    ∷ call_refund 1 full_refund
    ∷ call_cancel 2
    ∷ call_expire 2
    ∷ call_settle 3 (use_gateway 3)
    ∷ call_schedule 60 3
    ∷ []

final_stays_example :
    (job : Option ℕ) × (find_by_id 3 (run_all services calls (world 0)).db.payments
      ≡ some (record (expired_payment 3) { expiry_job_id = job }))
final_stays_example = final_stays services calls (world 0) 3 (expired_payment 3) refl refl

run_all_example : WellFormed (run_all services calls (world 0)).db.payments
run_all_example = run_all-WellFormed services calls (world 0) (
  ((refl, (refl, tt)), ((refl, tt), (tt, tt))),
  (
    (refl, refl, refl, refl, refl),
    ((refl, refl, refl, refl, refl), ((refl, refl, refl, refl, refl), tt)),
  ),
)

-- The wallet refuses the withdrawal of a shared settlement, after the gateway has given a ticket.
abbrev refusing : Services ℕ ℕ
refusing = record services { withdraw = λ r n. err internal }

abbrev both_methods : PaymentMethodSelection
both_methods = use_both 3 (part_of_balance (natural 40))

-- The settlement stands although the call reports an exception of the job queue.
settle_reports_failure : (settle services 1 use_wallet (world 100)).0 ≡ err internal
unfolding settle
settle_reports_failure = refl

settle_shares :
    (settle services 1 (use_both 3 (part_of_balance (natural 40))) (world 0)).0 ≡ ok (settling 77)
unfolding settle
settle_shares = refl
