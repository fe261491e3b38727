-- ===== src/Payment/VerdictTests.antt =====
-- Runs with a gateway of a given verdict, and a settlement from the wallet.
use jonoob_part_backend.Common.{[], ◌∷◌, ℕ, ◌+◌, none, some, ok, ◌==◌, if◌then◌else◌}
use jonoob_part_backend.Payment.Rows.{PaymentRow}
use jonoob_part_backend.Payment.Monad.{World}
use jonoob_part_backend.Payment.Services.{Services, PaymentGateway, GatewayStatus}
use jonoob_part_backend.Payment.Tests.{
  services, world, processing_payment, new_payment, only_gateway, order,
}

abbrev gateway_of : GatewayStatus → PaymentGateway ℕ
gateway_of verdict = record only_gateway { verify_payment = λ id code x. (ok verdict, x + 1) }

abbrev services_of : GatewayStatus → Services ℕ ℕ
services_of verdict = record services {
  gateways = λ key. if key == 3 then some (gateway_of verdict) else none;
}

abbrev jobless : PaymentRow
jobless = record (new_payment 1) { expiry_job_id = none }

abbrev jobless_world : World ℕ ℕ
jobless_world = record (world 0) {
  db = record { payments = jobless ∷ processing_payment 2 ∷ []; orders = order 1 ∷ []; side = 250 };
}
