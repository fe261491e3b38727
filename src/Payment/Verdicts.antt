-- ===== src/Payment/Verdicts.antt =====
-- What a gateway's verdict does, where the calls that follow it succeed.
use jonoob_part_backend.Common.{List, ℕ, ◌≡◌, ◌≢◌, some}
use jonoob_part_backend.Payment.Rows.{PaymentRow, find_by_id}
use jonoob_part_backend.Payment.Monad.{World}
use jonoob_part_backend.Payment.Services.{Services}

-- The row under an id has become another one, and the rows under all other ids are the same.
abbrev pub Becomes : ℕ → PaymentRow → List PaymentRow → List PaymentRow → Type 0
Becomes id row' rows rows' =
    (find_by_id id rows' ≡ some row')
    × ((other : ℕ) → other ≢ id → find_by_id other rows' ≡ find_by_id other rows)

-- The world with other payments, other tables of the services and another state outside.
abbrev pub world_of : {W X : Type 0} → World W X → List PaymentRow → W → X → World W X
world_of w payments side ext = record {
  db = record { payments = payments; orders = w.db.orders; side = side };
  ext = ext;
}
