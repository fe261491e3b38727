-- ===== src/Outbox/Tests.antt =====
-- Runs of the outbox store on two relays and three messages, the last two with the same key.
use jonoob_part_backend.Common.{
  ℕ, ◌≡◌, ◌≢◌, refl, inl, inr, Bool, false, ◌==◌, Option, none, some, [], ◌∷◌, arith,
}
use jonoob_part_backend.Outbox.Tables.{MessageRow, Store}
use jonoob_part_backend.Outbox.Relay.{
  mark_published, reschedule, RescheduleUpdate, dead_letter, DeadLetterUpdate,
}
use jonoob_part_backend.Outbox.Claim.{ClaimRequest, Table, claim, is_older}
use jonoob_part_backend.Outbox.Look.{IsAscending}
use jonoob_part_backend.Outbox.Order.{claim_keeps_key_order}
use jonoob_part_backend.Outbox.Leases.{claims_exclude}
use jonoob_part_backend.Outbox.Fencing.{lost_lease-writes_nothing}

abbrev message : ℕ → Option ℕ → MessageRow
message seq key = record {
  seq = seq;
  id = seq;
  topic = 0;
  payload = 0;
  headers = 0;
  key = key;
  created_at = 0;
  available_at = 0;
  attempts = 0;
  last_error = none;
  history = [];
  lease_owner = none;
  lease_until = none;
}

abbrev first_row : MessageRow
first_row = message 1 none

abbrev second_row : MessageRow
second_row = message 2 (some 9)

abbrev third_row : MessageRow
third_row = message 3 (some 9)

abbrev table : Table
table = first_row ∷ second_row ∷ third_row ∷ []

table-IsAscending : IsAscending table
table-IsAscending = ((ground arith, (ground arith, tt)), ((ground arith, tt), (tt, tt)))

abbrev request : ℕ → ℕ → ClaimRequest
request owner limit = record { owner = owner; now = 5; lease_ms = 10; limit = limit }

abbrev nothing_locked : ℕ → Bool
nothing_locked seq = false

abbrev held : ℕ → MessageRow → MessageRow
held owner row = record row { lease_owner = some owner; lease_until = some 15 }

abbrev unchanged : Table → Table
unchanged t = t

claim_keeps_key_order_example : (held 1 second_row).lease_owner ≡ some 1
unfolding claim
claim_keeps_key_order_example =
    claim_keeps_key_order (request 1 3) nothing_locked unchanged table (held 1 third_row)
      (held 1 second_row) table-IsAscending (inr (inr (inl refl))) refl

abbrev claimed_table : Table
claimed_table = first_row ∷ held 1 second_row ∷ third_row ∷ []

claims_exclude_example :
    (first_row ≢ held 1 second_row) × (is_older first_row (held 1 second_row) ≡ false)
unfolding claim
claims_exclude_example =
    claims_exclude (request 1 1) (request 2 3) (λ s. s == 1) nothing_locked table
      (held 1 second_row) first_row table-IsAscending (ground arith) (inl refl) (inl refl) refl

abbrev store : Store
store = record { messages = claimed_table; dead_letters = []; inbox = []; next_seq = 4 }

abbrev failure : DeadLetterUpdate
failure = record { attempts = 1; error = record { error = 7 }; reason = 2; failed_at = 6 }

abbrev retry : RescheduleUpdate
retry = record { attempts = 1; available_at = 20; error = record { error = 7 } }

lost_lease_example :
    (mark_published 2 8 store ≡ (false, store))
    × (reschedule 2 8 retry store ≡ (false, store))
    × (dead_letter 2 8 failure store ≡ (false, store))
lost_lease_example =
    lost_lease-writes_nothing 2 8 retry failure store
      ((λ i o. cc o), ((λ i o. cc o), ((λ i o. cc o), tt)))
