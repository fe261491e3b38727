-- ===== src/Outbox/Relay.antt =====
-- What a relay does with the messages that it leases: `markPublished`, `reschedule`,
-- `deadLetter` and `release`. Each is fenced by the lease's owner.
use jonoob_part_backend.Common.{
  ℕ, Bool, true, false, ◌&&◌, none, some, List, [], ◌∷◌, ◌++◌, ◌==◌, if◌then◌else◌, eq_some, length,
  filter, mem,
}
use jonoob_part_backend.Outbox.Tables.{
  Attempt, MessageRow, DeadLetterRow, Store, delete_where, update_where,
}

-- `leasedBy`: the fence of every write of a relay.
abbrev pub leased_by : ℕ → ℕ → MessageRow → Bool
leased_by id owner row = row.id == id && eq_some row.lease_owner (some owner)

-- `deleted.length === 1`
unfoldable pub mark_published : ℕ → ℕ → Store → Bool × Store
mark_published id owner s = (
  length (filter (leased_by id owner) s.messages) == 1,
  record s { messages = delete_where (leased_by id owner) s.messages },
)

pub record RescheduleUpdate : Type 0 where
  pub attempts : ℕ
  pub available_at : ℕ
  pub error : Attempt

abbrev pub rescheduled : RescheduleUpdate → MessageRow → MessageRow
rescheduled u row = record row {
  attempts = u.attempts;
  available_at = u.available_at;
  last_error = some u.error.error;
  history = row.history ++ (u.error ∷ []);
  lease_owner = none;
  lease_until = none;
}

unfoldable pub reschedule : ℕ → ℕ → RescheduleUpdate → Store → Bool × Store
reschedule id owner u s = (
  length (filter (leased_by id owner) s.messages) == 1,
  record s { messages = update_where (leased_by id owner) (rescheduled u) s.messages },
)

pub record DeadLetterUpdate : Type 0 where
  pub attempts : ℕ
  pub error : Attempt
  pub reason : ℕ
  pub failed_at : ℕ

abbrev pub to_dead_letter_row : DeadLetterUpdate → MessageRow → DeadLetterRow
to_dead_letter_row u row = record {
  id = row.id;
  seq = row.seq;
  topic = row.topic;
  payload = row.payload;
  headers = row.headers;
  key = row.key;
  created_at = row.created_at;
  attempts = u.attempts;
  last_error = some u.error.error;
  history = row.history ++ (u.error ∷ []);
  reason = u.reason;
  failed_at = u.failed_at;
}

-- `INSERT ... ON CONFLICT (id) DO UPDATE`
abbrev pub upsert_dead_letter : DeadLetterRow → List DeadLetterRow → List DeadLetterRow
upsert_dead_letter d [] = d ∷ []
upsert_dead_letter d (e ∷ rest) = if e.id == d.id then d ∷ rest else e ∷ upsert_dead_letter d rest

-- The first row that the delete returns, if any, becomes the dead letter.
abbrev pub bury : DeadLetterUpdate → List MessageRow → Store → Store → Bool × Store
bury u [] s s' = (false, s)
bury u (row ∷ _) s s' = (
  true,
  record s' { dead_letters = upsert_dead_letter (to_dead_letter_row u row) s.dead_letters },
)

unfoldable pub dead_letter : ℕ → ℕ → DeadLetterUpdate → Store → Bool × Store
dead_letter id owner u s =
    bury u (filter (leased_by id owner) s.messages) s
      (record s { messages = delete_where (leased_by id owner) s.messages })

abbrev pub unleased : MessageRow → MessageRow
unleased row = record row { lease_owner = none; lease_until = none }

abbrev pub releasable : List ℕ → ℕ → MessageRow → Bool
releasable ids owner row = eq_some row.lease_owner (some owner) && mem row.id ids

unfoldable pub release : List ℕ → ℕ → Store → ℕ × Store
release ids owner s = (
  length (filter (releasable ids owner) s.messages),
  record s { messages = update_where (releasable ids owner) unleased s.messages },
)
