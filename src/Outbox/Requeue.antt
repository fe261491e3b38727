-- ===== src/Outbox/Requeue.antt =====
-- A message that is buried and requeued comes back at its place.
use jonoob_part_backend.Common.{ℕ, Bool, false, ◌&&◌, none, some, [], ◌∷◌, ltb, ◌==◌, eq_some, mem}
use jonoob_part_backend.Outbox.Tables.{MessageRow, DeadLetterRow}
use jonoob_part_backend.Outbox.Relay.{DeadLetterUpdate, to_dead_letter_row}
use jonoob_part_backend.Outbox.DeadLetters.{DeadLetterFilter, given, requeued}

-- The filter of one dead letter by its id.
abbrev pub by_id : ℕ → DeadLetterFilter
by_id id = record {
  ids = some (id ∷ []);
  topic = none;
  key = none;
  failed_before = none;
  is_all = false;
}

-- Its condition.
abbrev given_by_id : ℕ → DeadLetterRow → Bool
given_by_id id d =
    given (mem d.id) (by_id id).ids
    && given (λ t. d.topic == t) (by_id id).topic
    && given (λ k. eq_some d.key (some k)) (by_id id).key
    && given (λ t. ltb d.failed_at t) (by_id id).failed_before

-- What burying and requeueing make of a row: due now, with no attempts and no lease, the error kept.
abbrev pub revived : DeadLetterUpdate → ℕ → MessageRow → MessageRow
revived u now row = requeued now (to_dead_letter_row u row)
