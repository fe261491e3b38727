-- ===== src/Outbox/DeadLetters.antt =====
-- The administration of dead letters: the filter, `requeueDeadLetters`, `purgeDeadLetters`.
use jonoob_part_backend.Common.{
  ℕ, Bool, true, false, not, ◌&&◌, ◌||◌, Option, none, some, List, [], ◌∷◌, map, ltb, ◌==◌,
  if◌then◌else◌, eq_some, length, filter, mem, Result, ok, err,
}
use jonoob_part_backend.Outbox.Tables.{MessageRow, DeadLetterRow, Store, delete_where}

-- The dead-letter filter of the administration calls.
pub record DeadLetterFilter : Type 0 where
  pub ids : Option (List ℕ)
  pub topic : Option ℕ
  pub key : Option ℕ
  pub failed_before : Option ℕ
  pub is_all : Bool

-- Each given field is a condition; one that is not given holds of every row.
abbrev pub given {ℓ} : {A : Type ℓ} → (A → Bool) → Option A → Bool
given p none = true
given p (some a) = p a

abbrev pub is_given {ℓ} : {A : Type ℓ} → Option A → Bool
is_given none = false
is_given (some _) = true

pub data FilterError : Type 0 where
  empty_filter : FilterError

-- `deadLetterFilter`: the condition, or the refusal of an empty filter.
unfoldable pub dead_letter_filter : DeadLetterFilter → Result FilterError (DeadLetterRow → Bool)
dead_letter_filter f =
    if not (is_given f.ids || is_given f.topic || is_given f.key || is_given f.failed_before)
      && not f.is_all
    then err empty_filter
    else ok λ d.
      given (mem d.id) f.ids
      && given (λ t. d.topic == t) f.topic
      && given (λ k. eq_some d.key (some k)) f.key
      && given (λ t. ltb d.failed_at t) f.failed_before

-- The row that a requeue inserts: the original `seq`, due now; `attempts` and the lease take the
-- columns' defaults.
abbrev pub requeued : ℕ → DeadLetterRow → MessageRow
requeued now d = record {
  seq = d.seq;
  id = d.id;
  topic = d.topic;
  payload = d.payload;
  headers = d.headers;
  key = d.key;
  created_at = d.created_at;
  available_at = now;
  attempts = 0;
  last_error = d.last_error;
  history = d.history;
  lease_owner = none;
  lease_until = none;
}

-- An inserted row stands at its place in primary-key order.
abbrev pub insert_row : MessageRow → List MessageRow → List MessageRow
insert_row r [] = r ∷ []
insert_row r (x ∷ xs) = if ltb r.seq x.seq then r ∷ x ∷ xs else x ∷ insert_row r xs

abbrev pub insert_rows : List MessageRow → List MessageRow → List MessageRow
insert_rows [] t = t
insert_rows (r ∷ rs) t = insert_rows rs (insert_row r t)

-- The transaction of a requeue, under the filter's condition.
unfoldable pub requeue_where : (DeadLetterRow → Bool) → ℕ → Store → ℕ × Store
requeue_where p now s =
    let rows = filter p s.dead_letters in
    (
      length rows,
      record s {
        messages = insert_rows (map (requeued now) rows) s.messages;
        dead_letters = delete_where p s.dead_letters;
      },
    )

unfoldable pub requeue_dead_letters : DeadLetterFilter → ℕ → Store → Result FilterError (ℕ × Store)
unfolding dead_letter_filter requeue_where
requeue_dead_letters f now s = elim (dead_letter_filter f) [
  | err e ↦ err e
  | ok p ↦ ok (requeue_where p now s)
]

unfoldable pub purge_dead_letters : DeadLetterFilter → Store → Result FilterError (ℕ × Store)
unfolding dead_letter_filter
purge_dead_letters f s = elim (dead_letter_filter f) [
  | err e ↦ err e
  | ok p ↦
      ok (
        length (filter p s.dead_letters),
        record s { dead_letters = delete_where p s.dead_letters },
      )
]
