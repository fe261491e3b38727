-- ===== src/Outbox/Tables.antt =====
-- The rows of the outbox tables, the SQL statements in list form, and `DrizzleOutboxStore.add`.
use jonoob_part_backend.Common.{
  ℕ, ◌+◌, Bool, not, Option, none, List, [], ◌∷◌, ◌++◌, map, if◌then◌else◌, filter, any, ◌==◌,
  Result, ok, err,
}

-- An entry of `history`; the store reads its error text.
pub record Attempt : Type 0 where
  pub error : ℕ

-- `outbox_messages`
pub record MessageRow : Type 0 where
  pub seq : ℕ
  pub id : ℕ
  pub topic : ℕ
  pub payload : ℕ
  pub headers : ℕ
  pub key : Option ℕ
  pub created_at : ℕ
  pub available_at : ℕ
  pub attempts : ℕ
  pub last_error : Option ℕ
  pub history : List Attempt
  pub lease_owner : Option ℕ
  pub lease_until : Option ℕ

-- `outbox_dead_letters`
pub record DeadLetterRow : Type 0 where
  pub id : ℕ
  pub seq : ℕ
  pub topic : ℕ
  pub payload : ℕ
  pub headers : ℕ
  pub key : Option ℕ
  pub created_at : ℕ
  pub attempts : ℕ
  pub last_error : Option ℕ
  pub history : List Attempt
  pub reason : ℕ
  pub failed_at : ℕ

-- `outbox_inbox`
pub record InboxRow : Type 0 where
  pub consumer : ℕ
  pub message_id : ℕ
  pub processed_at : ℕ

-- The database as the store sees it.
pub record Store : Type 0 where
  pub messages : List MessageRow
  pub dead_letters : List DeadLetterRow
  pub inbox : List InboxRow
  -- the next value of the identity column `seq`
  pub next_seq : ℕ

-- A message of the outbox library, as `toMessage` builds it.
pub record Message : Type 0 where
  pub id : ℕ
  pub topic : ℕ
  pub payload : ℕ
  pub headers : ℕ
  pub key : Option ℕ
  pub created_at : ℕ
  pub available_at : ℕ
  pub attempts : ℕ
  pub last_error : Option ℕ

-- `OutboxTransactionRequiredError`
pub data TransactionError : Type 0 where
  transaction_required unique_violation : TransactionError

-- A new row: the columns that the insert names, and the defaults of the others.
abbrev pub new_row : ℕ → Message → MessageRow
new_row seq m = record {
  seq = seq;
  id = m.id;
  topic = m.topic;
  payload = m.payload;
  headers = m.headers;
  key = m.key;
  created_at = m.created_at;
  available_at = m.available_at;
  attempts = 0;
  last_error = none;
  history = [];
  lease_owner = none;
  lease_until = none;
}

-- The rows of one insert, numbered by the identity column; the new numbers are the largest. An id
-- that stands in the table, or twice in the insert, is refused.
add_rows : List Message → Store → Result TransactionError Store
add_rows [] s = ok s
add_rows (m ∷ ms) s =
    let rest = add_rows ms (record s {
      messages = s.messages ++ (new_row s.next_seq m ∷ []);
      next_seq = s.next_seq + 1;
    }) in
    if any (λ row. row.id == m.id) s.messages then err unique_violation else rest

-- `add`: `is_transaction` is `assertTransaction`'s test. The advisory locks are waits.
unfoldable pub add : Bool → List Message → Store → Result TransactionError Store
unfolding add_rows
add is_transaction ms s = if is_transaction then add_rows ms s else err transaction_required

unfoldable pub to_message : MessageRow → Message
to_message row = record {
  id = row.id;
  topic = row.topic;
  payload = row.payload;
  headers = row.headers;
  key = row.key;
  created_at = row.created_at;
  available_at = row.available_at;
  attempts = row.attempts;
  last_error = row.last_error;
}

-- `DELETE ... WHERE p RETURNING`: what stays; what is returned is `filter p`.
abbrev pub delete_where {ℓ} : {A : Type ℓ} → (A → Bool) → List A → List A
delete_where p = filter (λ x. not (p x))

-- `UPDATE ... SET f WHERE p`
abbrev pub update_where {ℓ} : {A : Type ℓ} → (A → Bool) → (A → A) → List A → List A
update_where p f = map (λ x. if p x then f x else x)
