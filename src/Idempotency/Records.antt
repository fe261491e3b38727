-- ===== src/Idempotency/Records.antt =====
-- The data model: one Redis hash per record, with the time at which Redis expires it.
use jonoob_part_backend.Common.{
  ℕ, ◌+◌, Option, none, some, leb, leb, ◌==◌, if◌then◌else◌, Result, ok, err,
}

pub data RecordState : Type 0 where
  in_flight completed : RecordState

pub record Entry (Text : Type 0) : Type 0 where
  pub state : RecordState
  pub fingerprint : ℕ
  pub owner : Option ℕ
  pub response : Option Text
  pub expires_at : ℕ

-- Redis: the hash under each key.
abbrev pub Redis : Type 0 → Type 0
Redis Text = ℕ → Option (Entry Text)

abbrev pub set_key : {Text : Type 0} → ℕ → Option (Entry Text) → Redis Text → Redis Text
set_key key e redis k = if k == key then e else redis k

abbrev pub alive : {Text : Type 0} → ℕ → Option (Entry Text) → Option (Entry Text)
alive now none = none
alive now (some e) = if leb now e.expires_at then some e else none

-- The hash under a key, which is gone once it has expired.
abbrev pub live : {Text : Type 0} → ℕ → ℕ → Redis Text → Option (Entry Text)
live now key redis = alive now (redis key)

-- A duration: whole milliseconds, a fraction above whole ones, or a number that is negative, infinite
-- or none.
pub data Millis : Type 0 where
  whole above : ℕ → Millis
  improper : Millis

pub data StoreError : Type 0 where
  range_error no_response : StoreError

unfoldable pub to_whole_ms : Millis → Result StoreError ℕ
to_whole_ms (whole n) = if leb 1 n then ok n else err range_error
to_whole_ms (above n) = ok (n + 1)
to_whole_ms improper = err range_error
