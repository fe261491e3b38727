-- ===== src/Idempotency/Scripts.antt =====
-- The four scripts, each run at one time of Redis's clock.
use jonoob_part_backend.Common.{
  ℕ, ◌+◌, Bool, true, false, Option, none, some, eq_some, if◌then◌else◌,
}
use jonoob_part_backend.Idempotency.Records.{
  RecordState, in_flight, completed, Entry, Redis, set_key, live,
}

pub data Reply (Text : Type 0) : Type 0 where
  reply_acquired : Reply Text
  reply_record : RecordState → (fingerprint : ℕ) → Option Text → Reply Text

module _ {Text : Type 0} where
  -- `HGET key owner`
  abbrev pub owner_of : Option (Entry Text) → Option ℕ
  owner_of none = none
  owner_of (some e) = e.owner

  abbrev pub new_lock : ℕ → ℕ → ℕ → Entry Text
  new_lock fingerprint owner expires_at = record {
    state = in_flight;
    fingerprint = fingerprint;
    owner = some owner;
    response = none;
    expires_at = expires_at;
  }

  abbrev pub acquire_on :
      ℕ → ℕ → ℕ → ℕ → ℕ → Redis Text → Option (Entry Text) → Reply Text × Redis Text
  acquire_on now key fingerprint owner ms redis none =
      (reply_acquired, set_key key (some (new_lock fingerprint owner (now + ms))) redis)
  acquire_on now key fingerprint owner ms redis (some e) =
      (reply_record e.state e.fingerprint e.response, redis)

  unfoldable pub acquire_script : ℕ → ℕ → ℕ → ℕ → ℕ → Redis Text → Reply Text × Redis Text
  acquire_script now key fingerprint owner ms redis =
      acquire_on now key fingerprint owner ms redis (live now key redis)

  -- The owner's check, and the write that it guards.
  abbrev pub if_owned :
      ℕ
      → ℕ
      → (Entry Text → Option (Entry Text))
      → Redis Text
      → Option (Entry Text)
      → Bool × Redis Text
  if_owned key owner f redis none = (false, redis)
  if_owned key owner f redis (some e) =
      if eq_some e.owner (some owner) then (true, set_key key (f e) redis) else (false, redis)

  unfoldable pub complete_script : ℕ → ℕ → ℕ → Text → ℕ → Redis Text → Bool × Redis Text
  complete_script now key owner text ms redis =
      if_owned key owner
        (λ e. some (record e {
          state = completed;
          response = some text;
          owner = none;
          expires_at = now + ms;
        }))
        redis (live now key redis)

  unfoldable pub release_script : ℕ → ℕ → ℕ → Redis Text → Bool × Redis Text
  release_script now key owner redis = if_owned key owner (λ e. none) redis (live now key redis)

  unfoldable pub extend_script : ℕ → ℕ → ℕ → ℕ → Redis Text → Bool × Redis Text
  extend_script now key owner ms redis =
      if_owned key owner (λ e. some (record e { expires_at = now + ms })) redis (live now key redis)
