-- ===== src/Idempotency/Methods.antt =====
-- `RedisIdempotencyStore`. `JSON.stringify`, `JSON.parse` and the test for an empty text are
-- parameters.
use jonoob_part_backend.Common.{ℕ, Bool, none, some, if◌then◌else◌, Result, ok, err}
use jonoob_part_backend.Idempotency.Records.{
  in_flight, completed, Redis, Millis, StoreError, no_response, to_whole_ms,
}
use jonoob_part_backend.Idempotency.Scripts.{
  Reply, reply_acquired, reply_record, acquire_script, complete_script, release_script,
  extend_script,
}

pub data AcquireResult (Payload : Type 0) : Type 0 where
  acquired : AcquireResult Payload
  is_in_flight : (fingerprint : ℕ) → AcquireResult Payload
  is_completed : (fingerprint : ℕ) → Payload → AcquireResult Payload

pub record Json (Payload Text : Type 0) : Type 0 where
  pub stringify : Payload → Text
  pub parse : Text → Payload
  pub is_empty : Text → Bool

module _ {Payload Text : Type 0} (json : Json Payload Text) where
  -- What `acquire` makes of the script's reply.
  unfoldable pub read_reply : Reply Text → Result StoreError (AcquireResult Payload)
  read_reply reply_acquired = ok acquired
  read_reply (reply_record completed fingerprint none) = err no_response
  read_reply (reply_record completed fingerprint (some text)) =
      if json.is_empty text
      then err no_response
      else ok (is_completed fingerprint (json.parse text))
  read_reply (reply_record in_flight fingerprint text) = ok (is_in_flight fingerprint)

  -- A duration that is refused is refused before the script is sent.
  abbrev pub with_ms :
      {A : Type 0}
      → Redis Text
      → Result StoreError ℕ
      → (ℕ → Result StoreError A × Redis Text)
      → Result StoreError A × Redis Text
  with_ms redis (err e) f = (err e, redis)
  with_ms redis (ok ms) f = f ms

  abbrev pub answer : {A : Type 0} → A × Redis Text → Result StoreError A × Redis Text
  answer (a, redis) = (ok a, redis)

  abbrev pub answer_reply :
      Reply Text × Redis Text → Result StoreError (AcquireResult Payload) × Redis Text
  answer_reply (reply, redis) = (read_reply reply, redis)

  unfoldable pub acquire :
      ℕ → ℕ → ℕ → ℕ → Millis → Redis Text → Result StoreError (AcquireResult Payload) × Redis Text
  unfolding to_whole_ms acquire_script read_reply
  acquire now key owner fingerprint lock_ttl redis =
      with_ms redis (to_whole_ms lock_ttl)
        λ ms. answer_reply (acquire_script now key fingerprint owner ms redis)

  unfoldable pub complete :
      ℕ → ℕ → ℕ → Payload → Millis → Redis Text → Result StoreError Bool × Redis Text
  unfolding to_whole_ms complete_script
  complete now key owner response ttl redis =
      with_ms redis (to_whole_ms ttl)
        λ ms. answer (complete_script now key owner (json.stringify response) ms redis)

  unfoldable pub release : ℕ → ℕ → ℕ → Redis Text → Result StoreError Bool × Redis Text
  unfolding release_script
  release now key owner redis = answer (release_script now key owner redis)

  unfoldable pub extend : ℕ → ℕ → ℕ → Millis → Redis Text → Result StoreError Bool × Redis Text
  unfolding to_whole_ms extend_script
  extend now key owner lock_ttl redis =
      with_ms redis (to_whole_ms lock_ttl) λ ms. answer (extend_script now key owner ms redis)
