-- ===== src/Idempotency/Calls.antt =====
-- Calls of any attempts on any keys, in the order in which Redis runs their scripts.
use jonoob_part_backend.Common.{ℕ, List, [], ◌∷◌}
use jonoob_part_backend.Idempotency.Records.{Redis, Millis}
use jonoob_part_backend.Idempotency.Methods.{Json, acquire, complete, release, extend}

pub data Call (Payload : Type 0) : Type 0 where
  call_acquire : (now key owner fingerprint : ℕ) → Millis → Call Payload
  call_complete : (now key owner : ℕ) → Payload → Millis → Call Payload
  call_release : (now key owner : ℕ) → Call Payload
  call_extend : (now key owner : ℕ) → Millis → Call Payload

module _ {Payload Text : Type 0} (json : Json Payload Text) where
  unfoldable pub run : Call Payload → Redis Text → Redis Text
  unfolding acquire complete release extend
  run (call_acquire now key owner fp ttl) redis = (acquire json now key owner fp ttl redis).1
  run (call_complete now key owner response ttl) redis =
      (complete json now key owner response ttl redis).1
  run (call_release now key owner) redis = (release json now key owner redis).1
  run (call_extend now key owner ttl) redis = (extend json now key owner ttl redis).1

  unfoldable pub run_all : List (Call Payload) → Redis Text → Redis Text
  unfolding run
  run_all [] redis = redis
  run_all (c ∷ cs) redis = run_all cs (run c redis)
