-- ===== src/Idempotency/Replays.antt =====
-- One attempt at a time, and the replay of its result.
use jonoob_part_backend.Common.{
  ℕ, ◌+◌, ◌≤◌, ◌≡◌, refl, true, false, Option, none, some, List, All, ◌==◌, eq_some, ok, arith,
}
use jonoob_part_backend.Idempotency.Records.{
  completed, Entry, Redis, set_key, live, Millis, to_whole_ms,
}
use jonoob_part_backend.Idempotency.Scripts.{new_lock, acquire_script, complete_script}
use jonoob_part_backend.Idempotency.Methods.{
  acquired, is_in_flight, is_completed, Json, acquire, complete, read_reply,
}
use jonoob_part_backend.Idempotency.Calls.{Call, run_all}
use jonoob_part_backend.Idempotency.Locks.{Spares, run_all-Spares, live_of}

-- The record of a completed attempt.
abbrev pub completed_entry : {Text : Type 0} → Entry Text → Text → ℕ → Entry Text
completed_entry e text expires_at = record e {
  state = completed;
  response = some text;
  owner = none;
  expires_at = expires_at;
}

module _ {Payload Text : Type 0} (json : Json Payload Text) where
  set-get : (key : ℕ) (x : Option (Entry Text)) (redis : Redis Text) → set_key key x redis key ≡ x
  set-get key x redis = let same : (key == key) ≡ true = ground arith in rw same refl

  -- Where a key is free, `acquire` with a proper lock time takes it. Until that time has passed, and
  -- whatever calls others make meanwhile, every further `acquire` of the key answers that the attempt
  -- is in flight, with its fingerprint, and changes nothing.
  pub lock_excludes :
      (now key owner fp ms : ℕ) (ttl : Millis) (redis : Redis Text) (cs : List (Call Payload))
      (later other fp' ms' : ℕ) (ttl' : Millis)
      → to_whole_ms ttl ≡ ok ms
      → live now key redis ≡ none
      → All (Spares {Text = Text} key (new_lock fp owner (now + ms))) cs
      → later ≤ now + ms
      → to_whole_ms ttl' ≡ ok ms'
      → let (r, redis1) = acquire json now key owner fp ttl redis in
        let redis2 = run_all json cs redis1 in
        (r ≡ ok acquired)
        × (acquire json later key other fp' ttl' redis2 ≡ (ok (is_in_flight fp), redis2))
  unfolding acquire acquire_script read_reply
  lock_excludes now key owner fp ms ttl redis cs later other fp' ms' ttl' proper free spares lt
        proper' =
      let e : Entry Text = new_lock fp owner (now + ms) in
      let redis1 = set_key key (some e) redis in
      let held = run_all-Spares json key e cs redis1 (set-get key (some e) redis) spares in
      let seen = live_of json later key (run_all json cs redis1) e held lt in
      rw (proper, free, proper', seen) (refl, refl)

  -- Where the owner's lock is alive, `complete` stores the response. Until the time to keep it has
  -- passed, and whatever calls are made meanwhile, every `acquire` of the key answers that response
  -- with the fingerprint of the first request, and changes nothing. The response is not empty as JSON,
  -- and comes back from JSON as it was.
  pub completed_replays :
      (now key owner ms : ℕ) (e : Entry Text) (response : Payload) (ttl : Millis)
      (redis : Redis Text) (cs : List (Call Payload)) (later other fp' ms' : ℕ) (ttl' : Millis)
      → json.parse (json.stringify response) ≡ response
      → json.is_empty (json.stringify response) ≡ false
      → to_whole_ms ttl ≡ ok ms
      → live now key redis ≡ some e
      → e.owner ≡ some owner
      → All (Spares key (completed_entry e (json.stringify response) (now + ms))) cs
      → later ≤ now + ms
      → to_whole_ms ttl' ≡ ok ms'
      → let (done, redis1) = complete json now key owner response ttl redis in
        let redis2 = run_all json cs redis1 in
        (done ≡ ok true)
        × (acquire json later key other fp' ttl' redis2
            ≡ (ok (is_completed e.fingerprint response), redis2))
  unfolding acquire acquire_script read_reply complete complete_script
  completed_replays now key owner ms e response ttl redis cs later other fp' ms' ttl' same_json full
        proper at own spares lt proper' =
      let d : Entry Text = completed_entry e (json.stringify response) (now + ms) in
      let redis1 = set_key key (some d) redis in
      let owned : eq_some e.owner (some owner) ≡ true = rw own (ground arith) in
      let held = run_all-Spares json key d cs redis1 (set-get key (some d) redis) spares in
      let seen = live_of json later key (run_all json cs redis1) d held lt in
      rw (proper, at, owned, proper', seen, full, same_json) (refl, refl)
