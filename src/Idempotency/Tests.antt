-- ===== src/Idempotency/Tests.antt =====
-- Runs of the store on two keys.
use jonoob_part_backend.Common.{ℕ, ◌≡◌, refl, true, false, none, List, [], ◌∷◌, ok, err, arith}
use jonoob_part_backend.Idempotency.Records.{Redis, whole, above, range_error, to_whole_ms}
use jonoob_part_backend.Idempotency.Scripts.{new_lock}
use jonoob_part_backend.Idempotency.Methods.{
  acquired, is_in_flight, is_completed, Json, acquire, complete, release, extend,
}
use jonoob_part_backend.Idempotency.Calls.{Call, call_acquire, call_complete, call_release, run_all}
use jonoob_part_backend.Idempotency.Replays.{lock_excludes, completed_replays}
use jonoob_part_backend.Idempotency.Fencing.{lost_lock-writes_nothing}

-- Payloads that are their own text.
abbrev plain : Json ℕ ℕ
plain = record { stringify = λ p. p; parse = λ t. t; is_empty = λ t. false }

abbrev empty : Redis ℕ
empty key = none

-- Key 1, held by attempt 5 until 100.
abbrev locked : Redis ℕ
locked = (acquire plain 0 1 5 9 (whole 100) empty).1

to_whole_ms_rounds : to_whole_ms (above 0) ≡ ok 1
unfolding to_whole_ms
to_whole_ms_rounds = refl

to_whole_ms_refuses : to_whole_ms (whole 0) ≡ err range_error
unfolding to_whole_ms
to_whole_ms_refuses = refl

abbrev others : List (Call ℕ)
others =
    call_acquire 10 1 6 9 (whole 50)
    ∷ call_complete 20 1 6 77 (whole 500)
    ∷ call_release 30 1 6
    ∷ call_acquire 40 2 6 8 (above 3)
    ∷ []

lock_excludes_example :
    let redis2 = run_all plain others locked in
    ((acquire plain 0 1 5 9 (whole 100) empty).0 ≡ ok acquired)
    × (acquire plain 99 1 7 4 (whole 10) redis2 ≡ (ok (is_in_flight 9), redis2))
unfolding to_whole_ms
lock_excludes_example =
    lock_excludes plain 0 1 5 9 100 (whole 100) empty others 99 7 4 10 (whole 10) refl refl
      (ground arith, ((ground arith, refl), ((ground arith, refl), (ground arith, tt))))
      (ground arith) refl

completed_replays_example :
    let (done, redis1) = complete plain 50 1 5 77 (whole 1000) locked in
    let redis2 = run_all plain others redis1 in
    (done ≡ ok true)
    × (acquire plain 900 1 7 4 (whole 10) redis2 ≡ (ok (is_completed 9 77), redis2))
unfolding to_whole_ms acquire
completed_replays_example =
    completed_replays plain 50 1 5 1000 (new_lock 9 5 100) 77 (whole 1000) locked others 900 7 4 10
      (whole 10) refl refl refl refl refl
      (ground arith, ((ground arith, refl), ((ground arith, refl), (ground arith, tt))))
      (ground arith) refl

-- Attempt 6 never held key 1.
lost_lock_example :
    let redis' =
      run_all plain (call_release 60 1 5 ∷ call_acquire 70 1 7 9 (whole 50) ∷ []) locked in
    (complete plain 80 1 6 77 (whole 10) redis' ≡ (ok false, redis'))
    × (release plain 80 1 6 redis' ≡ (ok false, redis'))
    × (extend plain 80 1 6 (whole 10) redis' ≡ (ok false, redis'))
unfolding to_whole_ms acquire
lost_lock_example =
    lost_lock-writes_nothing plain 1 6 80 10 77 (whole 10) locked
      (call_release 60 1 5 ∷ call_acquire 70 1 7 9 (whole 50) ∷ []) refl (tt, (refl, tt)) refl
