-- ===== src/RateLimit/Tests.antt =====
-- Runs of the rate limit.
use jonoob_part_backend.Common.{ℕ, ◌≡◌, refl, none, List, [], ◌∷◌, err, arith}
use jonoob_part_backend.RateLimit.Values.{Redis}
use jonoob_part_backend.RateLimit.Algorithms.{token_bucket, fixed_window, sliding_window_log}
use jonoob_part_backend.RateLimit.Script.{Rule, check_and_consume}
use jonoob_part_backend.RateLimit.Service.{
  duplicate_key, assert_valid_rules, run, attempt, check, reset,
}
use jonoob_part_backend.RateLimit.Checking.{Follows, attempt-Follows}
use jonoob_part_backend.RateLimit.Deciding.{Decides, run-Decides}

abbrev empty : Redis
empty key = none

abbrev both : List Rule
both =
    record { key = 1; config = sliding_window_log 3 60 }
    ∷ record { key = 2; config = token_bucket 2 1 }
    ∷ []

duplicate_refused :
    (attempt 0 1 (record { key = 1; config = fixed_window 1 1 } ∷ both) empty).0 ≡ err duplicate_key
unfolding attempt run assert_valid_rules
duplicate_refused = refl

reset_clears : (key : ℕ) (redis : Redis) → reset key redis key ≡ none
unfolding reset
reset_clears key redis = ground arith

attempt-Follows_example :
    ((check 0 1 both empty).1 ≡ empty)
    × Follows (check 0 1 both empty).0 (attempt 0 1 both empty) empty
attempt-Follows_example = attempt-Follows 0 1 both empty

run-Decides_example :
    Decides 0 1 empty check_and_consume both (run check_and_consume 0 1 both empty)
unfolding assert_valid_rules
run-Decides_example =
    run-Decides 0 1 empty check_and_consume (record { key = 1; config = sliding_window_log 3 60 })
      (record { key = 2; config = token_bucket 2 1 } ∷ []) refl (refl, (refl, tt))
