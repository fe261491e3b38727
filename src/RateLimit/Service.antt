-- ===== src/RateLimit/Service.antt =====
-- infrastructure/rate-limit/src/redis-rate-limit.service.ts.
use jonoob_part_backend.Common.{
  ℕ, ◌-◌, Bool, true, ◌&&◌, not, Option, none, some, List, [], ◌∷◌, ◌==◌, mem, if◌then◌else◌,
  Result, ok, err,
}
use jonoob_part_backend.RateLimit.Values.{Redis, set_key}
use jonoob_part_backend.RateLimit.Algorithms.{
  Config, token_bucket, fixed_window, sliding_window_log, sliding_window_counter, ScriptError,
}
use jonoob_part_backend.RateLimit.Script.{Rule, Mode, check_only, check_and_consume, Reply, script}

pub data RateLimitError : Type 0 where
  empty_key : RateLimitError
  duplicate_key : RateLimitError
  not_positive : RateLimitError
  script_failed : ScriptError → RateLimitError
  invalid_index : RateLimitError

-- `RateLimitDecision`; no number stands for infinity.
pub record Decision : Type 0 where
  pub allowed : Bool
  pub key : ℕ
  pub remaining : Option ℕ
  pub limit : Option ℕ
  pub retry_after : ℕ

abbrev pub unlimited : Decision
unlimited = record { allowed = true; key = 0; remaining = none; limit = none; retry_after = 0 }

abbrev pub is_positive : ℕ → Bool
is_positive n = not (n == 0)

abbrev pub is_valid_config : Config → Bool
is_valid_config (token_bucket max_tokens rate) = is_positive max_tokens && is_positive rate
is_valid_config (fixed_window limit window) = is_positive window && is_positive limit
is_valid_config (sliding_window_log limit window) = is_positive window && is_positive limit
is_valid_config (sliding_window_counter limit window) = is_positive window && is_positive limit

-- `assertValidRules`, with the keys seen so far.
unfoldable pub assert_valid_rules : List ℕ → List Rule → Option RateLimitError
assert_valid_rules seen [] = none
assert_valid_rules seen (r ∷ rs) =
    if r.key == 0
    then some empty_key
    else if mem r.key seen
    then some duplicate_key
    else if is_valid_config r.config
    then assert_valid_rules (r.key ∷ seen) rs
    else some not_positive

-- `rules[index - 1]`
unfoldable pub rule_at : ℕ → List Rule → Option Rule
rule_at i [] = none
rule_at i (r ∷ rs) = if i == 1 then some r else rule_at (i - 1) rs

abbrev pub decision_of : Reply → Option Rule → Result RateLimitError Decision
decision_of reply none = err invalid_index
decision_of reply (some rule) = ok (record {
  allowed = reply.allowed;
  key = rule.key;
  remaining = some reply.remaining;
  limit = some reply.limit;
  retry_after = reply.retry_after;
})

abbrev pub read_reply : List Rule → Result ScriptError Reply → Result RateLimitError Decision
read_reply rules (err e) = err (script_failed e)
read_reply rules (ok reply) = decision_of reply (rule_at reply.index rules)

unfoldable pub run : Mode → ℕ → ℕ → List Rule → Redis → Result RateLimitError Decision × Redis
unfolding assert_valid_rules script rule_at
run mode now id [] redis = (ok unlimited, redis)
run mode now id (rule ∷ rules) redis = elim (assert_valid_rules [] (rule ∷ rules)) [
  | some e ↦ (err e, redis)
  | none ↦
      let (reply, redis') = script mode now id rule rules redis in
      (read_reply (rule ∷ rules) reply, redis')
]

unfoldable pub attempt : ℕ → ℕ → List Rule → Redis → Result RateLimitError Decision × Redis
unfolding run
attempt now id rules redis = run check_and_consume now id rules redis

unfoldable pub check : ℕ → ℕ → List Rule → Redis → Result RateLimitError Decision × Redis
unfolding run
check now id rules redis = run check_only now id rules redis

unfoldable pub consume : ℕ → ℕ → ℕ → Config → Redis → Result RateLimitError Decision × Redis
unfolding attempt
consume now id key config redis = attempt now id (record { key = key; config = config } ∷ []) redis

unfoldable pub reset : ℕ → Redis → Redis
reset key redis = set_key key none redis
