-- ===== src/RateLimit/Script.antt =====
-- The script of infrastructure/rate-limit/src/lua-scripts.constant.ts over all rules of a call.
use jonoob_part_backend.Common.{
  ℕ, ◌+◌, ◌-◌, Bool, true, false, ◌&&◌, not, Option, none, some, List, [], ◌∷◌, ltb, if◌then◌else◌,
  Result, ok, err,
}
use jonoob_part_backend.RateLimit.Values.{Redis}
use jonoob_part_backend.RateLimit.Algorithms.{Config, ScriptError, Eval, evaluate}

-- `RateLimitRule`; the empty key is 0.
pub record Rule : Type 0 where
  pub key : ℕ
  pub config : Config

-- An evaluated rule and its place, from 1.
pub record Indexed : Type 0 where
  pub index : ℕ
  pub eval : Eval

unfoldable pub evaluate_all : ℕ → ℕ → ℕ → List Rule → Redis → Result ScriptError (List Indexed)
evaluate_all now id i [] redis = ok []
evaluate_all now id i (r ∷ rs) redis = elim (evaluate now id r.key r.config redis) [
  | err e ↦ err e
  | ok x ↦ elim (evaluate_all now id (i + 1) rs redis) [
    | err e ↦ err e
    | ok xs ↦ ok (record { index = i; eval = x } ∷ xs)
  ]
]

abbrev pub retries_later : Option Indexed → Indexed → Bool
retries_later none r = true
retries_later (some w) r = ltb w.eval.retry r.eval.retry

unfoldable pub worse : Option Indexed → Indexed → Option Indexed
worse w r = if not r.eval.allowed && retries_later w r then some r else w

-- The rejected rule with the longest wait, the first of several.
unfoldable pub worst_of : Option Indexed → List Indexed → Option Indexed
unfolding worse
worst_of w [] = w
worst_of w (r ∷ rs) = worst_of (worse w r) rs

unfoldable pub tighter : Indexed → Indexed → Indexed
tighter t r = if ltb r.eval.available t.eval.available then r else t

-- The rule with the fewest requests left, the first of several.
unfoldable pub tightest_of : Indexed → List Indexed → Indexed
unfolding tighter
tightest_of t [] = t
tightest_of t (r ∷ rs) = tightest_of (tighter t r) rs

unfoldable pub commit_all : List Indexed → Redis → Redis
commit_all [] redis = redis
commit_all (r ∷ rs) redis = commit_all rs (r.eval.commit redis)

-- The reply: whether the request is allowed, the rule's place, and its numbers.
pub record Reply : Type 0 where
  pub allowed : Bool
  pub index : ℕ
  pub remaining : ℕ
  pub limit : ℕ
  pub retry_after : ℕ

pub data Mode : Type 0 where
  check_only : Mode
  check_and_consume : Mode

abbrev pub reject : Indexed → Reply
reject w = record {
  allowed = false;
  index = w.index;
  remaining = w.eval.available;
  limit = w.eval.limit;
  retry_after = w.eval.retry;
}

abbrev pub accept : Indexed → ℕ → Reply
accept t remaining = record {
  allowed = true;
  index = t.index;
  remaining = remaining;
  limit = t.eval.limit;
  retry_after = 0;
}

abbrev pub answer_with : Mode → Indexed → List Indexed → Redis → Reply × Redis
answer_with check_only t evals redis = (accept t t.eval.available, redis)
answer_with check_and_consume t evals redis =
    (accept t (t.eval.available - 1), commit_all evals redis)

-- The part after the loop, for at least one rule.
unfoldable pub decide : Mode → Indexed → List Indexed → Redis → Reply × Redis
unfolding worst_of tightest_of commit_all
decide mode r rs redis = elim (worst_of none (r ∷ rs)) [
  | some w ↦ (reject w, redis)
  | none ↦ answer_with mode (tightest_of r rs) (r ∷ rs) redis
]

-- The script on at least one key.
unfoldable pub script : Mode → ℕ → ℕ → Rule → List Rule → Redis → Result ScriptError Reply × Redis
unfolding evaluate evaluate_all decide
script mode now id rule rules redis = elim (evaluate now id rule.key rule.config redis) [
  | err e ↦ (err e, redis)
  | ok x ↦ elim (evaluate_all now id 2 rules redis) [
    | err e ↦ (err e, redis)
    | ok xs ↦
        let (reply, redis') = decide mode (record { index = 1; eval = x }) xs redis in
        (ok reply, redis')
  ]
]
