-- ===== src/RateLimit/Checking.antt =====
-- What checking and attempting have in common.
use jonoob_part_backend.Common.{
  ℕ, ◌+◌, ◌-◌, ◌≡◌, refl, subst, arith, All, In-All, inl, inr, true, false, Option, none, some,
  List, [], ◌∷◌, Option-cases, Result, ok, err,
}
use jonoob_part_backend.RateLimit.Values.{Redis}
use jonoob_part_backend.RateLimit.Algorithms.{ScriptError, evaluate}
use jonoob_part_backend.RateLimit.Script.{
  Rule, Indexed, evaluate_all, worst_of, tightest_of, check_only, check_and_consume, decide, script,
}
use jonoob_part_backend.RateLimit.Service.{
  RateLimitError, Decision, assert_valid_rules, rule_at, read_reply, run, attempt, check,
}
use jonoob_part_backend.RateLimit.Choice.{
  Result-cases, tightest_of-IsTightest, Evaluates, evaluated_first, evaluated_later,
}

abbrev pub Answer : Type 0
Answer = Result RateLimitError Decision × Redis

abbrev pub one_less : Option ℕ → Option ℕ
one_less none = none
one_less (some n) = some (n - 1)

-- What an attempt does where a check answers the first argument.
abbrev pub Follows : Result RateLimitError Decision → Answer → Redis → Type 0
Follows (err e) answer redis = answer ≡ (err e, redis)
Follows (ok d) answer redis = elim d.allowed [
  | false ↦ answer ≡ (ok d, redis)
  | true ↦ answer.0 ≡ ok (record d { remaining = one_less d.remaining })
]

-- Every evaluation is of a rule of the list.
evaluate_all-Evaluates :
    (now id i : ℕ) (redis : Redis) (rules : List Rule) (xs : List Indexed)
    → evaluate_all now id i rules redis ≡ ok xs
    → All (Evaluates now id redis i rules) xs
unfolding evaluate_all
evaluate_all-Evaluates now id i redis rules [] e = tt
evaluate_all-Evaluates now id i redis [] (x ∷ xs) e = cc
evaluate_all-Evaluates now id i redis (r ∷ rules) (x ∷ xs) e =
    elim (Result-cases (evaluate now id r.key r.config redis)) [
      | inr (f, h) ↦ cc (rw (h, evaluate_all) at e)
      | inl (y, h) ↦ elim (Result-cases (evaluate_all now id (i + 1) rules redis)) [
        | inr (f, k) ↦ cc (rw (h, k, evaluate_all) at e)
        | inl (ys, k) ↦
            let e' : ◌≡◌ {A = Result ScriptError (List Indexed)}
                (ok (record { index = i; eval = y } ∷ ys)) (ok (x ∷ xs)) =
              rw (h, k, evaluate_all) at e in
            let same : record { index = i; eval = y } ∷ ys ≡ x ∷ xs = cc e' in
            subst (All (Evaluates now id redis i (r ∷ rules))) same (
              evaluated_first now id redis i r rules y h,
              evaluated_later now id redis i r rules ys
                  (evaluate_all-Evaluates now id (i + 1) redis rules ys k),
            )
      ]
    ]

decide-Follows :
    (now id : ℕ) (rules : List Rule) (r : Indexed) (rs : List Indexed) (redis : Redis)
    → All (Evaluates now id redis 1 rules) (r ∷ rs)
    → let checked = decide check_only r rs redis in
      let attempted = decide check_and_consume r rs redis in
      (checked.1 ≡ redis)
      × Follows
          (read_reply rules (ok checked.0))
          (read_reply rules (ok attempted.0), attempted.1)
          redis
unfolding decide
decide-Follows now id rules r rs redis at = elim (Option-cases (worst_of none (r ∷ rs))) [
  | inr (w, e) ↦ elim (Option-cases (rule_at w.index rules)) [
    | inl h ↦ rw (e, h, decide) (refl, refl)
    | inr (rule, h) ↦ rw (e, h, decide) (refl, refl)
  ]
  | inl e ↦
      let t = tightest_of r rs in
      let (rule, place, member, ev, l) =
        In-All (Evaluates now id redis 1 rules) (r ∷ rs) t at (tightest_of-IsTightest r rs).0 in
      let index : t.index + 1 - 1 ≡ t.index = omega arith in
      let found : rule_at t.index rules ≡ some rule = rw index at place in
      rw (e, found, decide) (refl, refl)
]

-- In every state and for all rules: `check` leaves Redis as it was; and `attempt` does the same as
-- `check`, an exception or a rejection with no change to Redis included, except that where `check`
-- allows the request the number of the requests left is one less.
pub attempt-Follows :
    (now id : ℕ) (rules : List Rule) (redis : Redis)
    → ((check now id rules redis).1 ≡ redis)
      × Follows (check now id rules redis).0 (attempt now id rules redis) redis
unfolding check attempt run script
attempt-Follows now id [] redis = (refl, refl)
attempt-Follows now id (rule ∷ rules) redis =
    elim (Option-cases (assert_valid_rules [] (rule ∷ rules))) [
      | inr (f, v) ↦ rw (v, check, attempt, run) (refl, refl)
      | inl v ↦ elim (Result-cases (evaluate now id rule.key rule.config redis)) [
        | inr (f, h) ↦ rw (v, h, check, attempt, run, script) (refl, refl)
        | inl (x, h) ↦ elim (Result-cases (evaluate_all now id 2 rules redis)) [
          | inr (f, k) ↦ rw (v, h, k, check, attempt, run, script) (refl, refl)
          | inl (xs, k) ↦
              rw (v, h, k, check, attempt, run, script)
                (decide-Follows now id (rule ∷ rules) (record { index = 1; eval = x }) xs redis
                  (
                    evaluated_first now id redis 1 rule rules x h,
                    evaluated_later now id redis 1 rule rules xs
                        (evaluate_all-Evaluates now id 2 redis rules xs k),
                  ))
        ]
      ]
    ]
