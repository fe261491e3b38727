-- ===== src/RateLimit/Deciding.antt =====
-- What a call of the service decides, from what each rule would decide.
use jonoob_part_backend.Common.{
  ℕ, ◌+◌, ◌-◌, ◌≤◌, ◌≡◌, refl, sym, subst, ◌⊎◌, inl, inr, Bool, true, false, Option, none, some,
  List, [], ◌∷◌, All, In, In-All, Result, ok, err, arith,
}
use jonoob_part_backend.RateLimit.Values.{Value, Entry, Redis, live}
use jonoob_part_backend.RateLimit.Algorithms.{
  Config, token_bucket, fixed_window, sliding_window_log, sliding_window_counter, Eval, ScriptError,
  hash_in, counter_in, stamps_in, then_eval, evaluate_on, evaluate,
}
use jonoob_part_backend.RateLimit.Script.{
  Rule, Indexed, evaluate_all, worst_of, tightest_of, answer_with, Mode, check_only,
  check_and_consume, decide, script,
}
use jonoob_part_backend.RateLimit.Service.{
  RateLimitError, Decision, assert_valid_rules, rule_at, read_reply, run,
}
use jonoob_part_backend.RateLimit.Choice.{
  IsWorst, worst_of-IsWorst, IsTightest, tightest_of-IsTightest, Evaluates, evaluated_first,
  evaluated_later,
}

abbrev pub is_ok : {E A : Type 0} → Result E A → Bool
is_ok (ok a) = true
is_ok (err e) = false

-- A value is of the algorithm's kind.
abbrev pub fits : Config → Value → Bool
fits (token_bucket _ _) v = is_ok (hash_in v)
fits (fixed_window _ _) v = is_ok (counter_in v)
fits (sliding_window_log _ _) v = is_ok (stamps_in v)
fits (sliding_window_counter _ _) v = is_ok (hash_in v)

abbrev pub fits_entry : Config → Option Entry → Bool
fits_entry c none = true
fits_entry c (some e) = fits c e.value

then_eval_total :
    {A B : Type 0} (r : Result ScriptError A) (f : A → B)
    → is_ok r ≡ true
    → (b : B) × (then_eval r f ≡ ok b)
then_eval_total (ok a) f h = (f a, refl)
then_eval_total (err e) f h = cc

evaluate_on_total :
    (now id key : ℕ) (c : Config) (e : Option Entry)
    → fits_entry c e ≡ true
    → (x : Eval) × (evaluate_on now id key c e ≡ ok x)
unfolding evaluate_on
evaluate_on_total now id key (token_bucket a b) none h = (_, refl)
evaluate_on_total now id key (fixed_window a b) none h = (_, refl)
evaluate_on_total now id key (sliding_window_log a b) none h = (_, refl)
evaluate_on_total now id key (sliding_window_counter a b) none h = (_, refl)
evaluate_on_total now id key (token_bucket a b) (some e) h = then_eval_total _ _ h
evaluate_on_total now id key (fixed_window a b) (some e) h = then_eval_total _ _ h
evaluate_on_total now id key (sliding_window_log a b) (some e) h = then_eval_total _ _ h
evaluate_on_total now id key (sliding_window_counter a b) (some e) h = then_eval_total _ _ h

module _ (now id : ℕ) (redis : Redis) where
  abbrev pub IsReadable : Rule → Type 0
  IsReadable r = fits_entry r.config (live now r.key redis) ≡ true

  -- What the rule alone answers.
  abbrev pub Answers : Rule → (Eval → Type 0) → Type 0
  Answers r P = (x : Eval) × (evaluate now id r.key r.config redis ≡ ok x) × P x

  evaluate_total :
      (r : Rule) → IsReadable r → (x : Eval) × (evaluate now id r.key r.config redis ≡ ok x)
  unfolding evaluate
  evaluate_total r h = evaluate_on_total now id r.key r.config (live now r.key redis) h

  -- The evaluations stand for the rules in their order.
  abbrev AreOf : List Rule → List Indexed → Type 0
  AreOf [] [] = Unit
  AreOf (r ∷ rs) (x ∷ xs) = (evaluate now id r.key r.config redis ≡ ok x.eval) × AreOf rs xs
  AreOf _ _ = ⊥

  AreOf-Answers :
      (P : Eval → Type 0) (rs : List Rule) (xs : List Indexed)
      → AreOf rs xs
      → All (λ x. P x.eval) xs
      → All (λ r. Answers r P) rs
  AreOf-Answers P [] xs h k = tt
  AreOf-Answers P (r ∷ rs) [] h k = absurd h
  AreOf-Answers P (r ∷ rs) (x ∷ xs) (e, h) (k, ks) = ((x.eval, e, k), AreOf-Answers P rs xs h ks)

  evaluate_all_total :
      (i : ℕ) (rs : List Rule)
      → All IsReadable rs
      → (xs : List Indexed) × (evaluate_all now id i rs redis ≡ ok xs)
        × All (Evaluates now id redis i rs) xs
        × AreOf rs xs
  unfolding evaluate_all
  evaluate_all_total i [] h = ([], refl, tt, tt)
  evaluate_all_total i (r ∷ rs) (h, hs) =
      let (x, e) = evaluate_total r h in
      let (xs, es, at, of) = evaluate_all_total (i + 1) rs hs in
      (
        record { index = i; eval = x } ∷ xs,
        rw (e, es, evaluate_all) refl,
        (evaluated_first now id redis i r rs x e, evaluated_later now id redis i r rs xs at),
        (e, of),
      )

  abbrev pub taken : Mode → ℕ → ℕ
  taken check_only n = n
  taken check_and_consume n = n - 1

  -- Every rule allows the request, and the answer is of one that has the fewest requests left.
  abbrev pub Admits : Mode → List Rule → Decision → Type 0
  Admits mode rules d =
      (d.allowed ≡ true)
      × (d.retry_after ≡ 0)
      × All (λ r. Answers r (λ x. x.allowed ≡ true)) rules
      × ((r : Rule) × In r rules
          × (d.key ≡ r.key)
          × Answers r λ x.
            (d.remaining ≡ some (taken mode x.available))
            × (d.limit ≡ some x.limit)
            × All (λ q. Answers q (λ y. x.available ≤ y.available)) rules)

  -- The answer is of a rule that rejects the request, and no rule that rejects it waits longer.
  abbrev pub Rejects : List Rule → Decision → Redis → Type 0
  Rejects rules d redis' =
      (d.allowed ≡ false)
      × (redis' ≡ redis)
      × ((r : Rule) × In r rules
          × (d.key ≡ r.key)
          × Answers r λ x.
            (x.allowed ≡ false)
            × (d.remaining ≡ some x.available)
            × (d.limit ≡ some x.limit)
            × (d.retry_after ≡ x.retry)
            × All (λ q. Answers q (λ y. y.allowed ≡ false → y.retry ≤ x.retry)) rules)

  abbrev pub Decides : Mode → List Rule → Result RateLimitError Decision × Redis → Type 0
  Decides mode rules answer =
      (d : Decision) × (answer.0 ≡ ok d) × (Admits mode rules d ⊎ Rejects rules d answer.1)

  answer-Admits :
      (mode : Mode) (rules : List Rule) (x : Indexed) (xs : List Indexed) (t : Indexed)
      → All (Evaluates now id redis 1 rules) (x ∷ xs)
      → AreOf rules (x ∷ xs)
      → All (λ r. r.eval.allowed ≡ true) (x ∷ xs)
      → IsTightest t (x ∷ xs)
      → let answer = answer_with mode t (x ∷ xs) redis in
        (d : Decision) × (read_reply rules (ok answer.0) ≡ ok d) × Admits mode rules d
  answer-Admits mode rules x xs t at of allowed (there, least) =
      let (r, place, member, e, l) = In-All (Evaluates now id redis 1 rules) (x ∷ xs) t at there in
      let index : t.index + 1 - 1 ≡ t.index = omega arith in
      let found : rule_at t.index rules ≡ some r = rw index at place in
      let all = AreOf-Answers (λ x. x.allowed ≡ true) rules (x ∷ xs) of allowed in
      let fewest = AreOf-Answers (λ y. t.eval.available ≤ y.available) rules (x ∷ xs) of least in
      go mode r found all member (t.eval, e, (refl, refl, fewest))
    where
      go :
          (m : Mode) (r : Rule)
          → rule_at t.index rules ≡ some r
          → All (λ r. Answers r (λ x. x.allowed ≡ true)) rules
          → In r rules
          → Answers r (λ y.
            (some (taken m t.eval.available) ≡ some (taken m y.available))
            × (some t.eval.limit ≡ some y.limit)
            × All (λ q. Answers q (λ z. y.available ≤ z.available)) rules)
          → let answer = answer_with m t (x ∷ xs) redis in
            (d : Decision) × (read_reply rules (ok answer.0) ≡ ok d) × Admits m rules d
      go check_only r found all member h =
          (_, rw found refl, (refl, refl, all, (r, member, refl, h)))
      go check_and_consume r found all member h =
          (_, rw found refl, (refl, refl, all, (r, member, refl, h)))

  decide-Decides :
      (mode : Mode) (rules : List Rule) (x : Indexed) (xs : List Indexed)
      → All (Evaluates now id redis 1 rules) (x ∷ xs)
      → AreOf rules (x ∷ xs)
      → Decides mode rules
          (read_reply rules (ok (decide mode x xs redis).0), (decide mode x xs redis).1)
  unfolding decide
  decide-Decides mode rules x xs at of =
      go (worst_of none (x ∷ xs)) refl (worst_of-IsWorst (x ∷ xs))
    where
      go :
          (w : Option Indexed)
          → worst_of none (x ∷ xs) ≡ w
          → IsWorst w (x ∷ xs)
          → Decides mode rules
              (read_reply rules (ok (decide mode x xs redis).0), (decide mode x xs redis).1)
      go none e allowed =
          let (d, answer, admits) =
            answer-Admits mode rules x xs (tightest_of x xs) at of allowed
              (tightest_of-IsTightest x xs) in
          rw (e, decide) (d, answer, inl admits)
      go (some w) e (there, rejected, latest) =
          let (r, place, member, ev, l) =
            In-All (Evaluates now id redis 1 rules) (x ∷ xs) w at there in
          let index : w.index + 1 - 1 ≡ w.index = omega arith in
          let found : rule_at w.index rules ≡ some r = rw index at place in
          let all =
            AreOf-Answers (λ y. y.allowed ≡ false → y.retry ≤ w.eval.retry) rules (x ∷ xs) of
              latest in
          rw (e, decide, found)
            (
              _,
              refl,
              inr (refl, refl, (r, member, refl, (w.eval, ev, (rejected, refl, refl, refl, all)))),
            )

  run-decide :
      (mode : Mode) (rule : Rule) (rules : List Rule) (x : Eval) (xs : List Indexed)
      → assert_valid_rules [] (rule ∷ rules) ≡ none
      → evaluate now id rule.key rule.config redis ≡ ok x
      → evaluate_all now id 2 rules redis ≡ ok xs
      → let decided = decide mode (record { index = 1; eval = x }) xs redis in
        run mode now id (rule ∷ rules) redis ≡ (read_reply (rule ∷ rules) (ok decided.0), decided.1)
  unfolding run script
  run-decide mode rule rules x xs valid e es = rw (valid, e, es, run, script) refl

  -- An attempt or a check with valid rules, at least one, whose keys hold nothing or a value of their
  -- algorithm's kind, answers a decision. Either every rule alone would allow the request: then it is
  -- allowed, and the answer is of a rule with the fewest requests left, one less where the request
  -- consumes. Or it is rejected, Redis stays as it was, and the answer is of a rule that alone rejects
  -- the request, such that no rule that rejects it waits longer.
  pub run-Decides :
      (mode : Mode) (rule : Rule) (rules : List Rule)
      → assert_valid_rules [] (rule ∷ rules) ≡ none
      → All IsReadable (rule ∷ rules)
      → Decides mode (rule ∷ rules) (run mode now id (rule ∷ rules) redis)
  run-Decides mode rule rules valid (h, hs) =
      let (x, e) = evaluate_total rule h in
      let (xs, es, at, of) = evaluate_all_total 2 rules hs in
      subst (Decides mode (rule ∷ rules)) (sym (run-decide mode rule rules x xs valid e es)) (
        decide-Decides mode (rule ∷ rules) (record { index = 1; eval = x }) xs
          (
            evaluated_first now id redis 1 rule rules x e,
            evaluated_later now id redis 1 rule rules xs at,
          )
          (e, of))
