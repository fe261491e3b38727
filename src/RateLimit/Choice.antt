-- ===== src/RateLimit/Choice.antt =====
-- Which rule the script's loop picks.
use jonoob_part_backend.Common.{
  ℕ, ◌+◌, ◌-◌, ◌≤◌, ◌≡◌, refl, sym, subst, ◌⊎◌, inl, inr, true, false, Option, none, some, List, [],
  ◌∷◌, ltb, ◌==◌, All, In, Bool-cases, Result, ok, err, arith,
}
use jonoob_part_backend.RateLimit.Values.{Redis}
use jonoob_part_backend.RateLimit.Algorithms.{Eval, evaluate}
use jonoob_part_backend.RateLimit.Script.{Rule, Indexed, worse, worst_of, tighter, tightest_of}
use jonoob_part_backend.RateLimit.Service.{rule_at}

abbrev pub Result-cases :
    {E A : Type 0} (r : Result E A) → ((a : A) × (r ≡ ok a)) ⊎ ((e : E) × (r ≡ err e))
Result-cases (ok a) = inl (a, refl)
Result-cases (err e) = inr (e, refl)

-- The rejected rule that waits longest, if one is rejected.
abbrev pub IsWorst : Option Indexed → List Indexed → Type 0
IsWorst none rs = All (λ r. r.eval.allowed ≡ true) rs
IsWorst (some w) rs =
    In w rs
    × (w.eval.allowed ≡ false)
    × All (λ r. r.eval.allowed ≡ false → r.eval.retry ≤ w.eval.retry) rs

-- The same, where the loop has come with `w` already.
abbrev IsWorstFrom : Option Indexed → Option Indexed → List Indexed → Type 0
IsWorstFrom none w rs = IsWorst w rs
IsWorstFrom (some v) none rs = ⊥
IsWorstFrom (some v) (some w) rs =
    ((w ≡ v) ⊎ (In w rs × (w.eval.allowed ≡ false)))
    × (v.eval.retry ≤ w.eval.retry)
    × All (λ r. r.eval.allowed ≡ false → r.eval.retry ≤ w.eval.retry) rs

worse-some :
    (v r : Indexed)
    → ((worse (some v) r ≡ some v) × (r.eval.allowed ≡ false → r.eval.retry ≤ v.eval.retry))
      ⊎ ((worse (some v) r ≡ some r) × (r.eval.allowed ≡ false) × (v.eval.retry ≤ r.eval.retry))
unfolding worse
worse-some v r = elim (Bool-cases r.eval.allowed) [
  | inl e ↦ inl (rw e refl, λ h. cc)
  | inr e ↦ elim (Bool-cases (ltb v.eval.retry r.eval.retry)) [
    | inl l ↦ inr (rw (e, l) refl, e, ground arith)
    | inr l ↦ inl (rw (e, l) refl, λ h. ground arith)
  ]
]

worse-none :
    (r : Indexed)
    → ((worse none r ≡ none) × (r.eval.allowed ≡ true))
      ⊎ ((worse none r ≡ some r) × (r.eval.allowed ≡ false))
unfolding worse
worse-none r = elim (Bool-cases r.eval.allowed) [
  | inl e ↦ inl (rw e refl, e)
  | inr e ↦ inr (rw e refl, e)
]

All-later :
    (a b : ℕ) (rs : List Indexed)
    → a ≤ b
    → All (λ r. r.eval.allowed ≡ false → r.eval.retry ≤ a) rs
    → All (λ r. r.eval.allowed ≡ false → r.eval.retry ≤ b) rs
All-later a b [] h k = tt
All-later a b (r ∷ rs) h k = (λ f. let g = k.0 f in omega arith, All-later a b rs h k.1)

-- Where the loop stands at `v`, and one more rule is rejected or not.
extend-kept :
    (v r : Indexed) (w : Option Indexed) (rs : List Indexed)
    → (r.eval.allowed ≡ false → r.eval.retry ≤ v.eval.retry)
    → IsWorstFrom (some v) w rs
    → IsWorstFrom (some v) w (r ∷ rs)
extend-kept v r none rs h k = absurd k
extend-kept v r (some w) rs h (inl e, l, a) = (inl e, l, (λ f. let g = h f in omega arith, a))
extend-kept v r (some w) rs h (inr (i, f), l, a) =
    (inr (inr i, f), l, (λ f. let g = h f in omega arith, a))

extend-new :
    (v r : Indexed) (w : Option Indexed) (rs : List Indexed)
    → r.eval.allowed ≡ false
    → v.eval.retry ≤ r.eval.retry
    → IsWorstFrom (some r) w rs
    → IsWorstFrom (some v) w (r ∷ rs)
extend-new v r none rs f h k = absurd k
extend-new v r (some w) rs f h (inl e, l, a) =
    (inr (inl e, subst (λ x. x.eval.allowed ≡ false) (sym e) f), omega arith, (λ g. l, a))
extend-new v r (some w) rs f h (inr (i, g), l, a) = (inr (inr i, g), omega arith, (λ g. l, a))

worst_of-some : (v : Indexed) (rs : List Indexed) → IsWorstFrom (some v) (worst_of (some v) rs) rs
unfolding worst_of
worst_of-some v [] = (inl refl, omega arith, tt)
worst_of-some v (r ∷ rs) = elim (worse-some v r) [
  | inl (e, h) ↦ rw e (extend-kept v r (worst_of (some v) rs) rs h (worst_of-some v rs))
  | inr (e, f, h) ↦ rw e (extend-new v r (worst_of (some r) rs) rs f h (worst_of-some r rs))
]

IsWorst-cons :
    (r : Indexed) (w : Option Indexed) (rs : List Indexed)
    → r.eval.allowed ≡ true
    → IsWorst w rs
    → IsWorst w (r ∷ rs)
IsWorst-cons r none rs e h = (e, h)
IsWorst-cons r (some w) rs e (i, f, a) = (inr i, f, (λ g. cc, a))

IsWorst-first :
    (r : Indexed) (w : Option Indexed) (rs : List Indexed)
    → r.eval.allowed ≡ false
    → IsWorstFrom (some r) w rs
    → IsWorst w (r ∷ rs)
IsWorst-first r none rs e k = absurd k
IsWorst-first r (some w) rs e (inl same, l, a) =
    (inl same, subst (λ x. x.eval.allowed ≡ false) (sym same) e, (λ g. l, a))
IsWorst-first r (some w) rs e (inr (i, f), l, a) = (inr i, f, (λ g. l, a))

pub worst_of-IsWorst : (rs : List Indexed) → IsWorst (worst_of none rs) rs
unfolding worst_of
worst_of-IsWorst [] = tt
worst_of-IsWorst (r ∷ rs) = elim (worse-none r) [
  | inl (e, h) ↦ rw e (IsWorst-cons r (worst_of none rs) rs h (worst_of-IsWorst rs))
  | inr (e, h) ↦ rw e (IsWorst-first r (worst_of (some r) rs) rs h (worst_of-some r rs))
]

-- The rule has the fewest requests left.
abbrev pub IsTightest : Indexed → List Indexed → Type 0
IsTightest t rs = In t rs × All (λ r. t.eval.available ≤ r.eval.available) rs

tighter-cases :
    (t r : Indexed)
    → ((tighter t r ≡ t) × (t.eval.available ≤ r.eval.available))
      ⊎ ((tighter t r ≡ r) × (r.eval.available ≤ t.eval.available))
unfolding tighter
tighter-cases t r = elim (Bool-cases (ltb r.eval.available t.eval.available)) [
  | inl l ↦ inr (rw l refl, ground arith)
  | inr l ↦ inl (rw l refl, ground arith)
]

pub tightest_of-IsTightest :
    (t : Indexed) (rs : List Indexed) → IsTightest (tightest_of t rs) (t ∷ rs)
unfolding tightest_of
tightest_of-IsTightest t [] = (inl refl, (omega arith, tt))
tightest_of-IsTightest t (r ∷ rs) = elim (tighter-cases t r) [
  | inl (e, h) ↦
      subst (λ u. IsTightest (tightest_of u rs) (t ∷ r ∷ rs)) (sym e)
        (kept (tightest_of-IsTightest t rs) h)
  | inr (e, h) ↦
      subst (λ u. IsTightest (tightest_of u rs) (t ∷ r ∷ rs)) (sym e)
        (replaced (tightest_of-IsTightest r rs) h)
]
  where
    kept :
        IsTightest (tightest_of t rs) (t ∷ rs)
        → t.eval.available ≤ r.eval.available
        → IsTightest (tightest_of t rs) (t ∷ r ∷ rs)
    kept (inl i, (a, as')) h = (inl i, (a, (omega arith, as')))
    kept (inr i, (a, as')) h = (inr (inr i), (a, (omega arith, as')))

    replaced :
        IsTightest (tightest_of r rs) (r ∷ rs)
        → r.eval.available ≤ t.eval.available
        → IsTightest (tightest_of r rs) (t ∷ r ∷ rs)
    replaced (i, (a, as')) h = (inr i, (omega arith, (a, as')))

-- The evaluation of a rule of the list, whose place it keeps.
abbrev pub Evaluates : ℕ → ℕ → Redis → ℕ → List Rule → Indexed → Type 0
Evaluates now id redis i rules x =
    (r : Rule) × (rule_at (x.index + 1 - i) rules ≡ some r)
    × In r rules
    × (evaluate now id r.key r.config redis ≡ ok x.eval)
    × (i ≤ x.index)

pub evaluated_first :
    (now id : ℕ) (redis : Redis) (i : ℕ) (r : Rule) (rules : List Rule) (x : Eval)
    → evaluate now id r.key r.config redis ≡ ok x
    → Evaluates now id redis i (r ∷ rules) (record { index = i; eval = x })
unfolding rule_at
evaluated_first now id redis i r rules x e =
    let place : i + 1 - i ≡ 1 = omega arith in (r, rw place refl, inl refl, e, omega arith)

pub evaluated_later :
    (now id : ℕ) (redis : Redis) (i : ℕ) (r : Rule) (rules : List Rule) (xs : List Indexed)
    → All (Evaluates now id redis (i + 1) rules) xs
    → All (Evaluates now id redis i (r ∷ rules)) xs
unfolding rule_at
evaluated_later now id redis i r rules [] h = tt
evaluated_later now id redis i r rules (x ∷ xs) ((q, at, there, e, l), hs) =
    let not_first : (x.index + 1 - i == 1) ≡ false = ground arith in
    let place : x.index + 1 - i - 1 ≡ x.index + 1 - (i + 1) = omega arith in
    (
      (q, rw (not_first, place) at, inr there, e, omega arith),
      evaluated_later now id redis i r rules xs hs,
    )
