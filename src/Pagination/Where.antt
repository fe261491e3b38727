-- ===== src/Pagination/Where.antt =====
-- Which rows a page query's condition lets through.
use jonoob_part_backend.Common.{
  ℕ, ◌≡◌, refl, sym, ap, ◌∙◌, Bool, true, false, ◌&&◌, Option, none, some, List, [], ◌∷◌, ◌++◌, any,
  All, Result, ok,
}
use jonoob_part_backend.Pagination.Filters.{
  QueryError, Range, Condition, in_array, at_least, at_most, add_conditions, filter_conditions,
  bounds_on, bound_conditions, range_conditions, build_filter_where,
}

-- The comparisons of SQL on the values of a column.
pub record Comparisons (V : Type 0) : Type 0 where
  pub equal : V → V → Bool
  pub at_or_below : V → V → Bool

abbrev pub all : {A : Type 0} → (A → Bool) → List A → Bool
all p [] = true
all p (x ∷ xs) = p x && all p xs

-- A comparison with NULL is not true.
abbrev pub compares : {V : Type 0} → (V → Bool) → Option V → Bool
compares f none = false
compares f (some x) = f x

-- Each key that is used has its column.
abbrev pub IsMapped : {A : Type 0} → (ℕ → Option ℕ) → ℕ × A → Type 0
IsMapped columns (k, a) = (c : ℕ) × (columns k ≡ some c)

and_assoc : (a b c : Bool) → ((a && b) && c) ≡ (a && (b && c))
and_assoc true b c = refl
and_assoc false b c = refl

and_true : (a : Bool) → (a && true) ≡ a
and_true true = refl
and_true false = refl

module _ {V : Type 0} (sql : Comparisons V) (columns : ℕ → Option ℕ) (row : ℕ → Option V) where
  -- A row under one condition.
  abbrev pub holds : Condition V → Bool
  holds (in_array c vs) = compares (λ x. any (sql.equal x) vs) (row c)
  holds (at_least c v) = compares (λ x. sql.at_or_below v x) (row c)
  holds (at_most c v) = compares (λ x. sql.at_or_below x v) (row c)

  -- The value of the row under a key.
  abbrev pub value_at : Option ℕ → Option V
  value_at none = none
  value_at (some c) = row c

  abbrev pub filter_admits : ℕ × Option (List V) → Bool
  filter_admits (k, none) = true
  filter_admits (k, some []) = true
  filter_admits (k, some (v ∷ vs)) =
      compares (λ x. any (sql.equal x) (v ∷ vs)) (value_at (columns k))

  abbrev pub bound_admits : (V → V → Bool) → Option V → Option V → Bool
  bound_admits f none x = true
  bound_admits f (some v) x = compares (f v) x

  abbrev pub range_admits : ℕ × Option (Range V) → Bool
  range_admits (k, none) = true
  range_admits (k, some r) =
      bound_admits sql.at_or_below r.min_value (value_at (columns k))
      && bound_admits (λ v x. sql.at_or_below x v) r.max_value (value_at (columns k))

  all-append : (xs ys : List (Condition V)) → all holds (xs ++ ys) ≡ (all holds xs && all holds ys)
  all-append [] ys = refl
  all-append (x ∷ xs) ys =
      ap (λ b. holds x && b) (all-append xs ys)
      ∙ sym (and_assoc (holds x) (all holds xs) (all holds ys))

  -- The conditions of the filters, or of the ranges, are those of the keys.
  abbrev Selects : Result QueryError (List (Condition V)) → Bool → Type 0
  Selects r b = (conds : List (Condition V)) × (r ≡ ok conds) × (all holds conds ≡ b)

  add-Selects :
      (k c : ℕ) (f : ℕ → List (Condition V)) (rest : Result QueryError (List (Condition V)))
      (b : Bool)
      → columns k ≡ some c
      → Selects rest b
      → Selects (add_conditions (columns k) f rest) (all holds (f c) && b)
  add-Selects k c f rest b e (conds, same, h) =
      (f c ++ conds, rw (e, same) refl, all-append (f c) conds ∙ ap (λ t. all holds (f c) && t) h)

  filter_conditions-Selects :
      (fs : List (ℕ × Option (List V)))
      → All (IsMapped columns) fs
      → Selects (filter_conditions columns fs) (all filter_admits fs)
  unfolding filter_conditions
  filter_conditions-Selects [] h = ([], refl, refl)
  filter_conditions-Selects ((k, none) ∷ fs) (h, hs) = filter_conditions-Selects fs hs
  filter_conditions-Selects ((k, some []) ∷ fs) (h, hs) = filter_conditions-Selects fs hs
  filter_conditions-Selects ((k, some (v ∷ vs)) ∷ fs) ((c, e), hs) =
      let admits = compares (λ x. any (sql.equal x) (v ∷ vs)) in
      let (conds, made, h) =
        add-Selects k c (λ c. in_array c (v ∷ vs) ∷ []) (filter_conditions columns fs)
          (all filter_admits fs) e (filter_conditions-Selects fs hs) in
      (
        conds,
        made,
        h
            ∙ ap (λ b. b && all filter_admits fs)
                (and_true (admits (row c)) ∙ ap (λ o. admits (value_at o)) (sym e)),
      )

  bounds_on-admits :
      (c : ℕ) (a b : Option V)
      → all holds (bounds_on c a b) ≡ (
          bound_admits sql.at_or_below a (row c)
          && bound_admits (λ v x. sql.at_or_below x v) b (row c))
  bounds_on-admits c none none = refl
  bounds_on-admits c (some v) none = refl
  bounds_on-admits c none (some w) = and_true _
  bounds_on-admits c (some v) (some w) = ap (λ b. holds (at_least c v) && b) (and_true _)

  range_conditions-Selects :
      (rs : List (ℕ × Option (Range V)))
      → All (IsMapped columns) rs
      → Selects (range_conditions columns rs) (all range_admits rs)
  unfolding range_conditions
  range_conditions-Selects [] h = ([], refl, refl)
  range_conditions-Selects ((k, none) ∷ rs) (h, hs) = range_conditions-Selects rs hs
  range_conditions-Selects ((k, some r) ∷ rs) ((c, e), hs) =
      let (conds, made, h) =
        add-Selects k c (bound_conditions r) (range_conditions columns rs) (all range_admits rs) e
          (range_conditions-Selects rs hs) in
      let admits : Option V → Bool = λ x.
        bound_admits sql.at_or_below r.min_value x
        && bound_admits (λ v x. sql.at_or_below x v) r.max_value x in
      (
        conds,
        made,
        h
            ∙ ap (λ b. b && all range_admits rs)
                (bounds_on-admits c r.min_value r.max_value
                  ∙ ap (λ o. admits (value_at o)) (sym e)),
      )

  -- Where each key that is given has a column: the condition is made, and a row passes it exactly
  -- when, for each filter with values, the row's value under the key equals one of them, and for each
  -- range, it lies within the bounds that are given. A filter with no values and a range with no bounds
  -- let every row through, and NULL passes none of the others.
  pub build_filter_where-admits :
      (fs : List (ℕ × Option (List V))) (rs : List (ℕ × Option (Range V)))
      → All (IsMapped columns) fs
      → All (IsMapped columns) rs
      → (conds : List (Condition V)) × (build_filter_where columns fs rs ≡ ok conds)
        × (all holds conds ≡ (all filter_admits fs && all range_admits rs))
  unfolding build_filter_where
  build_filter_where-admits fs rs h k =
      let (xs, e, p) = filter_conditions-Selects fs h in
      let (ys, e', p') = range_conditions-Selects rs k in
      (xs ++ ys, rw (e, e') refl, all-append xs ys ∙ rw (p, p') refl)
