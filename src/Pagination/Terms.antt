-- ===== src/Pagination/Terms.antt =====
-- Reading back the sort terms that were written, and what every accepted sort is.
use jonoob_part_backend.Common.{
  ◌≤◌, ◌≡◌, refl, sym, subst, ap, inl, inr, Bool, true, false, not, ◌&&◌, Option, none, some, List,
  [], ◌∷◌, ◌++◌, map, filter, length, leb, ◌==◌, if◌then◌else◌, All, Bool-cases, Option-cases,
  arith,
}
use jonoob_part_backend.Pagination.Texts.{
  Text, comma, minus, is_space, trim, split, join, is_empty, IsPlain, split-join, IsSpaceless,
  All-append, trim-same,
}
use jonoob_part_backend.Pagination.Sort.{
  Direction, asc, desc, Term, read_term, is_field, sort_term, sort_terms, no_duplicates, given_or,
  refined, sort_schema, expression,
}

abbrev BeginsField : Text → Type 0
BeginsField [] = ⊥
BeginsField (c ∷ cs) = (c == minus) ≡ false

-- A term by a field of the list, whose name is not empty, has no space and no comma, and does not
-- begin with a minus sign.
abbrev pub IsWritable : List Text → Term → Type 0
IsWritable fields t = IsPlain t.field × BeginsField t.field × (is_field fields t.field ≡ true)

expression-IsPlain : (t : Term) → IsPlain t.field → IsPlain (expression t)
unfolding is_space
expression-IsPlain t h = go t.direction
  where
    go : (d : Direction) → IsPlain (elim d [ asc ↦ t.field | desc ↦ minus ∷ t.field ])
    go asc = h
    go desc = ((refl, refl), h)

IsPlain-IsSpaceless : (t : Text) → IsPlain t → IsSpaceless t
IsPlain-IsSpaceless [] h = tt
IsPlain-IsSpaceless (c ∷ cs) (h, hs) = (h.0, IsPlain-IsSpaceless cs hs)

read_term-expression : (t : Term) → BeginsField t.field → read_term (expression t) ≡ t
read_term-expression t h = go t.field t.direction h
  where
    go :
        (f : Text) (d : Direction)
        → BeginsField f
        → read_term (expression (record { field = f; direction = d }))
          ≡ record { field = f; direction = d }
    go [] d h = absurd h
    go (c ∷ cs) asc h = rw h refl
    go (c ∷ cs) desc h = refl

sort_term-expression :
    (fields : List Text) (t : Term) → IsWritable fields t → sort_term fields (expression t) ≡ some t
unfolding sort_term
sort_term-expression fields t (plain, begins, known) =
    let spaceless = IsPlain-IsSpaceless (expression t) (expression-IsPlain t plain) in
    let reads : read_term (trim (expression t)) ≡ t =
      rw (trim-same (expression t) spaceless) (read_term-expression t begins) in
    subst (λ u. (if is_field fields u.field then some u else none) ≡ some t) (sym reads)
      (rw known refl)

sort_terms-expression :
    (fields : List Text) (ts : List Term)
    → All (IsWritable fields) ts
    → sort_terms fields (map expression ts) ≡ some ts
unfolding sort_terms
sort_terms-expression fields [] h = refl
sort_terms-expression fields (t ∷ ts) (h, hs) =
    rw (sort_term-expression fields t h, sort_terms-expression fields ts hs, sort_terms) refl

expression-is_empty : (t : Term) → BeginsField t.field → is_empty (expression t) ≡ false
expression-is_empty t h = go t.field t.direction h
  where
    go :
        (f : Text) (d : Direction)
        → BeginsField f
        → is_empty (elim d [ asc ↦ f | desc ↦ minus ∷ f ]) ≡ false
    go [] d h = absurd h
    go (c ∷ cs) asc h = refl
    go (c ∷ cs) desc h = refl

filter-expression :
    (fields : List Text) (ts : List Term)
    → All (IsWritable fields) ts
    → filter (λ t. not (is_empty t)) (map expression ts) ≡ map expression ts
filter-expression fields [] h = refl
filter-expression fields (t ∷ ts) (h, hs) =
    rw (expression-is_empty t h.1) (ap (λ r. expression t ∷ r) (filter-expression fields ts hs))

map-IsPlain :
    (fields : List Text) (ts : List Term)
    → All (IsWritable fields) ts
    → All IsPlain (map expression ts)
map-IsPlain fields [] h = tt
map-IsPlain fields (t ∷ ts) (h, hs) = (expression-IsPlain t h.0, map-IsPlain fields ts hs)

join-IsSpaceless : (ts : List Text) → All IsPlain ts → IsSpaceless (join ts)
unfolding join is_space
join-IsSpaceless [] h = tt
join-IsSpaceless (t ∷ []) (h, hs) = IsPlain-IsSpaceless t h
join-IsSpaceless (t ∷ u ∷ us) (h, hs) =
    All-append (λ c. is_space c ≡ false) t (comma ∷ join (u ∷ us)) (IsPlain-IsSpaceless t h)
      (refl, join-IsSpaceless (u ∷ us) hs)

append-is_empty : (t rest : Text) → is_empty t ≡ false → is_empty (t ++ rest) ≡ false
append-is_empty [] rest h = cc
append-is_empty (c ∷ cs) rest h = refl

join-is_empty : (t : Text) (ts : List Text) → is_empty t ≡ false → is_empty (join (t ∷ ts)) ≡ false
unfolding join
join-is_empty t [] h = h
join-is_empty t (u ∷ us) h = append-is_empty t (comma ∷ join (u ∷ us)) h

-- Sort terms that are written with commas between them are read back as they were: one to three
-- terms by different listed fields, whose names are not empty, have no space and no comma, and do not
-- begin with a minus sign.
pub sort_schema-join :
    (fields default_sort : List Text) (t : Term) (ts : List Term)
    → All (IsWritable fields) (t ∷ ts)
    → length (t ∷ ts) ≤ 3
    → no_duplicates (t ∷ ts) ≡ true
    → sort_schema fields default_sort (some (join (map expression (t ∷ ts)))) ≡ some (t ∷ ts)
unfolding sort_schema
sort_schema-join fields default_sort t ts h three distinct =
    let texts = map expression (t ∷ ts) in
    let plain = map-IsPlain fields (t ∷ ts) h in
    let filled : is_empty (trim (join texts)) ≡ false =
      rw (trim-same (join texts) (join-IsSpaceless texts plain))
        (join-is_empty (expression t) (map expression ts) (expression-is_empty t h.0.1)) in
    let given : given_or (some (join texts)) (join default_sort) ≡ join texts = rw filled refl in
    let read : sort_terms fields (filter (λ t. not (is_empty t)) (split (join texts)))
        ≡ some (t ∷ ts) =
      rw (split-join (expression t) (map expression ts) plain, filter-expression fields (t ∷ ts) h)
        (sort_terms-expression fields (t ∷ ts) h) in
    let one : leb 1 (length (t ∷ ts)) ≡ true = ground arith in
    let few : leb (length (t ∷ ts)) 3 ≡ true = ground arith in
    rw (given, read) (rw (one, few, distinct) refl)

-- The field is one of the list.
abbrev pub IsListed : List Text → Term → Type 0
IsListed fields t = is_field fields t.field ≡ true

sort_term-IsListed :
    (fields : List Text) (raw : Text) (t : Term) → sort_term fields raw ≡ some t → IsListed fields t
unfolding sort_term
sort_term-IsListed fields raw t e =
    elim (Bool-cases (is_field fields (read_term (trim raw)).field)) [
      | inl h ↦
          let e' : some (read_term (trim raw)) ≡ some t = rw h at e in
          let same : read_term (trim raw) ≡ t = cc e' in subst (IsListed fields) same h
      | inr h ↦ cc (rw h at e)
    ]

sort_terms-IsListed :
    (fields raws : List Text) (ts : List Term)
    → sort_terms fields raws ≡ some ts
    → All (IsListed fields) ts
unfolding sort_terms
sort_terms-IsListed fields [] [] e = tt
sort_terms-IsListed fields [] (t ∷ ts) e = cc
sort_terms-IsListed fields (raw ∷ raws) ts e = elim (Option-cases (sort_term fields raw)) [
  | inl h ↦ cc (rw (h, sort_terms) at e)
  | inr (x, h) ↦ elim (Option-cases (sort_terms fields raws)) [
    | inl k ↦ cc (rw (h, k, sort_terms) at e)
    | inr (xs, k) ↦
        let e' : some (x ∷ xs) ≡ some ts = rw (h, k, sort_terms) at e in
        let same : x ∷ xs ≡ ts = cc e' in
        subst (All (IsListed fields)) same
          (sort_term-IsListed fields raw x h, sort_terms-IsListed fields raws xs k)
  ]
]

-- Whatever the parameter holds, and also where the default is taken: a sort that is accepted has one
-- to three terms, no field twice, and only listed fields.
pub sort_schema_bounds :
    (fields default_sort : List Text) (v : Option Text) (ts : List Term)
    → sort_schema fields default_sort v ≡ some ts
    → (1 ≤ length ts)
      × (length ts ≤ 3)
      × (no_duplicates ts ≡ true)
      × All (λ t. is_field fields t.field ≡ true) ts
unfolding sort_schema
sort_schema_bounds fields default_sort v ts e =
    go (sort_terms fields (filter (λ t. not (is_empty t)) (split (given_or v (join default_sort)))))
      refl e
  where
    accepted :
        (us : List Term) (b : Bool)
        → (leb 1 (length us) && leb (length us) 3 && no_duplicates us) ≡ b
        → (if b then some us else none) ≡ some ts
        → All (IsListed fields) us
        → (1 ≤ length ts) × (length ts ≤ 3) × (no_duplicates ts ≡ true) × All (IsListed fields) ts
    accepted us false h e l = cc
    accepted us true h e l =
        let same : us ≡ ts = cc e in
        subst
          (λ xs.
            (1 ≤ length xs)
            × (length xs ≤ 3)
            × (no_duplicates xs ≡ true)
            × All (IsListed fields) xs)
          same (ground (arith, h), ground (arith, h), ground (arith, h), l)

    go :
        (o : Option (List Term))
        → sort_terms fields
            (filter (λ t. not (is_empty t)) (split (given_or v (join default_sort))))
          ≡ o
        → refined o ≡ some ts
        → (1 ≤ length ts) × (length ts ≤ 3) × (no_duplicates ts ≡ true) × All (IsListed fields) ts
    go none h e = cc
    go (some us) h e = accepted us _ refl e (sort_terms-IsListed fields _ us h)
