-- ===== src/Pagination/Sort.antt =====
-- `sortTerm` and `sortSchema` of pagination.ts in shared: the parameter `sort` of a page query. No
-- result stands for the issues that zod reports.
use jonoob_part_backend.Common.{
  Bool, true, not, ◌&&◌, Option, none, some, List, [], ◌∷◌, any, filter, length, leb, ◌==◌,
  if◌then◌else◌,
}
use jonoob_part_backend.Pagination.Texts.{Text, minus, trim, split, join, same_text, is_empty}

pub data Direction : Type 0 where
  asc : Direction
  desc : Direction

-- `SortTerm`
pub record Term : Type 0 where
  pub field : Text
  pub direction : Direction

-- `startsWith('-')` and `slice(1)`
abbrev pub read_term : Text → Term
read_term [] = record { field = []; direction = asc }
read_term (c ∷ cs) =
    if c == minus
    then record { field = cs; direction = desc }
    else record { field = c ∷ cs; direction = asc }

abbrev pub is_field : List Text → Text → Bool
is_field fields f = any (same_text f) fields

unfoldable pub sort_term : List Text → Text → Option Term
unfolding trim same_text
sort_term fields raw =
    let term = read_term (trim raw) in if is_field fields term.field then some term else none

-- The terms of an array, if all are proper.
unfoldable pub sort_terms : List Text → List Text → Option (List Term)
unfolding sort_term
sort_terms fields [] = some []
sort_terms fields (t ∷ ts) = elim (sort_term fields t) [
  | none ↦ none
  | some x ↦ elim (sort_terms fields ts) [ none ↦ none | some xs ↦ some (x ∷ xs) ]
]

-- The size of the set of the fields is the number of the terms.
unfoldable pub no_duplicates : List Term → Bool
unfolding same_text
no_duplicates [] = true
no_duplicates (t ∷ ts) = not (any (λ u. same_text t.field u.field) ts) && no_duplicates ts

abbrev pub given_or : Option Text → Text → Text
given_or none d = d
given_or (some v) d = if is_empty (trim v) then d else v

abbrev pub refined : Option (List Term) → Option (List Term)
refined none = none
refined (some ts) =
    if leb 1 (length ts) && leb (length ts) 3 && no_duplicates ts then some ts else none

unfoldable pub sort_schema : List Text → List Text → Option Text → Option (List Term)
unfolding split join sort_terms no_duplicates trim
sort_schema fields default_sort v =
    refined
      (sort_terms fields (filter (λ t. not (is_empty t)) (split (given_or v (join default_sort)))))

-- `SortExpr`: how a term is written.
abbrev pub expression : Term → Text
expression t = elim t.direction [ asc ↦ t.field | desc ↦ minus ∷ t.field ]
