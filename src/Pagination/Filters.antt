-- ===== src/Pagination/Filters.antt =====
-- The filters and ranges of a page query in pagination.ts of shared: reading them, and the condition
-- that `buildFilterWhere` makes of them. Keys and columns are numbers. A value that the parser of the
-- query hands over is a text or something else; the schema of one value is a parameter.
use jonoob_part_backend.Common.{
  ℕ, Bool, true, false, not, Option, none, some, List, [], ◌∷◌, ◌++◌, map, filter, any, length, mem,
  leb, if◌then◌else◌, Result, ok, err,
}
use jonoob_part_backend.Pagination.Texts.{Text, trim, split, is_empty}

pub data RawItem : Type 0 where
  text : Text → RawItem
  opaque : ℕ → RawItem

pub data Raw : Type 0 where
  missing : Raw
  one : RawItem → Raw
  many : List RawItem → Raw

abbrev pub parts_of : RawItem → List RawItem
parts_of (text t) = map text (split t)
parts_of (opaque n) = opaque n ∷ []

unfoldable pub flat_parts : List RawItem → List RawItem
unfolding split
flat_parts [] = []
flat_parts (x ∷ xs) = parts_of x ++ flat_parts xs

abbrev pub trim_item : RawItem → RawItem
trim_item (text t) = text (trim t)
trim_item (opaque n) = opaque n

abbrev pub is_given : RawItem → Bool
is_given (text t) = not (is_empty t)
is_given (opaque n) = true

abbrev pub items_of : Raw → List RawItem
items_of missing = []
items_of (one x) = x ∷ []
items_of (many xs) = xs

abbrev pub some_list : List RawItem → Option (List RawItem)
some_list [] = none
some_list (x ∷ xs) = some (x ∷ xs)

unfoldable pub to_list : Raw → Option (List RawItem)
unfolding flat_parts trim
to_list raw = some_list (filter is_given (map trim_item (flat_parts (items_of raw))))

pub data QueryError : Type 0 where
  invalid_value : QueryError
  invalid_range : QueryError
  unmapped_column : QueryError
  reserved_key : QueryError
  overlapping_keys : QueryError

module _ {V : Type 0} (item : RawItem → Option V) where
  unfoldable pub read_items : List RawItem → Option (List V)
  read_items [] = some []
  read_items (x ∷ xs) = elim (item x) [
    | none ↦ none
    | some v ↦ elim (read_items xs) [ none ↦ none | some vs ↦ some (v ∷ vs) ]
  ]

  abbrev pub at_most_50 : Option (List V) → Result QueryError (Option (List V))
  at_most_50 none = err invalid_value
  at_most_50 (some vs) = if leb (length vs) 50 then ok (some vs) else err invalid_value

  abbrev pub list_from : Option (List RawItem) → Result QueryError (Option (List V))
  list_from none = ok none
  list_from (some xs) = at_most_50 (read_items xs)

  -- `listOf`
  unfoldable pub list_of : Raw → Result QueryError (Option (List V))
  unfolding read_items to_list
  list_of raw = list_from (to_list raw)

-- `{ gte?, lte? }` and `{ min?, max? }`
pub record Range (V : Type 0) : Type 0 where
  pub min_value : Option V
  pub max_value : Option V

module _ {V : Type 0} (greater : V → V → Bool) where
  abbrev pub is_reversed : Option V → Option V → Bool
  is_reversed (some a) (some b) = greater a b
  is_reversed _ _ = false

  abbrev pub is_absent : Option V → Option V → Bool
  is_absent none none = true
  is_absent _ _ = false

  -- The loop over the ranges, each with its key; a key with no bound is left out.
  unfoldable pub range_out : List (ℕ × Option (Range V)) → Result QueryError (List (ℕ × Range V))
  range_out [] = ok []
  range_out ((k, none) ∷ rs) = range_out rs
  range_out ((k, some r) ∷ rs) =
      let rest = range_out rs in
      if is_absent r.min_value r.max_value
      then rest
      else if is_reversed r.min_value r.max_value
      then err invalid_range
      else elim rest [ ok out ↦ ok ((k, r) ∷ out) | err e ↦ err e ]

-- The checks at startup: no reserved key (`page`, `size` and `sort` in the list), and no key for both.
unfoldable pub check_keys : List ℕ → List ℕ → List ℕ → Option QueryError
check_keys reserved filter_keys range_keys =
    if any (λ k. mem k reserved) (filter_keys ++ range_keys)
    then some reserved_key
    else if any (λ k. mem k range_keys) filter_keys
    then some overlapping_keys
    else none

-- The conditions of a `where`: their conjunction.
pub data Condition (V : Type 0) : Type 0 where
  in_array : (column : ℕ) → List V → Condition V
  at_least : (column : ℕ) → V → Condition V
  at_most : (column : ℕ) → V → Condition V

module _ {V : Type 0} where
  abbrev pub add_conditions :
      Option ℕ
      → (ℕ → List (Condition V))
      → Result QueryError (List (Condition V))
      → Result QueryError (List (Condition V))
  add_conditions none f rest = err unmapped_column
  add_conditions (some c) f (err e) = err e
  add_conditions (some c) f (ok conds) = ok (f c ++ conds)

  abbrev pub bounds_on : ℕ → Option V → Option V → List (Condition V)
  bounds_on c none none = []
  bounds_on c (some v) none = at_least c v ∷ []
  bounds_on c none (some w) = at_most c w ∷ []
  bounds_on c (some v) (some w) = at_least c v ∷ at_most c w ∷ []

  abbrev pub bound_conditions : Range V → ℕ → List (Condition V)
  bound_conditions r c = bounds_on c r.min_value r.max_value

  abbrev pub both :
      Result QueryError (List (Condition V))
      → Result QueryError (List (Condition V))
      → Result QueryError (List (Condition V))
  both (err e) r = err e
  both (ok conds) (err e) = err e
  both (ok conds) (ok more) = ok (conds ++ more)

module _ {V : Type 0} (columns : ℕ → Option ℕ) where
  unfoldable pub filter_conditions :
      List (ℕ × Option (List V)) → Result QueryError (List (Condition V))
  filter_conditions [] = ok []
  filter_conditions ((k, none) ∷ fs) = filter_conditions fs
  filter_conditions ((k, some []) ∷ fs) = filter_conditions fs
  filter_conditions ((k, some (v ∷ vs)) ∷ fs) =
      add_conditions (columns k) (λ c. in_array c (v ∷ vs) ∷ []) (filter_conditions fs)

  unfoldable pub range_conditions :
      List (ℕ × Option (Range V)) → Result QueryError (List (Condition V))
  range_conditions [] = ok []
  range_conditions ((k, none) ∷ rs) = range_conditions rs
  range_conditions ((k, some r) ∷ rs) =
      add_conditions (columns k) (bound_conditions r) (range_conditions rs)

  -- No condition is `undefined`, which lets every row through.
  unfoldable pub build_filter_where :
      List (ℕ × Option (List V))
      → List (ℕ × Option (Range V))
      → Result QueryError (List (Condition V))
  unfolding filter_conditions range_conditions
  build_filter_where filters ranges = both (filter_conditions filters) (range_conditions ranges)
