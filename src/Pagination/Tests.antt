-- ===== src/Pagination/Tests.antt =====
-- Page queries read from texts.
use jonoob_part_backend.Common.{
  ℕ, ◌+◌, ◌≡◌, refl, ◌&&◌, Option, none, some, List, [], ◌∷◌, map, length, leb, ◌==◌, ok, err,
  arith,
}
use jonoob_part_backend.Pagination.Texts.{Text, is_space, join, same_text}
use jonoob_part_backend.Pagination.Sort.{asc, desc, Term, no_duplicates, sort_schema, expression}
use jonoob_part_backend.Pagination.Terms.{sort_schema-join}
use jonoob_part_backend.Pagination.Filters.{
  text, opaque, one, many, to_list, list_of, RawItem, Range, range_out, invalid_range, reserved_key,
  check_keys, Condition, build_filter_where,
}
use jonoob_part_backend.Pagination.Where.{
  Comparisons, all, holds, filter_admits, range_admits, build_filter_where-admits,
}

-- `id` and `total`
abbrev id_field : Text
id_field = 105 ∷ 100 ∷ []

abbrev total_field : Text
total_field = 116 ∷ 111 ∷ 116 ∷ 97 ∷ 108 ∷ []

abbrev listed : List Text
listed = id_field ∷ total_field ∷ []

abbrev default_sort : List Text
default_sort = id_field ∷ []

abbrev by_total : Term
by_total = record { field = total_field; direction = desc }

abbrev by_id : Term
by_id = record { field = id_field; direction = asc }

-- ` -total,,id`
abbrev query : Text
query = 32 ∷ 45 ∷ 116 ∷ 111 ∷ 116 ∷ 97 ∷ 108 ∷ 44 ∷ 44 ∷ 105 ∷ 100 ∷ []

query_read : sort_schema listed default_sort (some query) ≡ some (by_total ∷ by_id ∷ [])
unfolding sort_schema
query_read = refl

blank_defaults : sort_schema listed default_sort (some (32 ∷ [])) ≡ some (by_id ∷ [])
unfolding sort_schema
blank_defaults = refl

list_split :
    to_list (many (text (97 ∷ 44 ∷ 32 ∷ 98 ∷ []) ∷ opaque 3 ∷ text [] ∷ []))
    ≡ some (text (97 ∷ []) ∷ text (98 ∷ []) ∷ opaque 3 ∷ [])
unfolding to_list
list_split = refl

-- The length of a text as its value.
abbrev measured : RawItem → Option ℕ
measured (text t) = some (length t)
measured (opaque n) = none

list_measured : list_of measured (one (text (97 ∷ []))) ≡ ok (some (1 ∷ []))
unfolding list_of
list_measured = refl

reversed_refused :
    range_out
      (λ a b. leb (b + 1) a)
      ((1, some (record { min_value = some 5; max_value = some 4 })) ∷ [])
    ≡ err invalid_range
unfolding range_out
reversed_refused = refl

reserved_refused : check_keys (1 ∷ 2 ∷ 3 ∷ []) (7 ∷ []) (2 ∷ []) ≡ some reserved_key
unfolding check_keys
reserved_refused = refl

sort_schema-join_example :
    sort_schema listed default_sort (some (join (map expression (by_total ∷ by_id ∷ []))))
    ≡ some (by_total ∷ by_id ∷ [])
unfolding no_duplicates is_space same_text
sort_schema-join_example =
    sort_schema-join listed default_sort by_total (by_id ∷ [])
      (
        (
          ((refl, refl), ((refl, refl), ((refl, refl), ((refl, refl), ((refl, refl), tt))))),
          refl,
          refl,
        ),
        ((((refl, refl), ((refl, refl), tt)), refl, refl), tt),
      )
      (omega arith) refl

abbrev numbers : Comparisons ℕ
numbers = record { equal = λ a b. a == b; at_or_below = leb }

abbrev columns : ℕ → Option ℕ
columns k = some (k + 10)

abbrev stored : ℕ → Option ℕ
stored c = some (c + c)

abbrev filters : List (ℕ × Option (List ℕ))
filters = (1, some (22 ∷ 5 ∷ [])) ∷ (2, none) ∷ []

abbrev ranges : List (ℕ × Option (Range ℕ))
ranges = (3, some (record { min_value = some 20; max_value = none })) ∷ []

build_filter_where_example :
    (conds : List (Condition ℕ)) × (build_filter_where columns filters ranges ≡ ok conds)
    × (all (holds numbers columns stored) conds ≡ (
        all (filter_admits numbers columns stored) filters
        && all (range_admits numbers columns stored) ranges))
build_filter_where_example =
    build_filter_where-admits numbers columns stored filters ranges ((11, refl), ((12, refl), tt))
      ((13, refl), tt)
