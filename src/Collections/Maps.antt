-- ===== src/Collections/Maps.antt =====
-- `toMap` of shared/impl/utils/collections.ts. The keys are numbers; a `Map` is the list of its entries
-- in the order of their first insertion.
use jonoob_part_backend.Common.{ℕ, Option, none, some, List, [], ◌∷◌, ◌==◌, if◌then◌else◌}

pub data DuplicateStrategy (T : Type 0) : Type 0 where
  keep_last : DuplicateStrategy T
  keep_first : DuplicateStrategy T
  throw : DuplicateStrategy T
  merge : (T → T → T) → DuplicateStrategy T

abbrev pub Entries : Type 0 → Type 0
Entries T = List (ℕ × T)

unfoldable pub lookup : {T : Type 0} → ℕ → Entries T → Option T
lookup k [] = none
lookup k ((j, v) ∷ m) = if j == k then some v else lookup k m

unfoldable pub store : {T : Type 0} → ℕ → T → Entries T → Entries T
store k v [] = (k, v) ∷ []
store k v ((j, u) ∷ m) = if j == k then (j, v) ∷ m else (j, u) ∷ store k v m

-- One item, given what the map has for its key; `none` is the exception.
unfoldable pub put :
    {T : Type 0} → DuplicateStrategy T → ℕ → T → Entries T → Option T → Option (Entries T)
unfolding store
put st k item m none = some (store k item m)
put keep_last k item m (some old) = some (store k item m)
put keep_first k item m (some old) = some m
put throw k item m (some old) = none
put (merge f) k item m (some old) = some (store k (f old item) m)

-- The loop, with the map so far.
unfoldable pub to_map_from :
    {T : Type 0} → DuplicateStrategy T → (T → ℕ) → List T → Entries T → Option (Entries T)
unfolding put lookup
to_map_from st key [] m = some m
to_map_from st key (x ∷ xs) m = elim (put st (key x) x m (lookup (key x) m)) [
  | none ↦ none
  | some m' ↦ to_map_from st key xs m'
]

unfoldable pub to_map : {T : Type 0} → DuplicateStrategy T → (T → ℕ) → List T → Option (Entries T)
unfolding to_map_from
to_map st key xs = to_map_from st key xs []
