-- ===== src/Collections/Tests.antt =====
-- Maps made of short lists.
use jonoob_part_backend.Common.{ℕ, ◌+◌, ◌≡◌, refl, none, some, List, [], ◌∷◌}
use jonoob_part_backend.Collections.Maps.{keep_last, keep_first, throw, merge, to_map}
use jonoob_part_backend.Collections.Groups.{Amounts, to_map-Amounts}

abbrev Pair : Type 0
Pair = ℕ × ℕ

abbrev key : Pair → ℕ
key l = l.0

abbrev pairs : List Pair
pairs = (4, 1) ∷ (5, 2) ∷ (4, 3) ∷ []

abbrev added : Pair → Pair → Pair
added l l' = (l.0, l.1 + l'.1)

last_kept : to_map keep_last key pairs ≡ some ((4, (4, 3)) ∷ (5, (5, 2)) ∷ [])
unfolding to_map
last_kept = refl

first_kept : to_map keep_first key pairs ≡ some ((4, (4, 1)) ∷ (5, (5, 2)) ∷ [])
unfolding to_map
first_kept = refl

thrown : to_map throw key pairs ≡ none
unfolding to_map
thrown = refl

merged : to_map (merge added) key pairs ≡ some ((4, (4, 4)) ∷ (5, (5, 2)) ∷ [])
unfolding to_map
merged = refl

to_map-Amounts_example : Amounts (merge added) key pairs [] 4 (to_map (merge added) key pairs)
to_map-Amounts_example = to_map-Amounts (merge added) key pairs 4
