-- ===== src/Movement/Payloads.antt =====
-- shared/impl/utils/canonical.ts on the items of a movement: a text is a number, told by its place in
-- the order of JavaScript's strings. `JSON.stringify` and `JSON.parse` are parameters.
use jonoob_part_backend.Common.{
  ℕ, ◌≡◌, Bool, true, false, ◌&&◌, List, [], ◌∷◌, map, leb, ◌==◌, if◌then◌else◌,
}

-- `{ stockId, quantity }`
pub record Item : Type 0 where
  pub stock_id : ℕ
  pub quantity : ℕ

-- `JSON.stringify` gets the fields in the order of their names.
unfoldable pub canonicalize : (ℕ → ℕ → ℕ) → Item → ℕ
canonicalize stringify i = stringify i.quantity i.stock_id

-- `JSON.parse` reads back what `JSON.stringify` writes.
abbrev pub IsReadBack : (ℕ → ℕ → ℕ) → (ℕ → Item) → Type 0
IsReadBack stringify parse =
    (q s : ℕ) → parse (stringify q s) ≡ record { stock_id = s; quantity = q }

abbrev pub comes_first : ℕ → ℕ → Bool
comes_first x y = leb x y

unfoldable pub insert_text : ℕ → List ℕ → List ℕ
insert_text x [] = x ∷ []
insert_text x (y ∷ ys) =
    let later = insert_text x ys in if comes_first x y then x ∷ y ∷ ys else y ∷ later

unfoldable pub sort_texts : List ℕ → List ℕ
unfolding insert_text
sort_texts [] = []
sort_texts (x ∷ xs) = insert_text x (sort_texts xs)

unfoldable pub unordered : (ℕ → ℕ → ℕ) → List Item → List ℕ
unfolding canonicalize sort_texts
unordered stringify is = sort_texts (map (canonicalize stringify) is)

unfoldable pub same_texts : List ℕ → List ℕ → Bool
same_texts [] [] = true
same_texts (x ∷ xs) (y ∷ ys) = x == y && same_texts xs ys
same_texts _ _ = false
