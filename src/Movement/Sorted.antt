-- ===== src/Movement/Sorted.antt =====
-- Sorted texts of items: equal when the items are the same in any order, and only then.
use jonoob_part_backend.Common.{
  ℕ, ◌≡◌, refl, sym, ap, ◌∙◌, subst, inl, inr, true, false, List, [], ◌∷◌, map, Bool-cases, arith,
}
use jonoob_part_backend.Movement.Payloads.{
  Item, canonicalize, IsReadBack, comes_first, insert_text, sort_texts, unordered, same_texts,
}

-- The same elements in another order.
pub data Reordered {A : Type 0} : List A → List A → Type 0 where
  same : {xs : List A} → Reordered xs xs
  kept : {x : A} {xs ys : List A} → Reordered xs ys → Reordered (x ∷ xs) (x ∷ ys)
  swapped : {x y : A} {xs : List A} → Reordered (x ∷ y ∷ xs) (y ∷ x ∷ xs)
  both : {xs ys zs : List A} → Reordered xs ys → Reordered ys zs → Reordered xs zs

first_total : (x y : ℕ) → comes_first x y ≡ false → comes_first y x ≡ true
first_total x y h = ground arith

first_antisym : (x y : ℕ) → comes_first x y ≡ true → comes_first y x ≡ true → x ≡ y
first_antisym x y h k = ground arith

first_trans : (x y z : ℕ) → comes_first x y ≡ true → comes_first y z ≡ true → comes_first x z ≡ true
first_trans x y z h k = ground arith

insert-first :
    (x y : ℕ) (ys : List ℕ) → comes_first x y ≡ true → insert_text x (y ∷ ys) ≡ x ∷ y ∷ ys
unfolding insert_text
insert-first x y ys e = rw e refl

insert-later :
    (x y : ℕ) (ys : List ℕ)
    → comes_first x y ≡ false
    → insert_text x (y ∷ ys) ≡ y ∷ insert_text x ys
unfolding insert_text
insert-later x y ys e = rw e refl

-- Two items before the same tail.
insert_front :
    (x y : ℕ) (zs : List ℕ)
    → insert_text x zs ≡ x ∷ zs
    → insert_text y zs ≡ y ∷ zs
    → insert_text x (y ∷ zs) ≡ insert_text y (x ∷ zs)
insert_front x y zs hx hy = elim (Bool-cases (comes_first x y)) [
  | inl e ↦ elim (Bool-cases (comes_first y x)) [
    | inl f ↦ let same : x ≡ y = first_antisym x y e f in rw same refl
    | inr f ↦ insert-first x y zs e ∙ sym (insert-later y x zs f ∙ ap (λ r. x ∷ r) hy)
  ]
  | inr e ↦
      insert-later x y zs e ∙ ap (λ r. y ∷ r) hx ∙ sym (insert-first y x zs (first_total x y e))
]

-- `x` goes before `z`, and `y` behind it.
insert_apart :
    (x y z : ℕ) (zs : List ℕ)
    → comes_first x z ≡ true
    → comes_first y z ≡ false
    → insert_text x (insert_text y (z ∷ zs)) ≡ insert_text y (insert_text x (z ∷ zs))
insert_apart x y z zs e f = elim (Bool-cases (comes_first y x)) [
  | inl g ↦ let h = first_trans y x z g e in cc
  | inr g ↦
      ap (insert_text x) (insert-later y z zs f)
      ∙ insert-first x z (insert_text y zs) e
      ∙ sym (
          ap (insert_text y) (insert-first x z zs e)
          ∙ insert-later y x (z ∷ zs) g
          ∙ ap (λ r. x ∷ r) (insert-later y z zs f))
]

insert_text_comm :
    (x y : ℕ) (zs : List ℕ) → insert_text x (insert_text y zs) ≡ insert_text y (insert_text x zs)
unfolding insert_text
insert_text_comm x y [] = insert_front x y [] refl refl
insert_text_comm x y (z ∷ zs) = elim (Bool-cases (comes_first x z)) [
  | inl e ↦ elim (Bool-cases (comes_first y z)) [
    | inl f ↦
        let hx = insert-first x z zs e in
        let hy = insert-first y z zs f in
        ap (insert_text x) hy ∙ insert_front x y (z ∷ zs) hx hy ∙ sym (ap (insert_text y) hx)
    | inr f ↦ insert_apart x y z zs e f
  ]
  | inr e ↦ elim (Bool-cases (comes_first y z)) [
    | inl f ↦ sym (insert_apart y x z zs f e)
    | inr f ↦
        ap (insert_text x) (insert-later y z zs f)
        ∙ insert-later x z (insert_text y zs) e
        ∙ ap (λ r. z ∷ r) (insert_text_comm x y zs)
        ∙ sym (ap (insert_text y) (insert-later x z zs e) ∙ insert-later y z (insert_text x zs) f)
  ]
]

-- The order of the texts does not matter.
pub sort-Reordered : {xs ys : List ℕ} → Reordered xs ys → sort_texts xs ≡ sort_texts ys
unfolding sort_texts
sort-Reordered same = refl
sort-Reordered (kept {x} h) = ap (insert_text x) (sort-Reordered h)
sort-Reordered (swapped {x} {y} {xs}) = insert_text_comm x y (sort_texts xs)
sort-Reordered (both h k) = sort-Reordered h ∙ sort-Reordered k

pub same_texts_refl : (xs : List ℕ) → same_texts xs xs ≡ true
unfolding same_texts
same_texts_refl [] = refl
same_texts_refl (x ∷ xs) = ground (arith, same_texts_refl xs)

pub same_texts_sound : (xs ys : List ℕ) → same_texts xs ys ≡ true → xs ≡ ys
unfolding same_texts
same_texts_sound [] [] h = refl
same_texts_sound [] (y ∷ ys) h = cc
same_texts_sound (x ∷ xs) [] h = cc
same_texts_sound (x ∷ xs) (y ∷ ys) h = ground (arith, same_texts_sound xs ys)

-- A list has the texts of its sorted list.
insert-Reordered : (x : ℕ) (xs : List ℕ) → Reordered (x ∷ xs) (insert_text x xs)
unfolding insert_text
insert-Reordered x [] = same
insert-Reordered x (y ∷ ys) = elim (Bool-cases (comes_first x y)) [
  | inl e ↦ rw e same
  | inr e ↦ rw e (both swapped (kept (insert-Reordered x ys)))
]

pub Reordered-sort : (xs : List ℕ) → Reordered xs (sort_texts xs)
unfolding sort_texts
Reordered-sort [] = same
Reordered-sort (x ∷ xs) = both (kept (Reordered-sort xs)) (insert-Reordered x (sort_texts xs))

pub Reordered-sym : {A : Type 0} {xs ys : List A} → Reordered xs ys → Reordered ys xs
Reordered-sym same = same
Reordered-sym (kept h) = kept (Reordered-sym h)
Reordered-sym swapped = swapped
Reordered-sym (both h k) = both (Reordered-sym k) (Reordered-sym h)

map-Reordered :
    {A B : Type 0} (f : A → B) {xs ys : List A} → Reordered xs ys → Reordered (map f xs) (map f ys)
map-Reordered f same = same
map-Reordered f (kept h) = kept (map-Reordered f h)
map-Reordered f swapped = swapped
map-Reordered f (both h k) = both (map-Reordered f h) (map-Reordered f k)

map_parse :
    (stringify : ℕ → ℕ → ℕ) (parse : ℕ → Item)
    → IsReadBack stringify parse
    → (is : List Item) → map parse (map (canonicalize stringify) is) ≡ is
unfolding canonicalize
map_parse stringify parse h [] = refl
map_parse stringify parse h (i ∷ is) =
    rw (h i.quantity i.stock_id) (ap (λ xs. i ∷ xs) (map_parse stringify parse h is))

pub unordered-Reordered :
    (stringify : ℕ → ℕ → ℕ) {xs ys : List Item}
    → Reordered xs ys
    → unordered stringify xs ≡ unordered stringify ys
unfolding unordered
unordered-Reordered stringify h = sort-Reordered (map-Reordered (canonicalize stringify) h)

-- Items whose sorted texts are equal are the same items.
pub same_unordered-Reordered :
    (stringify : ℕ → ℕ → ℕ) (parse : ℕ → Item)
    → IsReadBack stringify parse
    → (xs ys : List Item) → same_texts (unordered stringify xs) (unordered stringify ys) ≡ true
    → Reordered xs ys
unfolding unordered
same_unordered-Reordered stringify parse h xs ys e =
    let f = canonicalize stringify in
    let sorted = same_texts_sound (sort_texts (map f xs)) (sort_texts (map f ys)) e in
    let texts : Reordered (map f xs) (map f ys) = both (Reordered-sort (map f xs)) (
      subst (λ ts. Reordered ts (map f ys)) (sym sorted)
        (Reordered-sym (Reordered-sort (map f ys)))) in
    subst (λ zs. Reordered zs ys) (map_parse stringify parse h xs)
      (subst (Reordered (map parse (map f xs))) (map_parse stringify parse h ys)
        (map-Reordered parse texts))
