-- ===== src/Collections/Groups.antt =====
-- A map made of a list has under each key what the items with that key amount to.
use jonoob_part_backend.Common.{
  ℕ, ◌≡◌, refl, sym, subst, ap, ◌∙◌, inl, inr, true, false, Option, none, some, List, [], ◌∷◌,
  filter, ◌==◌, Bool-cases, arith,
}
use jonoob_part_backend.Collections.Maps.{
  DuplicateStrategy, keep_last, keep_first, throw, merge, Entries, lookup, store, put, to_map_from,
  to_map,
}

-- A further item with the same key; `none` is the exception.
unfoldable pub next : {T : Type 0} → DuplicateStrategy T → Option T → T → Option T
next st none x = some x
next keep_last (some old) x = some x
next keep_first (some old) x = some old
next throw (some old) x = none
next (merge f) (some old) x = some (f old x)

-- The items with one key, in their order.
unfoldable pub folded : {T : Type 0} → DuplicateStrategy T → Option T → List T → Option (Option T)
unfolding next
folded st o [] = some o
folded st o (x ∷ xs) = elim (next st o x) [ none ↦ none | some v ↦ folded st (some v) xs ]

abbrev pub group : {T : Type 0} → (T → ℕ) → ℕ → List T → List T
group key k = filter (λ x. key x == k)

-- The map has for the key what the key's items give; with an exception, some key's items give it.
abbrev pub Amounts :
    {T : Type 0}
    → DuplicateStrategy T
    → (T → ℕ)
    → List T
    → Entries T
    → ℕ
    → Option (Entries T)
    → Type 0
Amounts st key xs m k none = (j : ℕ) × (folded st (lookup j m) (group key j xs) ≡ none)
Amounts st key xs m k (some m') = folded st (lookup k m) (group key k xs) ≡ some (lookup k m')

lookup-store : {T : Type 0} (k : ℕ) (v : T) (m : Entries T) → lookup k (store k v m) ≡ some v
unfolding lookup store
lookup-store k v [] = let own : (k == k) ≡ true = ground arith in rw own refl
lookup-store k v ((j, u) ∷ m) = elim (Bool-cases (j == k)) [
  | inl e ↦ rw (e, e) refl
  | inr e ↦ rw (e, e) (lookup-store k v m)
]

lookup-store_other :
    {T : Type 0} (j k : ℕ) (v : T) (m : Entries T)
    → (j == k) ≡ false
    → lookup k (store j v m) ≡ lookup k m
unfolding lookup store
lookup-store_other j k v [] h = rw h refl
lookup-store_other j k v ((i, u) ∷ m) h = elim (Bool-cases (i == j)) [
  | inl e ↦ let other : (i == k) ≡ false = ground (arith, e, h) in rw (e, other) refl
  | inr e ↦ elim (Bool-cases (i == k)) [
    | inl f ↦ rw (e, f) refl
    | inr f ↦ rw (e, f) (lookup-store_other j k v m h)
  ]
]

-- What one item does to what the map has for its key and for the others.
abbrev Puts :
    {T : Type 0} → DuplicateStrategy T → ℕ → T → Entries T → Option T → Option (Entries T) → Type 0
Puts st j x m o none = next st o x ≡ none
Puts {T} st j x m o (some m') =
    ((v : T) × (next st o x ≡ some v) × (lookup j m' ≡ some v))
    × ((k : ℕ) → (j == k) ≡ false → lookup k m' ≡ lookup k m)

put-Puts :
    {T : Type 0} (st : DuplicateStrategy T) (j : ℕ) (x : T) (m : Entries T) (o : Option T)
    → lookup j m ≡ o
    → Puts st j x m o (put st j x m o)
unfolding put next
put-Puts st j x m none h = ((x, refl, lookup-store j x m), λ k e. lookup-store_other j k x m e)
put-Puts keep_last j x m (some old) h =
    ((x, refl, lookup-store j x m), λ k e. lookup-store_other j k x m e)
put-Puts keep_first j x m (some old) h = ((old, refl, h), λ k e. refl)
put-Puts throw j x m (some old) h = refl
put-Puts (merge f) j x m (some old) h =
    ((f old x, refl, lookup-store j (f old x) m), λ k e. lookup-store_other j k (f old x) m e)

folded-next :
    {T : Type 0} (st : DuplicateStrategy T) (o : Option T) (x v : T) (xs : List T)
    → next st o x ≡ some v
    → folded st o (x ∷ xs) ≡ folded st (some v) xs
unfolding folded
folded-next st o x v xs h = rw (h, folded) refl

folded-thrown :
    {T : Type 0} (st : DuplicateStrategy T) (o : Option T) (x : T) (xs : List T)
    → next st o x ≡ none
    → folded st o (x ∷ xs) ≡ none
unfolding folded
folded-thrown st o x xs h = rw (h, folded) refl

module _ {T : Type 0} (st : DuplicateStrategy T) (key : T → ℕ) where
  -- Every key's items, before and after one item of the list.
  folded-moved :
      (x : T) (xs : List T) (m m' : Entries T)
      → Puts st (key x) x m (lookup (key x) m) (some m')
      → (k : ℕ)
      → folded st (lookup k m) (group key k (x ∷ xs)) ≡ folded st (lookup k m') (group key k xs)
  folded-moved x xs m m' ((v, made, there), others) k = elim (Bool-cases (key x == k)) [
    | inl e ↦
        let same : key x ≡ k = ground (arith, e) in
        rw e (
          subst
            (λ j.
              folded st (lookup j m) (x ∷ group key j xs)
              ≡ folded st (lookup j m') (group key j xs))
            same
            (folded-next st (lookup (key x) m) x v (group key (key x) xs) made
              ∙ sym (ap (λ o. folded st o (group key (key x) xs)) there)))
    | inr e ↦ rw (e, others k e) refl
  ]

  moved-Amounts :
      (x : T) (xs : List T) (m m' : Entries T)
      → Puts st (key x) x m (lookup (key x) m) (some m')
      → (k : ℕ) (r : Option (Entries T)) → Amounts st key xs m' k r
      → Amounts st key (x ∷ xs) m k r
  moved-Amounts x xs m m' p k none (j, h) = (j, folded-moved x xs m m' p j ∙ h)
  moved-Amounts x xs m m' p k (some r) h = folded-moved x xs m m' p k ∙ h

  to_map_from-Amounts :
      (xs : List T) (m : Entries T) (k : ℕ) → Amounts st key xs m k (to_map_from st key xs m)
  unfolding to_map_from folded
  to_map_from-Amounts [] m k = refl
  to_map_from-Amounts (x ∷ xs) m k =
      step (put st (key x) x m (lookup (key x) m)) (put-Puts st (key x) x m (lookup (key x) m) refl)
        (λ m'. to_map_from-Amounts xs m' k)
    where
      step :
          (r : Option (Entries T))
          → Puts st (key x) x m (lookup (key x) m) r
          → ((m' : Entries T) → Amounts st key xs m' k (to_map_from st key xs m'))
          → Amounts st key
              (x ∷ xs)
              m
              k
              (elim r [ none ↦ none | some m' ↦ to_map_from st key xs m' ])
      step none p rest =
          let own : (key x == key x) ≡ true = ground arith in
          (key x, rw own (folded-thrown st (lookup (key x) m) x (group key (key x) xs) p))
      step (some m') p rest = moved-Amounts x xs m m' p k (to_map_from st key xs m') (rest m')

  -- A map made of a list has under each key what the items with that key amount to, in their order:
  -- the last of them, the first or their merge, as the strategy says, and nothing if there are
  -- none; and an exception is thrown exactly when the items of some key give one, under the
  -- strategy that throws.
  pub to_map-Amounts : (xs : List T) (k : ℕ) → Amounts st key xs [] k (to_map st key xs)
  unfolding to_map
  to_map-Amounts xs k = to_map_from-Amounts xs [] k
