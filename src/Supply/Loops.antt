-- ===== src/Supply/Loops.antt =====
-- What loops over lists with distinct keys give for each key.
use mathlib.Core.List.{map-append}
use jonoob_part_backend.Common.{
  ℕ, ◌≡◌, refl, sym, subst, ◌∙◌, inl, inr, true, false, Option, none, some, List, [], ◌∷◌, ◌++◌,
  map, mem, ◌==◌, Bool-cases, Option-cases, arith,
}
use jonoob_part_backend.Collections.LineItems.{Distinct}
use jonoob_part_backend.Collections.Keyed.{
  collect, found_by, or_else, then_for, find?-append, append-Distinct, found_none, found-key,
  found-absent,
}

collect-none :
    {A B : Type 0} (f : A → Option B) (x : A) (xs : List A)
    → f x ≡ none
    → collect f (x ∷ xs) ≡ collect f xs
unfolding collect
collect-none f x xs e = rw (e, collect) refl

collect-some :
    {A B : Type 0} (f : A → Option B) (x : A) (y : B) (xs : List A)
    → f x ≡ some y
    → collect f (x ∷ xs) ≡ y ∷ collect f xs
unfolding collect
collect-some f x y xs e = rw (e, collect) refl

module _ {A B : Type 0} (key : A → ℕ) (key' : B → ℕ) (f : A → Option B)
    (same : (x : A) (y : B) → f x ≡ some y → key' y ≡ key x) where
  collect-absent :
      (k : ℕ) (xs : List A) → mem k (map key xs) ≡ false → mem k (map key' (collect f xs)) ≡ false
  unfolding collect
  collect-absent k [] h = refl
  collect-absent k (x ∷ xs) h = elim (Option-cases (f x)) [
    | inl e ↦ rw (collect-none f x xs e) (collect-absent k xs (ground (arith, h)))
    | inr (y, e) ↦ rw (collect-some f x y xs e) (ground (arith, h, same x y e, collect-absent k xs))
  ]

  pub collect-Distinct : (xs : List A) → Distinct (map key xs) → Distinct (map key' (collect f xs))
  unfolding collect
  collect-Distinct [] d = tt
  collect-Distinct (x ∷ xs) (new, d) = elim (Option-cases (f x)) [
    | inl e ↦ rw (collect-none f x xs e) (collect-Distinct xs d)
    | inr (y, e) ↦ rw (collect-some f x y xs e) (
      subst (λ k. mem k (map key' (collect f xs)) ≡ false) (sym (same x y e))
          (collect-absent (key x) xs new),
      collect-Distinct xs d,
    )
  ]

  -- What the loop gives for a key comes from the element with that key.
  pub found-collect :
      (k : ℕ) (xs : List A)
      → Distinct (map key xs)
      → found_by key' k (collect f xs) ≡ then_for f (found_by key k xs)
  unfolding collect
  found-collect k [] d = refl
  found-collect k (x ∷ xs) (new, d) = elim (Option-cases (f x)) [
    | inl e ↦ elim (Bool-cases (key x == k)) [
      | inl t ↦
          let j : key x ≡ k = ground (arith, t) in
          let absent : mem k (map key xs) ≡ false = subst (λ i. mem i (map key xs) ≡ false) j new in
          rw (collect-none f x xs e, t)
            (found_none key' k (collect f xs) (collect-absent k xs absent) ∙ sym e)
      | inr t ↦ rw (collect-none f x xs e, t) (found-collect k xs d)
    ]
    | inr (y, e) ↦
        let own = same x y e in
        elim (Bool-cases (key x == k)) [
          | inl t ↦
              let u : (key' y == k) ≡ true = subst (λ i. (i == k) ≡ true) (sym own) t in
              rw (collect-some f x y xs e, t, u) (sym e)
          | inr t ↦
              let u : (key' y == k) ≡ false = subst (λ i. (i == k) ≡ false) (sym own) t in
              rw (collect-some f x y xs e, t, u) (found-collect k xs d)
        ]
  ]

-- A loop over one list and then a loop over another, which passes over the keys of the first.
module _ {A B : Type 0} (key : A → ℕ) (key' : B → ℕ) (f h : A → Option B)
    (same_f : (x : A) (y : B) → f x ≡ some y → key' y ≡ key x)
    (same_h : (x : A) (y : B) → h x ≡ some y → key' y ≡ key x) where
  pub both-Distinct :
      (old new : List A)
      → Distinct (map key old)
      → Distinct (map key new)
      → ((x : A) → mem (key x) (map key old) ≡ true → h x ≡ none)
      → Distinct (map key' (collect f old ++ collect h new))
  both-Distinct old new d d' passed =
      subst Distinct (sym (map-append key' (collect f old) (collect h new))) (
        append-Distinct (map key' (collect f old)) (map key' (collect h new))
          (collect-Distinct key key' f same_f old d) (collect-Distinct key key' h same_h new d')
          λ k i. found-absent key' k (collect h new) (
            found-collect key key' h same_h k new d'
            ∙ skipped k (there k i) (found_by key k new) refl))
    where
      there : (k : ℕ) → mem k (map key' (collect f old)) ≡ true → mem k (map key old) ≡ true
      there k i = elim (Bool-cases (mem k (map key old))) [
        | inl e ↦ e
        | inr e ↦ cc (sym i ∙ collect-absent key key' f same_f k old e)
      ]

      skipped :
          (k : ℕ)
          → mem k (map key old) ≡ true
          → (o : Option A) → found_by key k new ≡ o
          → then_for h o ≡ none
      skipped k i none e = refl
      skipped k i (some x) e =
          passed x (subst (λ j. mem j (map key old) ≡ true) (sym (found-key key k new x e)) i)

  pub found-both :
      (k : ℕ) (old new : List A)
      → Distinct (map key old)
      → Distinct (map key new)
      → found_by key' k (collect f old ++ collect h new)
        ≡ or_else (then_for f (found_by key k old)) (then_for h (found_by key k new))
  found-both k old new d d' =
      find?-append (λ y. key' y == k) (collect f old) (collect h new)
      ∙ rw (found-collect key key' f same_f k old d, found-collect key key' h same_h k new d') refl
