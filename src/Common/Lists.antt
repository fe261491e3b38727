-- ===== src/Common/Lists.antt =====
-- Lists measured by native numbers, filtered by Boolean tests, and predicates on their elements.
use Prim.Native.Nat.{ℕ, zero, suc, ◌+◌, ◌≤◌}
use mathlib.Core.Path.{◌≡◌, refl, sym, subst, ◌∙◌}
use mathlib.Core.Logic.{◌⊎◌, inl, inr}
use mathlib.Core.Bool.{Bool, true, false, ◌||◌}
use mathlib.Core.List.{List, [], ◌∷◌, ◌++◌, map}
use mathlib.Core.Option.{Option, none, some, some-injective}
use native.Mathlib.Omega.{arith}
use jonoob_part_backend.Common.Tests.{◌==◌, if◌then◌else◌, Bool-cases, Option-cases}

module _ {ℓ} {A : Type ℓ} where
  abbrev pub length : List A → ℕ
  length [] = 0
  length (x ∷ xs) = suc (length xs)

  abbrev pub take : ℕ → List A → List A
  take zero xs = []
  take (suc n) [] = []
  take (suc n) (x ∷ xs) = x ∷ take n xs

  abbrev pub filter : (A → Bool) → List A → List A
  filter p [] = []
  filter p (x ∷ xs) = if p x then x ∷ filter p xs else filter p xs

  abbrev pub any : (A → Bool) → List A → Bool
  any p [] = false
  any p (x ∷ xs) = p x || any p xs

  abbrev pub find? : (A → Bool) → List A → Option A
  find? p [] = none
  find? p (x ∷ xs) = if p x then some x else find? p xs

  abbrev pub get_last? : List A → Option A
  get_last? [] = none
  get_last? (x ∷ xs) = elim (get_last? xs) [ none ↦ some x | some y ↦ some y ]

  -- The predicates on the elements compute to tuples and to sums.
  abbrev pub All {κ} : (A → Type κ) → List A → Type κ
  All P [] = Unit
  All P (x ∷ xs) = P x × All P xs

  pub length-append : (xs ys : List A) → length (xs ++ ys) ≡ length xs + length ys
  length-append [] ys = omega arith
  length-append (x ∷ xs) ys = omega (arith, length-append xs ys)

  pub length-take-le : (n : ℕ) (xs : List A) → length (take n xs) ≤ n
  length-take-le zero xs = omega arith
  length-take-le (suc n) [] = omega arith
  length-take-le (suc n) (x ∷ xs) = omega (arith, length-take-le n xs)

abbrev pub mem : ℕ → List ℕ → Bool
mem a = any (λ b. a == b)

abbrev pub In : {A : Type 0} → A → List A → Type 0
In a [] = ⊥
In a (x ∷ xs) = (a ≡ x) ⊎ In a xs

pub In-All : {A : Type 0} (P : A → Type 0) (xs : List A) (a : A) → All P xs → In a xs → P a
In-All P [] a h i = absurd i
In-All P (x ∷ xs) a h (inl e) = rw e h.0
In-All P (x ∷ xs) a h (inr i) = In-All P xs a h.1 i

pub In-filter :
    {A : Type 0} (p : A → Bool) (xs : List A) (a : A) → In a (filter p xs) → In a xs × (p a ≡ true)
In-filter p [] a i = absurd i
In-filter p (x ∷ xs) a i = elim (Bool-cases (p x)) [
  | inl e ↦ elim (rw e at i) [
    | inl h ↦ (inl h, rw h e)
    | inr h ↦ let (j, t) = In-filter p xs a h in (inr j, t)
  ]
  | inr e ↦ let (j, t) = In-filter p xs a (rw e at i) in (inr j, t)
]

pub filter-In :
    {A : Type 0} (p : A → Bool) (xs : List A) (a : A) → In a xs → p a ≡ true → In a (filter p xs)
filter-In p [] a i t = absurd i
filter-In p (x ∷ xs) a (inl h) t = let e : p x ≡ true = rw (← h) t in rw e (inl h)
filter-In p (x ∷ xs) a (inr h) t = elim (Bool-cases (p x)) [
  | inl e ↦ rw e (inr (filter-In p xs a h t))
  | inr e ↦ rw e (filter-In p xs a h t)
]

pub filter-All :
    {A : Type 0} (P : A → Type 0) (p : A → Bool) (xs : List A) → All P xs → All P (filter p xs)
filter-All P p [] h = tt
filter-All P p (x ∷ xs) h = elim (Bool-cases (p x)) [
  | inl e ↦ rw e (h.0, filter-All P p xs h.1)
  | inr e ↦ rw e (filter-All P p xs h.1)
]

pub filter_sound : {A : Type 0} (p : A → Bool) (xs : List A) → All (λ a. p a ≡ true) (filter p xs)
filter_sound p [] = tt
filter_sound p (x ∷ xs) = elim (Bool-cases (p x)) [
  | inl e ↦ rw e (e, filter_sound p xs)
  | inr e ↦ rw e (filter_sound p xs)
]

pub filter-map :
    {A : Type 0} (p : A → Bool) (f : A → A) (xs : List A)
    → ((x : A) → p (f x) ≡ p x)
    → filter p (map f xs) ≡ map f (filter p xs)
filter-map p f [] h = refl
filter-map p f (x ∷ xs) h = elim (Bool-cases (p x)) [
  | inl e ↦ rw (h x, e, filter-map p f xs h)
  | inr e ↦ rw (h x, e, filter-map p f xs h)
]

pub get_last?-map :
    {A : Type 0} (f : A → A) (xs : List A)
    → get_last? (map f xs) ≡ elim (get_last? xs) [ none ↦ none | some q ↦ some (f q) ]
get_last?-map f [] = refl
get_last?-map f (x ∷ xs) = elim (Option-cases (get_last? xs)) [
  | inl h ↦ rw (get_last?-map f xs, h)
  | inr (q, h) ↦ rw (get_last?-map f xs, h)
]

pub get_last?-map-some :
    {A : Type 0} (f : A → A) (xs : List A) (p : A)
    → get_last? (map f xs) ≡ some p
    → (q : A) × (get_last? xs ≡ some q) × (p ≡ f q)
get_last?-map-some f xs p e = elim (Option-cases (get_last? xs)) [
  | inl h ↦ absurd (cc (rw h at (sym (get_last?-map f xs) ∙ e)))
  | inr (q, h) ↦ (q, h, some-injective _ _ (sym (rw h at (sym (get_last?-map f xs) ∙ e))))
]

pub get_last?-In : {A : Type 0} (xs : List A) (q : A) → get_last? xs ≡ some q → In q xs
get_last?-In [] q e = cc
get_last?-In (x ∷ xs) q e = elim (Option-cases (get_last? xs)) [
  | inl h ↦ inl (some-injective _ _ (sym (rw h at e)))
  | inr (y, h) ↦ inr (get_last?-In xs q (h ∙ rw h at e))
]

pub find?-In :
    {A : Type 0} (p : A → Bool) (xs : List A) (a : A) → find? p xs ≡ some a → In a xs × (p a ≡ true)
find?-In p [] a e = cc
find?-In p (x ∷ xs) a e = elim (Bool-cases (p x)) [
  | inl t ↦
      let same : a ≡ x = some-injective _ _ (sym (rw t at e)) in
      (inl same, subst (λ y. p y ≡ true) (sym same) t)
  | inr t ↦ let (i, h) = find?-In p xs a (rw t at e) in (inr i, h)
]

pub any-In :
    {A : Type 0} (p : A → Bool) (xs : List A) (a : A) → In a xs → p a ≡ true → any p xs ≡ true
any-In p [] a i t = absurd i
any-In p (x ∷ xs) a (inl e) t = let h : p x ≡ true = rw (← e) t in rw h refl
any-In p (x ∷ xs) a (inr i) t = elim (Bool-cases (p x)) [
  | inl h ↦ rw h refl
  | inr h ↦ rw h (any-In p xs a i t)
]
