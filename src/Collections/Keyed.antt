-- ===== src/Collections/Keyed.antt =====
-- Lists whose elements have distinct keys.
use jonoob_part_backend.Common.{
  ℕ, ◌+◌, ◌≡◌, refl, sym, subst, ◌∙◌, inl, inr, Bool, true, false, Option, none, some, List, [],
  ◌∷◌, ◌++◌, map, filter, find?, mem, ◌==◌, if◌then◌else◌, Bool-cases, arith,
}
use jonoob_part_backend.Collections.LineItems.{Distinct}

-- A loop that gives at most one element for each.
unfoldable pub collect : {A B : Type 0} → (A → Option B) → List A → List B
collect f [] = []
collect f (x ∷ xs) = let rest = collect f xs in elim (f x) [ none ↦ rest | some y ↦ y ∷ rest ]

abbrev pub found_by : {A : Type 0} → (A → ℕ) → ℕ → List A → Option A
found_by key k = find? (λ x. key x == k)

-- The sum of what the elements with a key have.
unfoldable pub total : {A : Type 0} → (A → ℕ) → (A → ℕ) → ℕ → List A → ℕ
total key amount k [] = 0
total key amount k (x ∷ xs) =
    let rest = total key amount k xs in if key x == k then amount x + rest else rest

abbrev pub amount_of : {A : Type 0} → (A → ℕ) → Option A → ℕ
amount_of amount none = 0
amount_of amount (some x) = amount x

abbrev pub or_else : {A : Type 0} → Option A → Option A → Option A
or_else none o = o
or_else (some x) o = some x

abbrev pub then_for : {A B : Type 0} → (A → Option B) → Option A → Option B
then_for f none = none
then_for f (some x) = f x

abbrev pub kept_if : {A : Type 0} → (A → Bool) → Option A → Option A
kept_if p none = none
kept_if p (some x) = if p x then some x else none

pub find?-append :
    {A : Type 0} (p : A → Bool) (xs ys : List A)
    → find? p (xs ++ ys) ≡ or_else (find? p xs) (find? p ys)
find?-append p [] ys = refl
find?-append p (x ∷ xs) ys = elim (Bool-cases (p x)) [
  | inl e ↦ rw e refl
  | inr e ↦ rw e (find?-append p xs ys)
]

pub mem-append :
    (k : ℕ) (xs ys : List ℕ) → mem k xs ≡ false → mem k ys ≡ false → mem k (xs ++ ys) ≡ false
mem-append k [] ys h e = e
mem-append k (x ∷ xs) ys h e = ground (arith, mem-append k xs ys)

pub append-Distinct :
    (xs ys : List ℕ)
    → Distinct xs
    → Distinct ys
    → ((k : ℕ) → mem k xs ≡ true → mem k ys ≡ false)
    → Distinct (xs ++ ys)
append-Distinct [] ys h d apart = d
append-Distinct (x ∷ xs) ys (new, h) d apart =
    let own : (x == x) ≡ true = ground arith in
    (
      mem-append x xs ys new (apart x (rw own refl)),
      append-Distinct xs ys h d (λ k i. apart k (rw i (ground arith))),
    )

module _ {A : Type 0} (key : A → ℕ) where
  pub found_none : (k : ℕ) (xs : List A) → mem k (map key xs) ≡ false → found_by key k xs ≡ none
  found_none k [] h = refl
  found_none k (x ∷ xs) h = ground (arith, h, found_none k xs)

  pub found-key : (k : ℕ) (xs : List A) (x : A) → found_by key k xs ≡ some x → key x ≡ k
  found-key k [] x h = cc
  found-key k (y ∷ ys) x h = ground (arith, h, found-key k ys x)

  pub total-absent :
      (amount : A → ℕ) (k : ℕ) (xs : List A)
      → mem k (map key xs) ≡ false
      → total key amount k xs ≡ 0
  unfolding total
  total-absent amount k [] h = refl
  total-absent amount k (x ∷ xs) h = ground (arith, h, total-absent amount k xs)

  pub filter-absent :
      (p : A → Bool) (k : ℕ) (xs : List A)
      → mem k (map key xs) ≡ false
      → mem k (map key (filter p xs)) ≡ false
  filter-absent p k [] h = refl
  filter-absent p k (x ∷ xs) h = ground (arith, h, filter-absent p k xs)

  -- Of distinct keys, a key's sum is what its element has, where that passes.
  pub total-filter :
      (amount : A → ℕ) (p : A → Bool) (k : ℕ) (xs : List A)
      → Distinct (map key xs)
      → total key amount k (filter p xs) ≡ amount_of amount (kept_if p (found_by key k xs))
  unfolding total
  total-filter amount p k [] d = refl
  total-filter amount p k (x ∷ xs) (new, d) = elim (Bool-cases (key x == k)) [
    | inl e ↦
        let same : key x ≡ k = ground (arith, e) in
        let absent : mem k (map key xs) ≡ false =
          subst (λ j. mem j (map key xs) ≡ false) same new in
        let rest = total-absent amount k (filter p xs) (filter-absent p k xs absent) in
        elim (Bool-cases (p x)) [
          | inl t ↦ rw (t, e, t) (omega (arith, rest))
          | inr t ↦ rw (t, e, t) rest
        ]
    | inr e ↦ elim (Bool-cases (p x)) [
      | inl t ↦ rw (t, e) (total-filter amount p k xs d)
      | inr t ↦ rw (t, e) (total-filter amount p k xs d)
    ]
  ]

  -- The sum over the whole list.
  pub total-found :
      (amount : A → ℕ) (k : ℕ) (xs : List A)
      → Distinct (map key xs)
      → total key amount k xs ≡ amount_of amount (found_by key k xs)
  unfolding total
  total-found amount k [] d = refl
  total-found amount k (x ∷ xs) (new, d) = elim (Bool-cases (key x == k)) [
    | inl e ↦
        let same : key x ≡ k = ground (arith, e) in
        let absent : mem k (map key xs) ≡ false =
          subst (λ j. mem j (map key xs) ≡ false) same new in
        let rest = total-absent amount k xs absent in rw e (omega (arith, rest))
    | inr e ↦ rw e (total-found amount k xs d)
  ]

pub found-absent :
    {A : Type 0} (key : A → ℕ) (k : ℕ) (xs : List A)
    → found_by key k xs ≡ none
    → mem k (map key xs) ≡ false
found-absent key k [] h = refl
found-absent key k (x ∷ xs) h = elim (Bool-cases (key x == k)) [
  | inl e ↦ cc (rw e at h)
  | inr e ↦ ground (arith, e, found-absent key k xs (rw e at h))
]

pub found-mem :
    {A : Type 0} (key : A → ℕ) (k : ℕ) (xs : List A) (x : A)
    → found_by key k xs ≡ some x
    → mem k (map key xs) ≡ true
found-mem key k xs x h = elim (Bool-cases (mem k (map key xs))) [
  | inl e ↦ e
  | inr e ↦ cc (sym (found_none key k xs e) ∙ h)
]

pub filter-Distinct :
    {A : Type 0} (key : A → ℕ) (p : A → Bool) (xs : List A)
    → Distinct (map key xs)
    → Distinct (map key (filter p xs))
filter-Distinct key p [] d = tt
filter-Distinct key p (x ∷ xs) (new, d) = elim (Bool-cases (p x)) [
  | inl e ↦ rw e (filter-absent key p (key x) xs new, filter-Distinct key p xs d)
  | inr e ↦ rw e (filter-Distinct key p xs d)
]

filter-other :
    {A : Type 0} (key : A → ℕ) (p : A → Bool) (k : ℕ) (x : A) (xs : List A)
    → (key x == k) ≡ false
    → mem k (map key (filter p (x ∷ xs))) ≡ mem k (map key (filter p xs))
filter-other key p k x xs t = elim (Bool-cases (p x)) [
  | inl e ↦ rw e (ground (arith, t))
  | inr e ↦ rw e refl
]

-- What passes two tests that exclude each other, with distinct keys.
pub filter-apart :
    {A : Type 0} (key : A → ℕ) (p q : A → Bool) (xs : List A)
    → ((x : A) → p x ≡ true → q x ≡ false)
    → Distinct (map key xs)
    → (k : ℕ) → mem k (map key (filter p xs)) ≡ true
    → mem k (map key (filter q xs)) ≡ false
filter-apart key p q [] e d k i = refl
filter-apart key p q (x ∷ xs) e (new, d) k i = elim (Bool-cases (key x == k)) [
  | inl t ↦
      let same : key x ≡ k = ground (arith, t) in
      let out : mem k (map key xs) ≡ false = subst (λ j. mem j (map key xs) ≡ false) same new in
      elim (Bool-cases (p x)) [
        | inl u ↦ rw (e x u) (filter-absent key q k xs out)
        | inr u ↦ cc (sym (rw u at i) ∙ filter-absent key p k xs out)
      ]
  | inr t ↦
      filter-other key q k x xs t
      ∙ filter-apart key p q xs e d k (sym (filter-other key p k x xs t) ∙ i)
]
