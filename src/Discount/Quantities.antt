-- ===== src/Discount/Quantities.antt =====
-- The quantities that are resolved for many discounts at once.
use mathlib.Core.List.{map-append}
use jonoob_part_backend.Common.{
  ℕ, ◌≡◌, refl, sym, subst, ap, ◌∙◌, inl, inr, Bool, true, false, not, Option, none, some, List, [],
  ◌∷◌, ◌++◌, map, filter, mem, In, All, filter-In, ◌⊎◌, ◌==◌, if◌then◌else◌, Bool-cases, ok, arith,
}
use jonoob_part_backend.Collections.LineItems.{LineItems, Distinct, IsKeyed}
use jonoob_part_backend.Collections.Keyed.{
  found_by, or_else, kept_if, find?-append, append-Distinct, filter-Distinct, filter-apart,
  found_none, filter-absent,
}
use jonoob_part_backend.Discount.Usages.{unlimited, limited, DiscountUsagePolicy, or_empty}
use jonoob_part_backend.Discount.Applicable.{
  Discount, Kind, Resolved, Repositories, quantity_for, is_limited, discount_id, resolved_id,
  ids_of, resolve_quantity, applicable, resolved, resolve_quantities, with_quantity,
  with_quantities,
}

abbrev pub map_some : {A B : Type 0} → (A → B) → Option A → Option B
map_some f none = none
map_some f (some a) = some (f a)

pub found-map :
    {A B : Type 0} (key' : B → ℕ) (f : A → B) (k : ℕ) (xs : List A)
    → found_by key' k (map f xs) ≡ map_some f (found_by (λ x. key' (f x)) k xs)
found-map key' f k [] = refl
found-map key' f k (x ∷ xs) = elim (Bool-cases (key' (f x) == k)) [
  | inl e ↦ rw e refl
  | inr e ↦ rw e (found-map key' f k xs)
]

pub map-map :
    {A B C : Type 0} (g : B → C) (f : A → B) (xs : List A)
    → map g (map f xs) ≡ map (λ x. g (f x)) xs
map-map g f [] = refl
map-map g f (x ∷ xs) = ap (λ ys. g (f x) ∷ ys) (map-map g f xs)

In-mem :
    {A : Type 0} (key : A → ℕ) (x : A) (xs : List A) → In x xs → mem (key x) (map key xs) ≡ true
In-mem key x [] i = absurd i
In-mem key x (y ∷ ys) (inl e) = let same : key x ≡ key y = ap key e in ground (arith, same)
In-mem key x (y ∷ ys) (inr i) = ground (arith, In-mem key x ys i)

apart :
    {A : Type 0} (key : A → ℕ) (x y : A) (ys : List A)
    → mem (key y) (map key ys) ≡ false
    → In x ys
    → (key y == key x) ≡ false
apart key x y ys new i = elim (Bool-cases (key y == key x)) [
  | inl e ↦
      let same : key y ≡ key x = ground (arith, e) in
      cc (sym new ∙ ap (λ k. mem k (map key ys)) same ∙ In-mem key x ys i)
  | inr e ↦ e
]

not-true : (b : Bool) → not b ≡ true → b ≡ false
not-true true e = cc
not-true false e = refl

-- Asked for many discounts at once, the repository answers what it does for each.
abbrev pub UsagesAgree : Repositories → ℕ → List ℕ → Type 0
UsagesAgree rs customer ids =
    (id : ℕ)
    → mem id ids ≡ true
    → (rs.customer_usages customer ids id ≡ rs.customer_usage customer id)
      × (or_empty (rs.many_discount_usages ids id) ≡ rs.discount_usages id)

-- An element of a list with distinct keys is found by its key, if it passes the filter.
found-filter :
    {A : Type 0} (key : A → ℕ) (p : A → Bool) (x : A) (xs : List A)
    → Distinct (map key xs)
    → In x xs
    → found_by key (key x) (filter p xs) ≡ kept_if p (some x)
found-filter key p x [] d i = absurd i
found-filter key p x (y ∷ ys) (new, d) (inl e) =
    subst (λ z. found_by key (key z) (filter p (y ∷ ys)) ≡ kept_if p (some z)) (sym e)
      (own (Bool-cases (p y)))
  where
    own :
        ((p y ≡ true) ⊎ (p y ≡ false))
        → found_by key (key y) (filter p (y ∷ ys)) ≡ kept_if p (some y)
    own (inl t) = let same : (key y == key y) ≡ true = ground arith in rw (t, same) refl
    own (inr t) = rw t (found_none key (key y) (filter p ys) (filter-absent key p (key y) ys new))
found-filter key p x (y ∷ ys) (new, d) (inr i) =
    let rest = found-filter key p x ys d i in
    let other = apart key x y ys new i in
    elim (Bool-cases (p y)) [ inl t ↦ rw (t, other) rest | inr t ↦ rw t rest ]

module _ (c : LineItems) (keyed : IsKeyed c) (rs : Repositories) (customer : ℕ) (ds : List Discount)
    (d : Distinct (map discount_id ds)) (agree : UsagesAgree rs customer (ids_of ds)) where
  abbrev resolved_list : List Resolved
  resolved_list =
      map (resolved rs customer (ids_of ds)) (filter (λ d. not (is_limited d)) ds)
      ++ map (resolved rs customer (ids_of ds)) (filter is_limited ds)

  resolved-Distinct : Distinct (map resolved_id resolved_list)
  resolved-Distinct =
      let f = resolved rs customer (ids_of ds) in
      let us = filter (λ d. not (is_limited d)) ds in
      let ls = filter is_limited ds in
      subst Distinct
        (sym (
          map-append resolved_id (map f us) (map f ls)
          ∙ ap (λ xs. xs ++ map resolved_id (map f ls)) (map-map resolved_id f us)
          ∙ ap (λ xs. map discount_id us ++ xs) (map-map resolved_id f ls)))
        (append-Distinct (map discount_id us) (map discount_id ls)
          (filter-Distinct discount_id (λ d. not (is_limited d)) ds d)
          (filter-Distinct discount_id is_limited ds d)
          (filter-apart discount_id (λ d. not (is_limited d)) is_limited ds
            (λ x e. not-true (is_limited x) e) d))

  resolved-found :
      (x : Discount)
      → In x ds
      → c.get Resolved x.id (resolve_quantities c rs customer ds)
        ≡ some (resolved rs customer (ids_of ds) x)
  unfolding resolve_quantities
  resolved-found x i =
      let f = resolved rs customer (ids_of ds) in
      let us = filter (λ d. not (is_limited d)) ds in
      let ls = filter is_limited ds in
      keyed.finds Resolved resolved_id resolved_list x.id resolved-Distinct
      ∙ find?-append (λ r. r.discount_id == x.id) (map f us) (map f ls)
      ∙ rw
          (
            found-map resolved_id f x.id us,
            found-map resolved_id f x.id ls,
            found-filter discount_id (λ d. not (is_limited d)) x ds d i,
            found-filter discount_id is_limited x ds d i,
          )
          (split (is_limited x))
    where
      split :
          (b : Bool)
          → or_else
              (map_some (resolved rs customer (ids_of ds)) (if not b then some x else none))
              (map_some (resolved rs customer (ids_of ds)) (if b then some x else none))
            ≡ some (resolved rs customer (ids_of ds) x)
      split true = refl
      split false = refl

  quantity-same :
      (x : Discount)
      → In x ds
      → (resolved rs customer (ids_of ds) x).applicable_quantity ≡ resolve_quantity rs customer x
  unfolding resolve_quantity
  quantity-same x i = go x.usage_policy refl
    where
      go :
          (p : DiscountUsagePolicy)
          → x.usage_policy ≡ p
          → quantity_for p
              (rs.customer_usages customer (ids_of ds) x.id)
              (or_empty (rs.many_discount_usages (ids_of ds) x.id))
            ≡ quantity_for p (rs.customer_usage customer x.id) (rs.discount_usages x.id)
      go unlimited e = refl
      go (limited t u) e =
          let is : is_limited x ≡ true = rw e refl in
          let (one, other) =
            agree x.id
              (In-mem discount_id x (filter is_limited ds) (filter-In is_limited ds x i is)) in
          rw (one, other) refl

  pub with_quantities-All :
      (k : Kind) (xs : List Discount)
      → All (λ x. In x ds) xs
      → with_quantities c (resolve_quantities c rs customer ds) k xs
        ≡ ok (map (applicable rs customer k) xs)
  unfolding with_quantities
  with_quantities-All k [] h = refl
  with_quantities-All k (x ∷ xs) (i, h) =
      let one : with_quantity c (resolve_quantities c rs customer ds) k x
          ≡ ok (applicable rs customer k x) =
        rw (resolved-found x i, with_quantity)
          (ap (λ q. ok (record { discount = x; applicable_quantity = q; kind = k }))
            (quantity-same x i)) in
      rw (one, with_quantities-All k xs h) refl
