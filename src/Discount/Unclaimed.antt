-- ===== src/Discount/Unclaimed.antt =====
-- The campaigns' discounts of products that have none yet.
use jonoob_part_backend.Common.{
  ℕ, ◌≡◌, refl, sym, subst, ap, ◌∙◌, inl, inr, true, false, none, List, [], ◌∷◌, ◌++◌, map, mem, In,
  All, ◌==◌, if◌then◌else◌, Bool-cases, arith,
}
use jonoob_part_backend.Collections.LineItems.{Distinct}
use jonoob_part_backend.Collections.Keyed.{found_by}
use jonoob_part_backend.Discount.Applicable.{Discount, discount_product, unclaimed}

pub unclaimed-found :
    (k : ℕ) (seen : List ℕ) (ds : List Discount)
    → found_by discount_product k (unclaimed seen ds)
      ≡ (if mem k seen then none else found_by discount_product k ds)
unfolding unclaimed
unclaimed-found k seen [] = elim (Bool-cases (mem k seen)) [ inl e ↦ rw e refl | inr e ↦ rw e refl ]
unclaimed-found k seen (d ∷ ds) = elim (Bool-cases (mem d.product_id seen)) [
  | inl e ↦ elim (Bool-cases (d.product_id == k)) [
    | inl t ↦
        let same : d.product_id ≡ k = ground (arith, t) in
        let u : mem k seen ≡ true = subst (λ j. mem j seen ≡ true) same e in
        rw (e, u) (unclaimed-found k seen ds ∙ rw u refl)
    | inr t ↦ rw (e, t) (unclaimed-found k seen ds)
  ]
  | inr e ↦ elim (Bool-cases (d.product_id == k)) [
    | inl t ↦
        let same : d.product_id ≡ k = ground (arith, t) in
        let u : mem k seen ≡ false = subst (λ j. mem j seen ≡ false) same e in rw (e, t, u) refl
    | inr t ↦
        let v : mem k (d.product_id ∷ seen) ≡ mem k seen = ground (arith, t) in
        rw (e, t)
          (unclaimed-found k (d.product_id ∷ seen) ds
            ∙ ap (λ b. if b then none else found_by discount_product k ds) v)
  ]
]

pub unclaimed-absent :
    (k : ℕ) (seen : List ℕ) (ds : List Discount)
    → mem k seen ≡ true
    → mem k (map discount_product (unclaimed seen ds)) ≡ false
unfolding unclaimed
unclaimed-absent k seen [] h = refl
unclaimed-absent k seen (d ∷ ds) h = elim (Bool-cases (mem d.product_id seen)) [
  | inl e ↦ rw e (unclaimed-absent k seen ds h)
  | inr e ↦
      let more : mem k (d.product_id ∷ seen) ≡ true = ground (arith, h) in
      let other : (d.product_id == k) ≡ false = elim (Bool-cases (d.product_id == k)) [
        | inl t ↦
            let same : d.product_id ≡ k = ground (arith, t) in
            cc (sym e ∙ ap (λ j. mem j seen) same ∙ h)
        | inr t ↦ t
      ] in
      rw e (ground (arith, other, unclaimed-absent k (d.product_id ∷ seen) ds more))
]

pub unclaimed-Distinct :
    (seen : List ℕ) (ds : List Discount) → Distinct (map discount_product (unclaimed seen ds))
unfolding unclaimed
unclaimed-Distinct seen [] = tt
unclaimed-Distinct seen (d ∷ ds) = elim (Bool-cases (mem d.product_id seen)) [
  | inl e ↦ rw e (unclaimed-Distinct seen ds)
  | inr e ↦
      let own : mem d.product_id (d.product_id ∷ seen) ≡ true = ground arith in
      rw e (
        unclaimed-absent d.product_id (d.product_id ∷ seen) ds own,
        unclaimed-Distinct (d.product_id ∷ seen) ds,
      )
]

pub unclaimed-In :
    (all : List Discount) (seen : List ℕ) (ds : List Discount)
    → All (λ x. In x all) ds
    → All (λ x. In x all) (unclaimed seen ds)
unfolding unclaimed
unclaimed-In all seen [] h = tt
unclaimed-In all seen (d ∷ ds) (i, h) = elim (Bool-cases (mem d.product_id seen)) [
  | inl e ↦ rw e (unclaimed-In all seen ds h)
  | inr e ↦ rw e (i, unclaimed-In all (d.product_id ∷ seen) ds h)
]

pub In-append-left : {A : Type 0} (xs ys : List A) (x : A) → In x xs → In x (xs ++ ys)
In-append-left [] ys x i = absurd i
In-append-left (y ∷ xs) ys x (inl e) = inl e
In-append-left (y ∷ xs) ys x (inr i) = inr (In-append-left xs ys x i)

pub In-append-right : {A : Type 0} (xs ys : List A) (x : A) → In x ys → In x (xs ++ ys)
In-append-right [] ys x i = i
In-append-right (y ∷ xs) ys x i = inr (In-append-right xs ys x i)

pub All-In :
    {A : Type 0} (all xs : List A) → ((x : A) → In x xs → In x all) → All (λ x. In x all) xs
All-In all [] h = tt
All-In all (x ∷ xs) h = (h x (inl refl), All-In all xs (λ y i. h y (inr i)))
