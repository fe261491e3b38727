-- ===== src/Markup/Ignored.antt =====
-- Policies are kept under their own ids and looked up by the ids that they refer to.
use jonoob_part_backend.Common.{
  ℕ, ◌≡◌, refl, ap, ◌∙◌, inl, inr, Bool, Option, none, some, List, [], ◌∷◌, ◌++◌, map, filter, All,
  ◌==◌, Bool-cases,
}
use jonoob_part_backend.Collections.LineItems.{LineItems, Distinct, IsKeyed}
use jonoob_part_backend.Collections.Keyed.{found_by, filter-Distinct}
use jonoob_part_backend.Markup.Policies.{
  Scope, product, category, brand, MarkupPolicy, MarkupReference, Product, Markup, brand_references,
  references_of, markup_references, has_scope, highest, select_higher,
}
use jonoob_part_backend.Markup.Service.{
  retail, Services, policy_id, brand_markup, rate_for, policy_with_scope, markup_at, markups_by,
  resolve_many, markup_product,
}

filter-none :
    (p : MarkupPolicy → Bool) (k : ℕ) (xs : List MarkupPolicy)
    → found_by policy_id k xs ≡ none
    → found_by policy_id k (filter p xs) ≡ none
filter-none p k [] h = refl
filter-none p k (x ∷ xs) h = elim (Bool-cases (x.id == k)) [
  | inl e ↦ cc (rw e at h)
  | inr e ↦
      let rest = filter-none p k xs (rw e at h) in
      elim (Bool-cases (p x)) [ inl t ↦ rw (t, e) rest | inr t ↦ rw t rest ]
]

highest-none :
    (get_item : ℕ → Option MarkupPolicy) (cs : List ℕ)
    → All (λ k. get_item k ≡ none) cs
    → highest get_item none cs ≡ none
unfolding highest
highest-none get_item [] h = refl
highest-none get_item (c ∷ cs) (e, h) = rw e (highest-none get_item cs h)

append-All : {A : Type 0} (P : A → Type 0) (xs ys : List A) → All P (xs ++ ys) → All P xs × All P ys
append-All P [] ys h = (tt, h)
append-All P (x ∷ xs) ys (e, h) = let (l, r) = append-All P xs ys h in ((e, l), r)

map-All :
    {A B : Type 0} (P : B → Type 0) (f : A → B) (xs : List A)
    → All P (map f xs)
    → All (λ x. P (f x)) xs
map-All P f [] h = tt
map-All P f (x ∷ xs) (e, h) = (e, map-All P f xs h)

-- No policy's id is the id of what is referred to.
abbrev pub IsApart : List MarkupPolicy → List MarkupReference → Type 0
IsApart policies = All (λ r. found_by policy_id r.reference_id policies ≡ none)

All-mono :
    {A : Type 0} (P Q : A → Type 0) → ((a : A) → P a → Q a) → (xs : List A) → All P xs → All Q xs
All-mono P Q f [] h = tt
All-mono P Q f (x ∷ xs) (e, h) = (f x e, All-mono P Q f xs h)

brand-none :
    (get_item : ℕ → Option MarkupPolicy) (b : Option ℕ)
    → All (λ r. get_item r.reference_id ≡ none) (brand_references b)
    → brand_markup get_item b ≡ none
brand-none get_item none h = refl
brand-none get_item (some b) h = h.0

module _ (c : LineItems) (keyed : IsKeyed c) (policies : List MarkupPolicy)
    (d : Distinct (map policy_id policies)) where
  scope_none :
      (s : Scope) (k : ℕ)
      → found_by policy_id k policies ≡ none
      → policy_with_scope c policies s k ≡ none
  unfolding policy_with_scope
  scope_none s k h =
      let p = has_scope s in
      keyed.finds MarkupPolicy policy_id (filter p policies) k
        (filter-Distinct policy_id p policies d)
      ∙ filter-none p k policies h

  rate-global :
      (global : ℕ) (p : Product)
      → IsApart policies (references_of p)
      → rate_for global (policy_with_scope c policies) p ≡ global
  unfolding rate_for select_higher
  rate-global global p h =
      let none_at : ℕ → Type 0 = λ k. found_by policy_id k policies ≡ none in
      let brands = brand_references p.brand_id in
      let categories : List MarkupReference =
        map (λ k. record { scope = category; reference_id = k }) p.category_ids in
      let own : MarkupReference = record { scope = product; reference_id = p.id } in
      let (of_brand, rest) =
        append-All (λ r. none_at r.reference_id) brands (categories ++ (own ∷ [])) h in
      let (of_categories, of_product) =
        append-All (λ r. none_at r.reference_id) categories (own ∷ []) rest in
      let by_category = highest-none (policy_with_scope c policies category) p.category_ids (
        All-mono none_at (λ k. policy_with_scope c policies category k ≡ none) (scope_none category)
          p.category_ids
          (map-All (λ r. none_at r.reference_id)
            (λ k. record { scope = category; reference_id = k }) p.category_ids of_categories)) in
      let by_brand = brand-none (policy_with_scope c policies brand) p.brand_id (
        All-mono (λ r. none_at r.reference_id)
          (λ r. policy_with_scope c policies brand r.reference_id ≡ none)
          (λ r. scope_none brand r.reference_id) brands of_brand) in
      let by_product = scope_none product p.id of_product.0 in
      rw (by_product, by_category, by_brand) refl

  rates-global :
      (global : ℕ) (ps : List Product)
      → IsApart policies (markup_references ps)
      → map (markup_at (rate_for global (policy_with_scope c policies))) ps
        ≡ map (markup_at (λ p. global)) ps
  unfolding markup_references
  rates-global global [] h = refl
  rates-global global (p ∷ ps) h =
      let (first, rest) =
        append-All (λ r. found_by policy_id r.reference_id policies ≡ none) (references_of p)
          (markup_references ps) h in
      rw (rate-global global p first, rates-global global ps rest) refl

-- The markup of every product is the global one, whatever policies the repository finds for the
-- products, their categories and brands, as long as these policies have distinct ids and none has
-- the id of a product, category or brand that was asked for; collections keep what is set under
-- distinct keys. This is for retail prices.
pub policies_ignored :
    (c : LineItems) (sv : Services) (ids : List ℕ)
    → IsKeyed c
    → Distinct (map policy_id (sv.find_policies (markup_references (sv.find_products ids))))
    → IsApart
        (sv.find_policies (markup_references (sv.find_products ids)))
        (markup_references (sv.find_products ids))
    → resolve_many c sv retail ids
      ≡ markups_by c (λ p. sv.global_rate retail) (sv.find_products ids)
unfolding resolve_many
policies_ignored c sv ids keyed d apart =
    let ps = sv.find_products ids in
    let policies = sv.find_policies (markup_references ps) in
    ap (c.from Markup markup_product)
      (rates-global c keyed policies d (sv.global_rate retail) ps apart)
