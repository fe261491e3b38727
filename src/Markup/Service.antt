-- ===== src/Markup/Service.antt =====
-- `resolveMany` and `resolve` of features/store/pricing/markup/impl/src/markup.service.ts. The catalog
-- and the repository are parameters.
use jonoob_part_backend.Common.{ℕ, Option, none, some, List, [], ◌∷◌, map, filter, Result, ok, err}
use jonoob_part_backend.Collections.LineItems.{LineItems}
use jonoob_part_backend.Markup.Policies.{
  Scope, product, category, brand, MarkupPolicy, MarkupReference, Product, Markup,
  markup_references, has_scope, highest, select_higher,
}

pub data PricingPolicy : Type 0 where
  retail : PricingPolicy
  wholesale : PricingPolicy

pub record Services : Type 0 where
  -- `catalog.findMany`, `findManyByReference` and `getGlobalMarkup`
  pub find_products : List ℕ → List Product
  pub find_policies : List MarkupReference → List MarkupPolicy
  pub global_rate : PricingPolicy → ℕ

pub data MarkupError : Type 0 where
  not_resolved : MarkupError

abbrev pub policy_id : MarkupPolicy → ℕ
policy_id p = p.id

abbrev pub markup_product : Markup → ℕ
markup_product m = m.product_id

abbrev pub rate_or : ℕ → Option MarkupPolicy → ℕ
rate_or global none = global
rate_or global (some p) = p.rate

abbrev pub brand_markup : (ℕ → Option MarkupPolicy) → Option ℕ → Option MarkupPolicy
brand_markup get_item none = none
brand_markup get_item (some b) = get_item b

abbrev pub scoped_rate : ℕ → (ℕ → Option MarkupPolicy) → (ℕ → Option MarkupPolicy) → Product → ℕ
scoped_rate global categories brands p =
    rate_or global
      (select_higher (highest categories none p.category_ids) (brand_markup brands p.brand_id))

-- The loop's body for one product.
unfoldable pub rate_for : ℕ → (Scope → ℕ → Option MarkupPolicy) → Product → ℕ
unfolding highest select_higher
rate_for global policy p =
    rate_or (scoped_rate global (policy category) (policy brand) p) (policy product p.id)

abbrev pub markup_at : (Product → ℕ) → Product → Markup
markup_at rate p = record { product_id = p.id; rate = rate p }

module _ (c : LineItems) where
  -- `filterMarkupPoliciesWithScope`, which keys the policies by their own ids, and its `get`
  unfoldable pub policy_with_scope : List MarkupPolicy → Scope → ℕ → Option MarkupPolicy
  policy_with_scope ps s k =
      c.get MarkupPolicy k (c.from MarkupPolicy policy_id (filter (has_scope s) ps))

  abbrev pub markups_by : (Product → ℕ) → List Product → c.Items Markup
  markups_by rate ps = c.from Markup markup_product (map (markup_at rate) ps)

module _ (c : LineItems) (sv : Services) where
  unfoldable pub resolve_many : PricingPolicy → List ℕ → c.Items Markup
  unfolding markup_references rate_for policy_with_scope
  resolve_many wholesale ids = markups_by c (λ p. sv.global_rate wholesale) (sv.find_products ids)
  resolve_many retail ids =
      let ps = sv.find_products ids in
      let policies = sv.find_policies (markup_references ps) in
      markups_by c (rate_for (sv.global_rate retail) (policy_with_scope c policies)) ps

  unfoldable pub resolve : PricingPolicy → ℕ → Result MarkupError ℕ
  unfolding resolve_many
  resolve policy id = elim (c.get Markup id (resolve_many policy (id ∷ []))) [
    | none ↦ err not_resolved
    | some m ↦ ok m.rate
  ]
