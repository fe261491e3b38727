-- ===== src/Discount/Applicable.antt =====
-- `findApplicableDiscount` and `findManyApplicableDiscount` of
-- features/marketing/promotion/x/impl/src/discount_is_value_not_an_entity.service.ts.
use jonoob_part_backend.Common.{
  ℕ, Bool, true, false, not, Option, none, some, List, [], ◌∷◌, ◌++◌, map, filter, mem,
  if◌then◌else◌, Result, ok, err,
}
use jonoob_part_backend.Collections.LineItems.{LineItems}
use jonoob_part_backend.Discount.Usages.{
  DiscountUsagePolicy, unlimited, limited, DiscountError, not_resolved, or_empty,
  calculate_applicable_quantity,
}

-- A specific or a campaign discount of a product.
pub record Discount : Type 0 where
  pub id : ℕ
  pub product_id : ℕ
  pub usage_policy : DiscountUsagePolicy

pub data Quantity : Type 0 where
  any_quantity : Quantity
  at_most : ℕ → Quantity

pub data Kind : Type 0 where
  specific : Kind
  campaign : Kind

pub record ApplicableDiscount : Type 0 where
  pub discount : Discount
  pub applicable_quantity : Quantity
  pub kind : Kind

pub record Resolved : Type 0 where
  pub discount_id : ℕ
  pub applicable_quantity : Quantity

-- The repositories: the questions for one product or discount, and those for many.
pub record Repositories : Type 0 where
  pub find_specific : ℕ → Option Discount
  pub find_campaign : ℕ → Option Discount
  pub find_many_specific : List ℕ → List Discount
  pub find_many_campaign : List ℕ → List Discount
  pub customer_usage : ℕ → ℕ → Option ℕ
  pub discount_usages : ℕ → List ℕ
  pub customer_usages : ℕ → List ℕ → ℕ → Option ℕ
  pub many_discount_usages : List ℕ → ℕ → Option (List ℕ)

abbrev pub quantity_for : DiscountUsagePolicy → Option ℕ → List ℕ → Quantity
quantity_for unlimited used usages = any_quantity
quantity_for (limited max_total max_customer) used usages =
    at_most (calculate_applicable_quantity max_total max_customer used usages)

abbrev pub is_limited : Discount → Bool
is_limited d = elim d.usage_policy [ unlimited ↦ false | limited t c ↦ true ]

abbrev pub discount_id : Discount → ℕ
discount_id d = d.id

abbrev pub discount_product : Discount → ℕ
discount_product d = d.product_id

abbrev pub resolved_id : Resolved → ℕ
resolved_id r = r.discount_id

abbrev pub applicable_product : ApplicableDiscount → ℕ
applicable_product a = a.discount.product_id

abbrev pub ids_of : List Discount → List ℕ
ids_of ds = map discount_id (filter is_limited ds)

-- The loop over the campaigns' discounts passes over a product that has one already.
unfoldable pub unclaimed : List ℕ → List Discount → List Discount
unclaimed seen [] = []
unclaimed seen (d ∷ ds) =
    let skipped = unclaimed seen ds in
    let kept = d ∷ unclaimed (d.product_id ∷ seen) ds in
    if mem d.product_id seen then skipped else kept

module _ (rs : Repositories) where
  -- `resolveApplicableQuantity`
  unfoldable pub resolve_quantity : ℕ → Discount → Quantity
  resolve_quantity customer d =
      quantity_for d.usage_policy (rs.customer_usage customer d.id) (rs.discount_usages d.id)

  abbrev pub applicable : ℕ → Kind → Discount → ApplicableDiscount
  applicable customer k d = record {
    discount = d;
    applicable_quantity = resolve_quantity customer d;
    kind = k;
  }

  abbrev pub one_of : ℕ → Option Discount → Option Discount → Option ApplicableDiscount
  one_of customer (some d) other = some (applicable customer specific d)
  one_of customer none (some d) = some (applicable customer campaign d)
  one_of customer none none = none

  -- `findApplicableDiscount`; a merchant buys wholesale.
  unfoldable pub find_applicable :
      (is_merchant : Bool) → (customer product : ℕ) → Option ApplicableDiscount
  unfolding resolve_quantity
  find_applicable is_merchant customer product =
      if is_merchant
      then none
      else one_of customer (rs.find_specific product) (rs.find_campaign product)

  abbrev pub resolved : ℕ → List ℕ → Discount → Resolved
  resolved customer ids d = record {
    discount_id = d.id;
    applicable_quantity =
        quantity_for d.usage_policy (rs.customer_usages customer ids d.id)
          (or_empty (rs.many_discount_usages ids d.id));
  }

abbrev pub cons_ok :
    Result DiscountError ApplicableDiscount
    → Result DiscountError (List ApplicableDiscount)
    → Result DiscountError (List ApplicableDiscount)
cons_ok (ok a) (ok xs) = ok (a ∷ xs)
cons_ok (ok a) (err e) = err e
cons_ok (err e) r = err e

abbrev pub append_ok :
    Result DiscountError (List ApplicableDiscount)
    → Result DiscountError (List ApplicableDiscount)
    → Result DiscountError (List ApplicableDiscount)
append_ok (ok xs) (ok ys) = ok (xs ++ ys)
append_ok (ok xs) (err e) = err e
append_ok (err e) r = err e

module _ (c : LineItems) (rs : Repositories) where
  -- `resolveApplicableQuantities`, first the unlimited ones
  unfoldable pub resolve_quantities : ℕ → List Discount → c.Items Resolved
  resolve_quantities customer ds = c.from Resolved resolved_id (
      map (resolved rs customer (ids_of ds)) (filter (λ d. not (is_limited d)) ds)
      ++ map (resolved rs customer (ids_of ds)) (filter is_limited ds))

module _ (c : LineItems) where
  abbrev pub with_quantity :
      c.Items Resolved → Kind → Discount → Result DiscountError ApplicableDiscount
  with_quantity quantities k d = elim (c.get Resolved d.id quantities) [
    | none ↦ err not_resolved
    | some r ↦ ok (record { discount = d; applicable_quantity = r.applicable_quantity; kind = k })
  ]

  unfoldable pub with_quantities :
      c.Items Resolved → Kind → List Discount → Result DiscountError (List ApplicableDiscount)
  with_quantities quantities k [] = ok []
  with_quantities quantities k (d ∷ ds) =
      cons_ok (with_quantity quantities k d) (with_quantities quantities k ds)

  abbrev pub items_of :
      Result DiscountError (List ApplicableDiscount)
      → Result DiscountError (c.Items ApplicableDiscount)
  items_of (ok xs) = ok (c.from ApplicableDiscount applicable_product xs)
  items_of (err e) = err e

module _ (c : LineItems) (rs : Repositories) where
  unfoldable pub find_many_applicable :
      (is_merchant : Bool) → ℕ → List ℕ → Result DiscountError (c.Items ApplicableDiscount)
  unfolding resolve_quantities with_quantities unclaimed
  find_many_applicable is_merchant customer products =
      let specifics = rs.find_many_specific products in
      let campaigns = rs.find_many_campaign products in
      let quantities = resolve_quantities c rs customer (specifics ++ campaigns) in
      if is_merchant
      then items_of c (ok [])
      else items_of c (
          append_ok (with_quantities c quantities specific specifics) (
            with_quantities c quantities campaign
              (unclaimed (map discount_product specifics) campaigns)))
