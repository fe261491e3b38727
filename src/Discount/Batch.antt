-- ===== src/Discount/Batch.antt =====
-- Discounts that are looked up for many products at once.
use jonoob_part_backend.Common.{
  ℕ, ◌≡◌, refl, sym, subst, ap, ◌∙◌, Bool, true, false, Option, none, some, List, [], ◌++◌, map,
  mem, ◌==◌, if◌then◌else◌, ok,
}
use mathlib.Core.List.{map-append}
use jonoob_part_backend.Collections.LineItems.{LineItems, Distinct, IsKeyed}
use jonoob_part_backend.Collections.Keyed.{
  found_by, or_else, find?-append, append-Distinct, found-absent,
}
use jonoob_part_backend.Discount.Applicable.{
  Discount, ApplicableDiscount, specific, campaign, Repositories, discount_id, discount_product,
  applicable_product, ids_of, unclaimed, applicable, one_of, find_applicable, find_many_applicable,
}
use jonoob_part_backend.Discount.Quantities.{
  map_some, found-map, map-map, UsagesAgree, with_quantities-All,
}
use jonoob_part_backend.Discount.Unclaimed.{
  unclaimed-found, unclaimed-absent, unclaimed-Distinct, unclaimed-In, In-append-left,
  In-append-right, All-In,
}

-- The repositories answer for many products what they do for each, a product has at most one specific
-- discount, and the discounts' ids are distinct.
pub record IsConsistent (rs : Repositories) (customer : ℕ) (products : List ℕ) : Type 0 where
  pub specifics :
      (k : ℕ)
      → mem k products ≡ true
      → found_by discount_product k (rs.find_many_specific products) ≡ rs.find_specific k
  pub campaigns :
      (k : ℕ)
      → mem k products ≡ true
      → found_by discount_product k (rs.find_many_campaign products) ≡ rs.find_campaign k
  pub one_each : Distinct (map discount_product (rs.find_many_specific products))
  pub distinct_ids :
      Distinct (map discount_id (rs.find_many_specific products ++ rs.find_many_campaign products))
  pub usages :
      UsagesAgree rs customer
        (ids_of (rs.find_many_specific products ++ rs.find_many_campaign products))

module _ (c : LineItems) (keyed : IsKeyed c) (rs : Repositories) (customer : ℕ) (products : List ℕ)
    (con : IsConsistent rs customer products) where
  abbrev ss : List Discount
  ss = rs.find_many_specific products

  abbrev cs : List Discount
  cs = unclaimed (map discount_product ss) (rs.find_many_campaign products)

  abbrev found_list : List ApplicableDiscount
  found_list = map (applicable rs customer specific) ss ++ map (applicable rs customer campaign) cs

  found_list-Distinct : Distinct (map applicable_product found_list)
  found_list-Distinct =
      let f = applicable rs customer specific in
      let g = applicable rs customer campaign in
      subst Distinct
        (sym (
          map-append applicable_product (map f ss) (map g cs)
          ∙ ap (λ xs. xs ++ map applicable_product (map g cs)) (map-map applicable_product f ss)
          ∙ ap (λ xs. map discount_product ss ++ xs) (map-map applicable_product g cs)))
        (append-Distinct (map discount_product ss) (map discount_product cs) con.one_each
          (unclaimed-Distinct (map discount_product ss) (rs.find_many_campaign products))
          λ k i. unclaimed-absent k (map discount_product ss) (rs.find_many_campaign products) i)

  many-found :
      find_many_applicable c rs false customer products
      ≡ ok (c.from ApplicableDiscount applicable_product found_list)
  unfolding find_many_applicable
  many-found =
      let cs' = rs.find_many_campaign products in
      let all = ss ++ cs' in
      let one =
        with_quantities-All c keyed rs customer all con.distinct_ids con.usages specific ss
          (All-In all ss (In-append-left ss cs')) in
      let other =
        with_quantities-All c keyed rs customer all con.distinct_ids con.usages campaign cs (
          unclaimed-In all (map discount_product ss) cs'
            (All-In all cs' (In-append-right ss cs'))) in
      rw (one, other) refl

  list-found :
      (k : ℕ)
      → mem k products ≡ true
      → found_by applicable_product k found_list
        ≡ one_of rs customer (rs.find_specific k) (rs.find_campaign k)
  list-found k i =
      let f = applicable rs customer specific in
      let g = applicable rs customer campaign in
      find?-append (λ x. applicable_product x == k) (map f ss) (map g cs)
      ∙ rw
          (
            found-map applicable_product f k ss,
            found-map applicable_product g k cs,
            unclaimed-found k (map discount_product ss) (rs.find_many_campaign products),
            con.campaigns k i,
          )
          (choose (found_by discount_product k ss) (rs.find_campaign k) refl
            ∙ ap (λ o. one_of rs customer o (rs.find_campaign k)) (con.specifics k i))
    where
      choose :
          (o other : Option Discount)
          → found_by discount_product k ss ≡ o
          → or_else (map_some (applicable rs customer specific) o) (
              map_some
                (applicable rs customer campaign)
                (if mem k (map discount_product ss) then none else other))
            ≡ one_of rs customer o other
      choose (some d) other e = refl
      choose none other e = rw (found-absent discount_product k ss e) (last other)
        where
          last :
              (other : Option Discount)
              → map_some (applicable rs customer campaign) other ≡ one_of rs customer none other
          last none = refl
          last (some d) = refl

  -- For every product that was asked for, `findManyApplicableDiscount` succeeds and its answer has
  -- for the product what `findApplicableDiscount` answers for it alone: nothing for a merchant, the
  -- specific discount before the campaign's, and the same quantity. The repositories answer for
  -- many what they do for each, a product has at most one specific discount, the discounts' ids are
  -- distinct, and collections keep what is set under distinct keys.
  pub many-one :
      (is_merchant : Bool) (k : ℕ)
      → mem k products ≡ true
      → (items : c.Items ApplicableDiscount) × (find_many_applicable c rs is_merchant customer
            products
          ≡ ok items)
        × (c.get ApplicableDiscount k items ≡ find_applicable rs is_merchant customer k)
  unfolding find_many_applicable find_applicable
  many-one true k i = (
    c.from ApplicableDiscount applicable_product [],
    refl,
    keyed.finds ApplicableDiscount applicable_product [] k tt,
  )
  many-one false k i = (
    c.from ApplicableDiscount applicable_product found_list,
    many-found,
    keyed.finds ApplicableDiscount applicable_product found_list k found_list-Distinct
        ∙ list-found k i,
  )
