-- ===== src/Discount/Tests.antt =====
-- Three products, with a specific discount, a campaign's, and both.
use jonoob_part_backend.Common.{
  ℕ, ◌≡◌, ◌↔◌, refl, false, Option, some, List, [], ◌∷◌, find?, ◌==◌, ok, err, arith,
}
use jonoob_part_backend.Collections.Table.{table, table-IsKeyed}
use jonoob_part_backend.Discount.Usages.{
  DiscountUsagePolicy, unlimited, limited, DiscountUsage, total_limit_exceeded,
  calculate_applicable_quantity, Answered, validate_requested_usages,
}
use jonoob_part_backend.Discount.Limits.{AreOffered, validate-AreOffered}
use jonoob_part_backend.Discount.Applicable.{
  Discount, at_most, campaign, ApplicableDiscount, Repositories, find_applicable,
  find_many_applicable,
}
use jonoob_part_backend.Discount.Batch.{IsConsistent, many-one}

abbrev discount : ℕ → ℕ → DiscountUsagePolicy → Discount
discount id product policy = record { id = id; product_id = product; usage_policy = policy }

abbrev specifics : List Discount
specifics = discount 11 1 (limited 10 2) ∷ discount 13 3 unlimited ∷ []

abbrev campaigns : List Discount
campaigns = discount 22 2 (limited 5 5) ∷ discount 23 3 unlimited ∷ []

abbrev at_product : ℕ → List Discount → Option Discount
at_product k = find? (λ d. d.product_id == k)

-- The customer has used one of each, and all customers four.
abbrev repositories : Repositories
repositories = record {
  find_specific = λ k. at_product k specifics;
  find_campaign = λ k. at_product k campaigns;
  find_many_specific = λ ks. specifics;
  find_many_campaign = λ ks. campaigns;
  customer_usage = λ customer id. some 1;
  discount_usages = λ id. 1 ∷ 3 ∷ [];
  customer_usages = λ customer ids id. some 1;
  many_discount_usages = λ ids id. some (1 ∷ 3 ∷ []);
}

consistent : IsConsistent repositories 7 (1 ∷ 2 ∷ 3 ∷ [])
consistent = record {
  specifics = λ k i. refl;
  campaigns = λ k i. refl;
  one_each = (refl, (refl, tt));
  distinct_ids = (refl, (refl, (refl, (refl, tt))));
  usages = λ id i. (refl, refl);
}

offered_once :
    find_applicable repositories false 7 2
    ≡ some (record {
      discount = discount 22 2 (limited 5 5);
      applicable_quantity = at_most 1;
      kind = campaign;
    })
unfolding find_applicable calculate_applicable_quantity
offered_once = refl

many-one_example :
    (items : (ℕ → Option ApplicableDiscount) × List ApplicableDiscount) × (find_many_applicable
        table repositories false 7
        (1 ∷ 2 ∷ 3 ∷ [])
      ≡ ok items)
    × (items.0 3 ≡ find_applicable repositories false 7 3)
many-one_example =
    many-one table table-IsKeyed repositories 7 (1 ∷ 2 ∷ 3 ∷ []) consistent false 3 refl

abbrev answered : Answered
answered = record {
  policy_of = λ id. some (limited 10 2);
  customer_usage = λ id. some 1;
  discount_usages = λ id. some (4 ∷ 5 ∷ []);
}

abbrev usage : ℕ → ℕ → DiscountUsage
usage id n = record { discount_id = id; used_quantity = n }

refused_in_total :
    validate_requested_usages answered (usage 1 1 ∷ usage 2 2 ∷ []) ≡ err (total_limit_exceeded 2)
unfolding validate_requested_usages
refused_in_total = refl

validate-AreOffered_example :
    (validate_requested_usages answered (usage 1 1 ∷ []) ≡ ok tt)
    ↔ AreOffered answered (usage 1 1 ∷ [])
validate-AreOffered_example = validate-AreOffered answered (usage 1 1 ∷ []) (omega arith, tt)
