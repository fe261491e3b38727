-- ===== src/Markup/Tests.antt =====
-- A product with a policy of its own, one of its category and one of its brand.
use jonoob_part_backend.Common.{
  ℕ, ◌≡◌, refl, Option, none, some, List, [], ◌∷◌, filter, find?, ◌==◌, ok,
}
use jonoob_part_backend.Collections.Table.{table, table-IsKeyed}
use jonoob_part_backend.Markup.Policies.{
  Scope, product, category, brand, MarkupPolicy, Product, has_scope, markup_references,
}
use jonoob_part_backend.Markup.Service.{
  retail, wholesale, Services, rate_for, markups_by, resolve_many, resolve,
}
use jonoob_part_backend.Markup.Ignored.{policies_ignored}
use jonoob_part_backend.Markup.Choice.{Answers, cons_some, candidates, rate_for-Answers}

abbrev brake : Product
brake = record { id = 1; brand_id = some 6; category_ids = 5 ∷ 7 ∷ [] }

abbrev policies : List MarkupPolicy
policies =
    record { id = 101; rate = 30; reference_id = 1; scope = product; priority = 0 }
    ∷ record { id = 102; rate = 20; reference_id = 5; scope = category; priority = 1 }
    ∷ record { id = 103; rate = 25; reference_id = 6; scope = brand; priority = 2 }
    ∷ []

abbrev services : Services
services = record {
  find_products = λ ids. brake ∷ [];
  find_policies = λ rs. policies;
  global_rate = λ v. elim v [ retail ↦ 10 | wholesale ↦ 5 ];
}

retail_rate : resolve table services retail 1 ≡ ok 10
unfolding resolve
retail_rate = refl

wholesale_rate : resolve table services wholesale 1 ≡ ok 5
unfolding resolve
wholesale_rate = refl

policies_ignored_example :
    resolve_many table services retail (1 ∷ []) ≡ markups_by table (λ p. 10) (brake ∷ [])
unfolding markup_references
policies_ignored_example =
    policies_ignored table services (1 ∷ []) table-IsKeyed (refl, (refl, (refl, tt)))
      (refl, (refl, (refl, (refl, tt))))

abbrev by_reference : Scope → ℕ → Option MarkupPolicy
by_reference s k = find? (λ m. m.reference_id == k) (filter (has_scope s) policies)

rate_for-Answers_example :
    Answers 10
      (rate_for 10 by_reference (record brake { id = 2 }))
      none
      (cons_some (by_reference brand 6) (candidates (by_reference category) (5 ∷ 7 ∷ []) []))
rate_for-Answers_example = rate_for-Answers 10 by_reference (record brake { id = 2 })
