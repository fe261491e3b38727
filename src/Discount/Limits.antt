-- ===== src/Discount/Limits.antt =====
-- What is offered to a customer is what the check at the sale accepts.
use jonoob_part_backend.Common.{
  ℕ, ◌≤◌, ◌≡◌, ◌↔◌, refl, Option, none, some, List, [], ◌∷◌, All, Result, ok, err, arith,
}
use jonoob_part_backend.Discount.Usages.{
  DiscountUsagePolicy, unlimited, limited, DiscountUsage, DiscountError, or_empty,
  calculate_applicable_quantity, validate_usage, Answered, validate_requested_usages,
}

-- The requested quantity is within what `calculateApplicableQuantity` offers.
abbrev pub IsOffered : Option DiscountUsagePolicy → ℕ → Option ℕ → List ℕ → Type 0
IsOffered none n customer_used usages = ⊥
IsOffered (some unlimited) n customer_used usages = Unit
IsOffered (some (limited max_total max_customer)) n customer_used usages =
    n ≤ calculate_applicable_quantity max_total max_customer customer_used usages

-- A quantity of 0 is no usage: then what is used up already would be refused.
validate_usage-IsOffered :
    (p : Option DiscountUsagePolicy) (u : DiscountUsage) (customer_used : Option ℕ)
    (usages : List ℕ)
    → 1 ≤ u.used_quantity
    → (validate_usage p u customer_used usages ≡ ok tt)
      ↔ IsOffered p u.used_quantity customer_used usages
unfolding validate_usage calculate_applicable_quantity
validate_usage-IsOffered none u customer_used usages h = ((λ e. cc e), λ e. absurd e)
validate_usage-IsOffered (some unlimited) u customer_used usages h = ((λ e. tt), λ e. refl)
validate_usage-IsOffered (some (limited max_total max_customer)) u customer_used usages h =
    ((λ e. ground arith), λ e. ground arith)

abbrev pub AreOffered : Answered → List DiscountUsage → Type 0
AreOffered a = All (λ u.
    IsOffered (a.policy_of u.discount_id) u.used_quantity (a.customer_usage u.discount_id)
      (or_empty (a.discount_usages u.discount_id)))

-- The check of a sale accepts the requested usages, each of at least 1, exactly when each is of a
-- discount that is found and, where that is limited, within what `calculateApplicableQuantity`
-- offers for it.
pub validate-AreOffered :
    (a : Answered) (us : List DiscountUsage)
    → All (λ u. 1 ≤ u.used_quantity) us
    → (validate_requested_usages a us ≡ ok tt) ↔ AreOffered a us
unfolding validate_requested_usages
validate-AreOffered a [] h = ((λ e. tt), λ e. refl)
validate-AreOffered a (u ∷ us) (h, hs) =
    let policy = a.policy_of u.discount_id in
    let used = a.customer_usage u.discount_id in
    let usages = or_empty (a.discount_usages u.discount_id) in
    let (one, one') = validate_usage-IsOffered policy u used usages h in
    let (more, more') = validate-AreOffered a us hs in
    let (first, rest) =
      both (validate_usage policy u used usages) (validate_requested_usages a us) in
    ((λ e. let (x, y) = first e in (one x, more y)), λ (x, y). rest (one' x) (more' y))
  where
    both :
        (r s : Result DiscountError (Unit {0}))
        → ((elim r [ ok t ↦ s | err e ↦ err e ] ≡ ok tt) → (r ≡ ok tt) × (s ≡ ok tt))
          × ((r ≡ ok tt) → (s ≡ ok tt) → elim r [ ok t ↦ s | err e ↦ err e ] ≡ ok tt)
    both (ok t) s = ((λ e. (refl, e)), λ x y. y)
    both (err e) s = ((λ x. cc x), λ x y. cc x)
