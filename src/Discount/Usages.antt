-- ===== src/Discount/Usages.antt =====
-- Usage limits of features/marketing/promotion/x/impl/src/discount_is_value_not_an_entity.service.ts. The
-- quantities are natural numbers.
use jonoob_part_backend.Common.{
  ℕ, ◌+◌, ◌-◌, min, Bool, Option, none, some, List, [], ◌∷◌, ltb, if◌then◌else◌, Result, ok, err,
}

pub data DiscountUsagePolicy : Type 0 where
  unlimited : DiscountUsagePolicy
  limited : (max_total_uses max_uses_per_customer : ℕ) → DiscountUsagePolicy

pub record DiscountUsage : Type 0 where
  pub discount_id : ℕ
  pub used_quantity : ℕ

pub data DiscountError : Type 0 where
  not_found : DiscountError
  total_limit_exceeded : ℕ → DiscountError
  customer_limit_exceeded : ℕ → DiscountError
  not_resolved : DiscountError

abbrev pub sum : List ℕ → ℕ
sum [] = 0
sum (n ∷ ns) = n + sum ns

abbrev pub or_zero : Option ℕ → ℕ
or_zero none = 0
or_zero (some n) = n

abbrev pub or_empty : Option (List ℕ) → List ℕ
or_empty none = []
or_empty (some ns) = ns

-- `calculateApplicableQuantity`. `Math.max(…, 0)` of a minimum of differences: the subtraction of natural
-- numbers stops at 0.
unfoldable pub calculate_applicable_quantity : (max_total max_customer : ℕ) → Option ℕ → List ℕ → ℕ
calculate_applicable_quantity max_total max_customer customer_used usages =
    min (max_total - sum usages) (max_customer - or_zero customer_used)

-- `requested > max - used`, in integers
abbrev pub exceeds : ℕ → ℕ → ℕ → Bool
exceeds requested max_uses used = ltb max_uses (used + requested)

-- The checks of one requested usage.
unfoldable pub validate_usage :
    Option DiscountUsagePolicy → DiscountUsage → Option ℕ → List ℕ → Result DiscountError (Unit {0})
validate_usage none u customer_used usages = err not_found
validate_usage (some unlimited) u customer_used usages = ok tt
validate_usage (some (limited max_total max_customer)) u customer_used usages =
    if exceeds u.used_quantity max_total (sum usages)
    then err (total_limit_exceeded u.discount_id)
    else if exceeds u.used_quantity max_customer (or_zero customer_used)
    then err (customer_limit_exceeded u.discount_id)
    else ok tt

-- What the repositories answered: the policy of a discount, what the customer has used of it, and what all
-- customers have.
pub record Answered : Type 0 where
  pub policy_of : ℕ → Option DiscountUsagePolicy
  pub customer_usage : ℕ → Option ℕ
  pub discount_usages : ℕ → Option (List ℕ)

unfoldable pub validate_requested_usages :
    Answered → List DiscountUsage → Result DiscountError (Unit {0})
unfolding validate_usage
validate_requested_usages a [] = ok tt
validate_requested_usages a (u ∷ us) =
    elim (validate_usage (a.policy_of u.discount_id) u (a.customer_usage u.discount_id)
      (or_empty (a.discount_usages u.discount_id))) [
        | ok t ↦ validate_requested_usages a us
        | err e ↦ err e
      ]
