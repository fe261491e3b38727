-- ===== src/Markup/Policies.antt =====
-- features/store/pricing/markup/impl/src: policies, and the choice between them by priority. Rates are
-- only copied; a product's policy has no priority, and its field here is not read.
use jonoob_part_backend.Common.{
  ℕ, Bool, true, false, Option, none, some, List, [], ◌∷◌, ◌++◌, map, ltb, leb, if◌then◌else◌,
}

pub data Scope : Type 0 where
  product : Scope
  category : Scope
  brand : Scope

pub record MarkupPolicy : Type 0 where
  pub id : ℕ
  pub rate : ℕ
  pub reference_id : ℕ
  pub scope : Scope
  pub priority : ℕ

pub record MarkupReference : Type 0 where
  pub scope : Scope
  pub reference_id : ℕ

-- `ProductDto`, with its references
pub record Product : Type 0 where
  pub id : ℕ
  pub brand_id : Option ℕ
  pub category_ids : List ℕ

-- `MarkupDto`
pub record Markup : Type 0 where
  pub product_id : ℕ
  pub rate : ℕ

abbrev pub brand_references : Option ℕ → List MarkupReference
brand_references none = []
brand_references (some b) = record { scope = brand; reference_id = b } ∷ []

abbrev pub references_of : Product → List MarkupReference
references_of p =
    brand_references p.brand_id
    ++ (map (λ c. record { scope = category; reference_id = c }) p.category_ids
        ++ (record { scope = product; reference_id = p.id } ∷ []))

-- `getMarkupReferences`
unfoldable pub markup_references : List Product → List MarkupReference
markup_references [] = []
markup_references (p ∷ ps) = references_of p ++ markup_references ps

abbrev pub has_scope : Scope → MarkupPolicy → Bool
has_scope product p = elim p.scope [ product ↦ true | category ↦ false | brand ↦ false ]
has_scope category p = elim p.scope [ product ↦ false | category ↦ true | brand ↦ false ]
has_scope brand p = elim p.scope [ product ↦ false | category ↦ false | brand ↦ true ]

-- One step of `highestPriorityReducer`.
abbrev pub highest_step : Option MarkupPolicy → Option MarkupPolicy → Option MarkupPolicy
highest_step prev none = prev
highest_step none (some current) = some current
highest_step (some prev) (some current) =
    if ltb prev.priority current.priority then some current else some prev

unfoldable pub highest :
    (ℕ → Option MarkupPolicy) → Option MarkupPolicy → List ℕ → Option MarkupPolicy
highest get_item prev [] = prev
highest get_item prev (c ∷ cs) = highest get_item (highest_step prev (get_item c)) cs

-- `selectHigherPriority`
unfoldable pub select_higher : Option MarkupPolicy → Option MarkupPolicy → Option MarkupPolicy
select_higher none b = b
select_higher (some a) none = some a
select_higher (some a) (some b) = if leb b.priority a.priority then some a else some b
