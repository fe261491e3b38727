-- ===== src/Markup/Choice.antt =====
-- The choice between the policies of the categories and of the brand.
use jonoob_part_backend.Common.{
  ℕ, ◌≤◌, ◌≡◌, refl, sym, subst, inl, inr, Option, none, some, List, [], ◌∷◌, All, ltb, leb,
  Bool-cases, arith, In, ◌⊎◌,
}
use jonoob_part_backend.Markup.Policies.{
  Scope, product, category, brand, MarkupPolicy, Product, highest, highest_step, select_higher,
}
use jonoob_part_backend.Markup.Service.{rate_or, brand_markup, scoped_rate, rate_for}

abbrev pub cons_some : Option MarkupPolicy → List MarkupPolicy → List MarkupPolicy
cons_some none ms = ms
cons_some (some m) ms = m ∷ ms

-- The policies that are found, with those that were found before.
abbrev pub candidates : (ℕ → Option MarkupPolicy) → List ℕ → List MarkupPolicy → List MarkupPolicy
candidates get_item [] seen = seen
candidates get_item (c ∷ cs) seen = candidates get_item cs (cons_some (get_item c) seen)

-- One of the policies, and none has a higher priority; none if there is no policy.
abbrev IsHighest : Option MarkupPolicy → List MarkupPolicy → Type 0
IsHighest none ms = ms ≡ []
IsHighest (some m) ms = In m ms × All (λ x. x.priority ≤ m.priority) ms

abbrev pub Answers : ℕ → ℕ → Option MarkupPolicy → List MarkupPolicy → Type 0
Answers global rate (some own) ms = rate ≡ own.rate
Answers global rate none ms =
    ((ms ≡ []) × (rate ≡ global))
    ⊎ ((m : MarkupPolicy) × In m ms × (rate ≡ m.rate) × All (λ x. x.priority ≤ m.priority) ms)

All-le :
    (a b : ℕ) (ms : List MarkupPolicy)
    → a ≤ b
    → All (λ x. x.priority ≤ a) ms
    → All (λ x. x.priority ≤ b) ms
All-le a b [] h k = tt
All-le a b (m ∷ ms) h (e, k) = (omega arith, All-le a b ms h k)

step-IsHighest :
    (o n : Option MarkupPolicy) (ms : List MarkupPolicy)
    → IsHighest o ms
    → IsHighest (highest_step o n) (cons_some n ms)
step-IsHighest o none ms h = h
step-IsHighest none (some n) ms h =
    subst (λ xs. IsHighest (some n) (n ∷ xs)) (sym h) (inl refl, omega arith)
step-IsHighest (some m) (some n) ms (i, h) = elim (Bool-cases (ltb m.priority n.priority)) [
  | inl e ↦ rw e (inl refl, (omega arith, All-le m.priority n.priority ms (ground (arith, e)) h))
  | inr e ↦ rw e (inr i, (ground (arith, e), h))
]

select-IsHighest :
    (o n : Option MarkupPolicy) (ms : List MarkupPolicy)
    → IsHighest o ms
    → IsHighest (select_higher o n) (cons_some n ms)
unfolding select_higher
select-IsHighest none none ms h = h
select-IsHighest none (some n) ms h =
    subst (λ xs. IsHighest (some n) (n ∷ xs)) (sym h) (inl refl, omega arith)
select-IsHighest (some m) none ms h = h
select-IsHighest (some m) (some n) ms (i, h) = elim (Bool-cases (leb n.priority m.priority)) [
  | inl e ↦ rw e (inr i, (ground (arith, e), h))
  | inr e ↦ rw e (inl refl, (omega arith, All-le m.priority n.priority ms (ground (arith, e)) h))
]

highest-IsHighest :
    (get_item : ℕ → Option MarkupPolicy) (o : Option MarkupPolicy) (cs : List ℕ)
    (ms : List MarkupPolicy)
    → IsHighest o ms
    → IsHighest (highest get_item o cs) (candidates get_item cs ms)
unfolding highest
highest-IsHighest get_item o [] ms h = h
highest-IsHighest get_item o (c ∷ cs) ms h =
    highest-IsHighest get_item (highest_step o (get_item c)) cs (cons_some (get_item c) ms)
      (step-IsHighest o (get_item c) ms h)

-- The rate of a product is that of its own policy, if there is one; else that of a policy of a
-- category or of the brand with the highest priority of them all; else the global one. Policies are
-- given by any function of scope and id.
pub rate_for-Answers :
    (global : ℕ) (policy : Scope → ℕ → Option MarkupPolicy) (p : Product)
    → Answers global (rate_for global policy p) (policy product p.id) (
        cons_some
          (brand_markup (policy brand) p.brand_id)
          (candidates (policy category) p.category_ids []))
unfolding rate_for
rate_for-Answers global policy p = go (policy product p.id)
  where
    ms : List MarkupPolicy
    ms =
        cons_some (brand_markup (policy brand) p.brand_id)
          (candidates (policy category) p.category_ids [])

    scoped : (o : Option MarkupPolicy) → IsHighest o ms → Answers global (rate_or global o) none ms
    scoped none h = inl (h, refl)
    scoped (some m) (i, h) = inr (m, i, refl, h)

    go :
        (own : Option MarkupPolicy)
        → Answers global
            (rate_or (scoped_rate global (policy category) (policy brand) p) own)
            own
            ms
    go (some own) = refl
    go none =
        scoped
          (select_higher (highest (policy category) none p.category_ids)
            (brand_markup (policy brand) p.brand_id))
          (select-IsHighest (highest (policy category) none p.category_ids)
            (brand_markup (policy brand) p.brand_id)
            (candidates (policy category) p.category_ids [])
            (highest-IsHighest (policy category) none p.category_ids [] refl))
