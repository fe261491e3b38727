-- ===== src/Collections/LineItems.antt =====
-- What the code uses of `LineItems` of `@feature/shared`, which is not in the repository: a collection
-- that `set` has filled under a key, or that `indexedBy` or `toLineItems` has made.
use jonoob_part_backend.Common.{ℕ, ◌≡◌, List, map, find?, ◌==◌, Option, mem, false, [], ◌∷◌}

pub record LineItems : Type 1 where
  pub Items : Type 0 → Type 0
  pub from : (A : Type 0) → (A → ℕ) → List A → Items A
  pub get : (A : Type 0) → ℕ → Items A → Option A
  pub to_array : (A : Type 0) → Items A → List A

abbrev pub Distinct : List ℕ → Type 0
Distinct [] = Unit
Distinct (k ∷ ks) = (mem k ks ≡ false) × Distinct ks

-- Items with distinct keys are found by their keys, and stay in their order.
pub record IsKeyed (c : LineItems) : Type 1 where
  pub finds :
      (A : Type 0) (key : A → ℕ) (xs : List A) (k : ℕ)
      → Distinct (map key xs)
      → c.get A k (c.from A key xs) ≡ find? (λ x. key x == k) xs
  pub keeps :
      (A : Type 0) (key : A → ℕ) (xs : List A)
      → Distinct (map key xs)
      → c.to_array A (c.from A key xs) ≡ xs
