-- ===== src/Collections/Table.antt =====
-- A concrete collection: a search by the key, and the list.
use jonoob_part_backend.Common.{ℕ, Option, List, find?, ◌==◌, refl}
use jonoob_part_backend.Collections.LineItems.{LineItems, IsKeyed}

abbrev pub table : LineItems
table = record {
  Items = λ A. (ℕ → Option A) × List A;
  from = λ A key xs. (λ k. find? (λ x. key x == k) xs, xs);
  get = λ A k t. t.0 k;
  to_array = λ A t. t.1;
}

pub table-IsKeyed : IsKeyed table
table-IsKeyed = record { finds = λ A key xs k d. refl; keeps = λ A key xs d. refl }
