-- ===== src/Fulfillment/Stocks.antt =====
-- `sumByStock` and `diffStocks` of the fulfillment service of features/order. A `Map` is the list of
-- its entries in the order of their first insertion.
use jonoob_part_backend.Common.{
  ℕ, ℤ, pos, ◌+ℤ◌, ◌==ℤ◌, Bool, not, Option, none, some, List, [], ◌∷◌, ◌++◌, map, filter, mem,
  ◌==◌, if◌then◌else◌, Result, ok, err,
}

-- `{ stockId: string | null; quantity: number }`
pub record Line : Type 0 where
  pub stock_id : Option ℕ
  pub quantity : ℤ

abbrev pub StockMap : Type 0
StockMap = List (ℕ × ℤ)

unfoldable pub get : ℕ → StockMap → Option ℤ
get k [] = none
get k ((j, q) ∷ m) = if j == k then some q else get k m

unfoldable pub set : ℕ → ℤ → StockMap → StockMap
set k q [] = (k, q) ∷ []
set k q ((j, p) ∷ m) = if j == k then (j, q) ∷ m else (j, p) ∷ set k q m

abbrev pub or_zero : Option ℤ → ℤ
or_zero none = pos 0
or_zero (some q) = q

pub data StockError : Type 0 where
  unassigned : StockError

-- The loop, with the sums so far.
unfoldable pub sum_from : StockMap → List Line → Result StockError StockMap
unfolding get set ◌+ℤ◌
sum_from m [] = ok m
sum_from m (l ∷ ls) = elim l.stock_id [
  | none ↦ err unassigned
  | some k ↦ sum_from (set k (or_zero (get k m) +ℤ l.quantity) m) ls
]

unfoldable pub sum_by_stock : List Line → Result StockError StockMap
unfolding sum_from
sum_by_stock ls = sum_from [] ls

-- The set of the keys, each at its first place.
unfoldable pub distinct : List ℕ → List ℕ → List ℕ
distinct seen [] = []
distinct seen (k ∷ ks) = if mem k seen then distinct seen ks else k ∷ distinct (k ∷ seen) ks

abbrev pub keys : StockMap → List ℕ
keys m = map (λ e. e.0) m

pub record Mismatch : Type 0 where
  pub stock_id : ℕ
  pub required : ℤ
  pub picked : ℤ

abbrev pub compared : StockMap → StockMap → ℕ → Mismatch
compared required actual k = record {
  stock_id = k;
  required = or_zero (get k required);
  picked = or_zero (get k actual);
}

abbrev pub differs : Mismatch → Bool
differs d = not (d.required ==ℤ d.picked)

unfoldable pub diff_stocks : StockMap → StockMap → List Mismatch
unfolding distinct get
diff_stocks required actual =
    filter differs (map (compared required actual) (distinct [] (keys required ++ keys actual)))
