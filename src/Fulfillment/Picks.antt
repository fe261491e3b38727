-- ===== src/Fulfillment/Picks.antt =====
-- Which picks complete a fulfillment.
use jonoob_part_backend.Common.{
  ℕ, ◌≡◌, ◌≢◌, ◌⊎◌, ℤ, pos, ◌+ℤ◌, some, List, [], ◌∷◌, map, In, eq_some, if◌then◌else◌, err,
}
use jonoob_part_backend.Fulfillment.Stocks.{Line, StockMap, Mismatch, get, or_zero}
use jonoob_part_backend.Fulfillment.Service.{
  Row, Pick, picked_line, mismatched, Warehouse, Db, flat_lines, issue_picked, complete,
}

-- The total of a stock over the lines, on top of an amount.
abbrev pub total_from : ℕ → ℤ → List Line → ℤ
total_from k acc [] = acc
total_from k acc (l ∷ ls) =
    total_from k (if eq_some l.stock_id (some k) then acc +ℤ l.quantity else acc) ls

abbrev pub total : ℕ → List Line → ℤ
total k ls = total_from k (pos 0) ls

-- Every line has a stock.
abbrev pub IsAssigned : Line → Type 0
IsAssigned l = (k : ℕ) × (l.stock_id ≡ some k)

-- No stock of the list differs, or one does.
abbrev Verdict : StockMap → StockMap → List ℕ → List Mismatch → Type 0
Verdict r a ks [] = (k : ℕ) → In k ks → or_zero (get k r) ≡ or_zero (get k a)
Verdict r a ks (d ∷ ds) = (k : ℕ) × (or_zero (get k r) ≢ or_zero (get k a))

-- The two maps agree at every stock, or differ at one.
abbrev Compares : StockMap → StockMap → List Mismatch → Type 0
Compares r a [] = (k : ℕ) → or_zero (get k r) ≡ or_zero (get k a)
Compares r a (d ∷ ds) = (k : ℕ) × (or_zero (get k r) ≢ or_zero (get k a))

-- The picks have the totals that the fulfillment needs, and it goes on to the warehouse with these
-- totals; or they do not, and it throws.
abbrev pub Settles : {Stock : Type 0} → Warehouse Stock → Row → List Pick → Db Stock → ℕ → Type 0
Settles wh r picked db id =
    (((k : ℕ) → total k (flat_lines r.lines) ≡ total k (map picked_line picked))
      × ((m : StockMap) × ((k : ℕ) → or_zero (get k m) ≡ total k (flat_lines r.lines))
          × (complete wh id picked db ≡ issue_picked wh r m db)))
    ⊎ (((k : ℕ) × (total k (flat_lines r.lines) ≢ total k (map picked_line picked)))
        × ((ds : List Mismatch) × (complete wh id picked db ≡ err (mismatched ds))))
