-- ===== src/Common/Numbers.antt =====
-- JavaScript numbers.
use Prim.Native.Nat.{ℕ}

-- A number where the code compares it or refuses it: a natural number, or any other.
pub data Number : Type 0 where
  natural : ℕ → Number
  other : Number

-- `Number.MAX_SAFE_INTEGER`
abbrev pub max_safe_integer : ℕ
max_safe_integer = 9_007_199_254_740_991
