-- ===== src/RateLimit/Values.antt =====
-- What Redis keeps under a key of infrastructure/rate-limit/src/lua-scripts.constant.ts, and the
-- commands of the script. Keys and request ids are numbers. A time is in microseconds of Redis's
-- clock, an expiry in its milliseconds.
use jonoob_part_backend.Common.{
  ℕ, ◌/◌, Bool, true, ◌&&◌, Option, none, some, List, [], ◌∷◌, ltb, leb, ◌==◌, any, if◌then◌else◌,
}

-- The fields of the two algorithms that keep a hash. Tokens are in millionths of a token.
pub record Hash : Type 0 where
  pub tokens : Option ℕ
  pub ts : Option ℕ
  pub w : Option ℕ
  pub cur : Option ℕ
  pub prev : Option ℕ

abbrev pub empty_hash : Hash
empty_hash = record { tokens = none; ts = none; w = none; cur = none; prev = none }

-- A member of the sorted set: its score and the request's id.
pub record Stamp : Type 0 where
  pub at : ℕ
  pub id : ℕ

pub data Value : Type 0 where
  hash : Hash → Value
  counter : ℕ → Value
  sorted_set : List Stamp → Value

pub record Entry : Type 0 where
  pub value : Value
  pub expires_at : Option ℕ

abbrev pub Redis : Type 0
Redis = ℕ → Option Entry

abbrev pub set_key : ℕ → Option Entry → Redis → Redis
set_key key e redis k = if k == key then e else redis k

-- `now_ms`
abbrev pub ms_of : ℕ → ℕ
ms_of now = now / 1000

abbrev pub unexpired : ℕ → Option ℕ → Bool
unexpired now none = true
unexpired now (some t) = leb (ms_of now) t

-- A key whose time is over is not there; at the very millisecond of its time it still is.
abbrev pub alive : ℕ → Option Entry → Option Entry
alive now none = none
alive now (some e) = if unexpired now e.expires_at then some e else none

abbrev pub live : ℕ → ℕ → Redis → Option Entry
live now key redis = alive now (redis key)

-- `ZADD`: a member that is there stays, and the members stand by their scores.
unfoldable pub insert_stamp : Stamp → List Stamp → List Stamp
insert_stamp s [] = s ∷ []
insert_stamp s (x ∷ xs) = if ltb s.at x.at then s ∷ x ∷ xs else x ∷ insert_stamp s xs

abbrev pub same_stamp : Stamp → Stamp → Bool
same_stamp s x = s.at == x.at && s.id == x.id

unfoldable pub zadd : Stamp → List Stamp → List Stamp
zadd s xs = if any (same_stamp s) xs then xs else insert_stamp s xs
