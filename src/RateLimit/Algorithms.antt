-- ===== src/RateLimit/Algorithms.antt =====
-- The four algorithms of infrastructure/rate-limit/src/lua-scripts.constant.ts, for settings that are
-- whole numbers. The script's fractions are written as exact ones: a token has a million parts, a
-- window has its microseconds. The doubles of Lua, and the six digits of a token and of a time that
-- the script writes back, are not modelled, so a call at the very limit can be decided otherwise.
use jonoob_part_backend.Common.{
  ℕ, zero, suc, ◌+◌, ◌-◌, ◌*◌, ◌/◌, ◌%◌, Bool, ◌&&◌, Option, none, some, List, [], ◌∷◌, ltb, leb,
  ◌==◌, min, max, length, filter, if◌then◌else◌, Result, ok, err,
}
use jonoob_part_backend.RateLimit.Values.{
  Hash, empty_hash, Stamp, Value, hash, counter, sorted_set, Entry, Redis, set_key, ms_of, live,
  zadd,
}

-- `RateLimitConfig`
pub data Config : Type 0 where
  token_bucket : (max_tokens refill_rate : ℕ) → Config
  fixed_window : (limit window_seconds : ℕ) → Config
  sliding_window_log : (limit window_seconds : ℕ) → Config
  sliding_window_counter : (limit window_seconds : ℕ) → Config

pub data ScriptError : Type 0 where
  wrong_type : ScriptError

-- What an algorithm answers; `commit` is its closure of writes.
pub record Eval : Type 0 where
  pub allowed : Bool
  pub available : ℕ
  pub limit : ℕ
  pub retry : ℕ
  pub commit : Redis → Redis

abbrev pub million : ℕ
million = 1_000_000

abbrev pub ceil_div : ℕ → ℕ → ℕ
ceil_div a b = (a + b - 1) / b

abbrev pub or_zero : Option ℕ → ℕ
or_zero none = 0
or_zero (some n) = n

-- `HMGET`, `GET` and the reads of a sorted set: a value of another kind is an error.
abbrev pub hash_in : Value → Result ScriptError Hash
hash_in (hash h) = ok h
hash_in _ = err wrong_type

abbrev pub counter_in : Value → Result ScriptError ℕ
counter_in (counter n) = ok n
counter_in _ = err wrong_type

abbrev pub stamps_in : Value → Result ScriptError (List Stamp)
stamps_in (sorted_set xs) = ok xs
stamps_in _ = err wrong_type

abbrev pub read_entry :
    {A : Type 0} → (Value → Result ScriptError A) → A → Option Entry → Result ScriptError A
read_entry f a none = ok a
read_entry f a (some e) = f e.value

abbrev pub then_eval : {A B : Type 0} → Result ScriptError A → (A → B) → Result ScriptError B
then_eval (ok a) f = ok (f a)
then_eval (err e) f = err e

-- The hash that `HSET` writes into.
abbrev pub hash_of : Option Entry → Hash
hash_of none = empty_hash
hash_of (some e) = elim e.value [ hash h ↦ h | _ ↦ empty_hash ]

abbrev pub stamps_of : Option Entry → List Stamp
stamps_of none = []
stamps_of (some e) = elim e.value [ sorted_set xs ↦ xs | _ ↦ [] ]

abbrev pub refill : ℕ → ℕ → ℕ → Option ℕ → Option ℕ → ℕ
refill now max_tokens rate (some tokens) (some ts) =
    min (max_tokens * million) (tokens + (now - ts) * rate)
refill now max_tokens rate _ _ =
    min (max_tokens * million) (max_tokens * million + (now - now) * rate)

unfoldable pub commit_bucket : ℕ → ℕ → ℕ → ℕ → ℕ → Redis → Redis
commit_bucket now key max_tokens rate tokens redis =
    set_key key
      (some (record {
        value = hash (record (hash_of (live now key redis)) {
          tokens = some (tokens - million);
          ts = some now;
        });
        expires_at = some (ms_of now + 1000 * (ceil_div max_tokens rate + 1));
      }))
      redis

unfoldable pub eval_bucket : ℕ → ℕ → ℕ → ℕ → Hash → Eval
eval_bucket now key max_tokens rate h =
    let tokens = refill now max_tokens rate h.tokens h.ts in
    let allowed = leb million tokens in
    record {
      allowed = allowed;
      available = tokens / million;
      limit = max_tokens;
      retry = if allowed then 0 else ceil_div (million - tokens) (million * rate);
      commit = commit_bucket now key max_tokens rate tokens;
    }

-- `INCR`, and `PEXPIRE` where the counter has just been made.
abbrev pub incr : ℕ → ℕ → Option Entry → Option Entry
incr now window none =
    some (record { value = counter 1; expires_at = some (ms_of now + window * 1000) })
incr now window (some e) = elim e.value [
  | counter n ↦ some (record {
    value = counter (n + 1);
    expires_at = if n + 1 == 1 then some (ms_of now + window * 1000) else e.expires_at;
  })
  | _ ↦ some e
]

unfoldable pub commit_window : ℕ → ℕ → ℕ → Redis → Redis
commit_window now key window redis = set_key key (incr now window (live now key redis)) redis

-- `PTTL`, and the whole window where the key has no expiry.
abbrev pub ttl_or_window : ℕ → ℕ → Option Entry → ℕ
ttl_or_window now window (some e) = elim e.expires_at [
  | some t ↦ t - ms_of now
  | none ↦ window * 1000
]
ttl_or_window now window none = window * 1000

unfoldable pub eval_window : ℕ → ℕ → ℕ → ℕ → Option Entry → ℕ → Eval
eval_window now key limit window e count =
    let allowed = ltb count limit in
    record {
      allowed = allowed;
      available = limit - count;
      limit = limit;
      retry = if allowed then 0 else max 1 (ceil_div (ttl_or_window now window e) 1000);
      commit = commit_window now key window;
    }

-- The members after the cutoff.
abbrev pub in_window : ℕ → ℕ → Stamp → Bool
in_window now window s = ltb (ms_of now) (s.at + window * 1000)

abbrev pub stamp_at : List Stamp → ℕ → Option Stamp
stamp_at [] n = none
stamp_at (x ∷ xs) zero = some x
stamp_at (x ∷ xs) (suc n) = stamp_at xs n

-- The entry that must leave the window before a new request fits.
abbrev pub until_pivot : ℕ → ℕ → Option Stamp → ℕ
until_pivot now window none = 0
until_pivot now window (some s) = ceil_div (s.at + window * 1000 - ms_of now) 1000

unfoldable pub commit_log : ℕ → ℕ → ℕ → ℕ → Redis → Redis
unfolding zadd
commit_log now key window id redis =
    set_key key
      (some (record {
        value = sorted_set (
            zadd (record { at = ms_of now; id = id })
              (filter (in_window now window) (stamps_of (live now key redis))));
        expires_at = some (ms_of now + (window * 1000 + 1000));
      }))
      redis

unfoldable pub eval_log : ℕ → ℕ → ℕ → ℕ → ℕ → List Stamp → Eval
eval_log now key limit window id stamps =
    let fresh = filter (in_window now window) stamps in
    let count = length fresh in
    let allowed = ltb count limit in
    record {
      allowed = allowed;
      available = limit - count;
      limit = limit;
      retry =
          if allowed then 0 else max 1 (until_pivot now window (stamp_at fresh (count - limit)));
      commit = commit_log now key window id;
    }

-- The previous and the present count, in the window `idx`.
abbrev pub roll : ℕ → Option ℕ → ℕ → ℕ → ℕ × ℕ
roll idx none prev cur = (0, 0)
roll idx (some w) prev cur =
    if w + 1 == idx then (cur, 0) else if w == idx then (prev, cur) else (0, 0)

unfoldable pub commit_counter : ℕ → ℕ → ℕ → ℕ → ℕ → Redis → Redis
commit_counter now key window prev cur redis =
    set_key key
      (some (record {
        value = hash (record (hash_of (live now key redis)) {
          w = some (now / (window * million));
          cur = some (cur + 1);
          prev = some prev;
        });
        expires_at = some (ms_of now + (window * 2000 + 1000));
      }))
      redis

-- `estimated` times the window's microseconds.
unfoldable pub weighted : ℕ → ℕ → ℕ → ℕ → ℕ
weighted now span prev cur = prev * (span - now % span) + cur * span

-- `target * window - now` in seconds, rounded up; nothing where it lies in the past.
unfoldable pub until_target : ℕ → ℕ → ℕ → ℕ → ℕ → ℕ
until_target now span limit prev cur =
    if ltb cur limit && ltb 0 prev
    then ceil_div ((((now / span) + 1) * span - now) * prev - (limit - 1 - cur) * span)
        (prev * million)
    else ceil_div ((((now / span) + 2) * span - now) * cur - (limit - 1) * span) (cur * million)

-- The tolerance 1e-9 of a window is `window` in thousandths of a microsecond.
unfoldable pub eval_counter : ℕ → ℕ → ℕ → ℕ → Hash → Eval
eval_counter now key limit window h =
    let span = window * million in
    let (prev, cur) = roll (now / span) h.w (or_zero h.prev) (or_zero h.cur) in
    let estimated = weighted now span prev cur in
    let allowed = leb (1000 * (estimated + span)) (1000 * (limit * span) + window) in
    record {
      allowed = allowed;
      available = (1000 * (limit * span) + window - 1000 * estimated) / (1000 * span);
      limit = limit;
      retry = if allowed then 0 else max 1 (until_target now span limit prev cur);
      commit = commit_counter now key window prev cur;
    }

-- The algorithm of a rule on the value under its key.
unfoldable pub evaluate_on : ℕ → ℕ → ℕ → Config → Option Entry → Result ScriptError Eval
evaluate_on now id key (token_bucket max_tokens rate) e =
    then_eval (read_entry hash_in empty_hash e) (eval_bucket now key max_tokens rate)
evaluate_on now id key (fixed_window limit window) e =
    then_eval (read_entry counter_in 0 e) (eval_window now key limit window e)
evaluate_on now id key (sliding_window_log limit window) e =
    then_eval (read_entry stamps_in [] e) (eval_log now key limit window id)
evaluate_on now id key (sliding_window_counter limit window) e =
    then_eval (read_entry hash_in empty_hash e) (eval_counter now key limit window)

unfoldable pub evaluate : ℕ → ℕ → ℕ → Config → Redis → Result ScriptError Eval
unfolding evaluate_on
evaluate now id key config redis = evaluate_on now id key config (live now key redis)
