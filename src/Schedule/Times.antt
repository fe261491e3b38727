-- ===== src/Schedule/Times.antt =====
-- Times of the day, utils.ts. A text `HH:mm` is what `split(':').map(Number)` makes of it: a part that
-- is no natural number is `none`.
use jonoob_part_backend.Common.{
  ℕ, ◌+◌, ◌*◌, Bool, ◌&&◌, Option, some, leb, ltb, if◌then◌else◌, Result, ok, err,
}

pub record TimeText : Type 0 where
  pub hours : Option ℕ
  pub minutes : Option ℕ

pub data ScheduleError : Type 0 where
  invalid_time no_weekday invalid_settings : ScheduleError

abbrev pub proper_time : Option ℕ → Option ℕ → Result ScheduleError ℕ
proper_time (some h) (some m) = if leb h 23 && leb m 59 then ok (h * 60 + m) else err invalid_time
proper_time _ _ = err invalid_time

unfoldable pub time_to_minutes : TimeText → Result ScheduleError ℕ
time_to_minutes t = proper_time t.hours t.minutes

infixl 5 ◌>>=◌
abbrev pub ◌>>=◌ :
    {A B : Type 0} → Result ScheduleError A → (A → Result ScheduleError B) → Result ScheduleError B
ok a >>= f = f a
err e >>= f = err e

unfoldable pub is_time_in_interval : TimeText → TimeText → TimeText → Result ScheduleError Bool
unfolding time_to_minutes
is_time_in_interval time_now opens_at closes_at = do
  current ← time_to_minutes time_now
  start ← time_to_minutes opens_at
  end ← time_to_minutes closes_at
  ok (leb start current && ltb current end)

unfoldable pub is_time_greater_than_or_equal_to : TimeText → TimeText → Result ScheduleError Bool
unfolding time_to_minutes
is_time_greater_than_or_equal_to source other = do
  s ← time_to_minutes source
  o ← time_to_minutes other
  ok (leb o s)
