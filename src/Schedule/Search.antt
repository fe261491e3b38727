-- ===== src/Schedule/Search.antt =====
-- `getNextBusinessHours`.
use jonoob_part_backend.Common.{
  ℕ, zero, suc, ◌+◌, Bool, not, ◌&&◌, Option, none, some, List, [], ◌∷◌, leb, if◌then◌else◌, any,
  Result, ok,
}
use jonoob_part_backend.Schedule.Times.{ScheduleError, ◌>>=◌, is_time_greater_than_or_equal_to}
use jonoob_part_backend.Schedule.Settings.{Interval, BusinessDay, Closure, BusinessHours}
use jonoob_part_backend.Schedule.Store.{settings_get}
use jonoob_part_backend.Schedule.Service.{Calendar, get_elem?, end_of_day, day_time}

abbrev pub part : Option ℕ → ℕ
part none = 0
part (some n) = n

module _ (cal : Calendar) where
  -- An exception with valid dates, as the first and the last millisecond that it closes.
  abbrev pub spans : List Closure → List (ℕ × ℕ)
  spans [] = []
  spans (e ∷ es) = elim e.start [
    | none ↦ spans es
    | some s ↦ elim e.end [ none ↦ spans es | some t ↦ (s, end_of_day cal t) ∷ spans es ]
  ]

  abbrev pub is_blocked : List (ℕ × ℕ) → ℕ → Bool
  is_blocked closed t = any (λ (s, e). leb s t && leb t e) closed

  -- The proposed opening of an interval on a date.
  abbrev pub proposed : ℕ → Interval → ℕ
  proposed date i = cal.at_time date (part i.opens_at.hours) (part i.opens_at.minutes) 0 0

  -- The loop over the intervals of a day.
  unfoldable pub next_in : List (ℕ × ℕ) → ℕ → List Interval → Result ScheduleError (Option ℕ)
  unfolding is_time_greater_than_or_equal_to
  next_in closed date [] = ok none
  next_in closed date (i ∷ is) =
      let rest = next_in closed date is in
      is_time_greater_than_or_equal_to i.opens_at (day_time cal date) >>= λ late.
      if not late
      then rest
      else if is_blocked closed (proposed date i)
      then rest
      else ok (some (proposed date i))

  abbrev pub candidate_date : ℕ → ℕ → ℕ
  candidate_date anchor zero = cal.add_days anchor 0
  candidate_date anchor (suc n) = cal.at_time (cal.add_days anchor (suc n)) 0 0 0 0

  abbrev pub or_later :
      Result ScheduleError (Option ℕ)
      → Result ScheduleError (Option ℕ)
      → Result ScheduleError (Option ℕ)
  or_later found rest = found >>= λ r. elim r [ none ↦ rest | some t ↦ ok (some t) ]

  abbrev pub next_on :
      List (ℕ × ℕ)
      → ℕ
      → Option BusinessDay
      → Result ScheduleError (Option ℕ)
      → Result ScheduleError (Option ℕ)
  next_on closed date none rest = rest
  next_on closed date (some d) rest =
      if not d.is_open then rest else or_later (next_in closed date d.intervals) rest

  -- The loop over the days: so many are left, from this offset on.
  unfoldable pub next_days : BusinessHours → ℕ → ℕ → ℕ → Result ScheduleError (Option ℕ)
  unfolding next_in
  next_days hours anchor zero offset = ok none
  next_days hours anchor (suc n) offset =
      let date = candidate_date anchor offset in
      next_on (spans hours.exceptions) date (get_elem? hours.weekly_schedule (cal.day date))
        (next_days hours anchor n (offset + 1))

  unfoldable pub next_business_hours : ℕ → Option BusinessHours → Result ScheduleError (Option ℕ)
  unfolding next_days settings_get
  next_business_hours now stored =
      settings_get cal.is_timezone stored >>= λ hours. next_days hours now 14 0
