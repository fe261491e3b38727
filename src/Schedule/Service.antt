-- ===== src/Schedule/Service.antt =====
-- `ScheduleService`: `isOpenNow`, `getBusinessHours` and `setBusinessHours`.
use jonoob_part_backend.Common.{
  ℕ, zero, suc, Bool, true, false, ◌&&◌, Option, none, some, List, [], ◌∷◌, ◌++◌, leb,
  if◌then◌else◌, Result, ok, err,
}
use jonoob_part_backend.Schedule.Times.{
  TimeText, ScheduleError, no_weekday, ◌>>=◌, is_time_in_interval,
}
use jonoob_part_backend.Schedule.Store.{settings_get, settings_set}
use jonoob_part_backend.Schedule.Settings.{Interval, BusinessDay, Closure, BusinessHours}

-- What the code uses of `Date` in the local time zone.
pub record Calendar : Type 0 where
  -- `getDay`, `getHours`, `getMinutes`
  pub day : ℕ → ℕ
  pub hour : ℕ → ℕ
  pub minute : ℕ → ℕ
  -- `setHours`
  pub at_time : ℕ → (hours minutes seconds ms : ℕ) → ℕ
  -- `setDate(getDate() + days)`
  pub add_days : ℕ → ℕ → ℕ
  -- `Intl.DateTimeFormat` accepts the timezone.
  pub is_timezone : ℕ → Bool

pub data IsOpen : Type 0 where
  open_now outside_hours : IsOpen
  closed_by : Closure → IsOpen

-- `list[i]`, where `undefined` is `none`.
abbrev pub get_elem? : {A : Type 0} → List A → ℕ → Option A
get_elem? [] i = none
get_elem? (x ∷ xs) zero = some x
get_elem? (x ∷ xs) (suc i) = get_elem? xs i

-- Comparisons with the time of an invalid date are false.
abbrev pub from_start : Option ℕ → ℕ → Bool
from_start none now = false
from_start (some s) now = leb s now

module _ (cal : Calendar) where
  abbrev pub end_of_day : ℕ → ℕ
  end_of_day date = cal.at_time date 23 59 59 999

  abbrev pub until_end : Option ℕ → ℕ → Bool
  until_end none now = false
  until_end (some e) now = leb now (end_of_day e)

  -- `formatDateToDayTime`
  abbrev pub day_time : ℕ → TimeText
  day_time date = record { hours = some (cal.hour date); minutes = some (cal.minute date) }

  pub data Scan : Type 0 where
    active_exception : Closure → Scan
    no_exception : (exceptions_changed : Bool) (active : List Closure) → Scan

  abbrev pub covers : ℕ → Closure → Bool
  covers now e = from_start e.start now && until_end e.end now

  -- The loop over the exceptions.
  unfoldable pub scan : ℕ → Bool → List Closure → List Closure → Scan
  scan now changed active [] = no_exception changed active
  scan now changed active (e ∷ es) =
      let kept = scan now changed (active ++ (e ∷ [])) es in
      let dropped = scan now true active es in
      if covers now e then active_exception e else if until_end e.end now then kept else dropped

  unfoldable pub in_intervals : TimeText → List Interval → Result ScheduleError IsOpen
  unfolding is_time_in_interval
  in_intervals time_now [] = ok outside_hours
  in_intervals time_now (i ∷ is) =
      let rest = in_intervals time_now is in
      is_time_in_interval time_now i.opens_at i.closes_at >>= λ inside.
      if inside then ok open_now else rest

  abbrev pub open_today : ℕ → Option BusinessDay → Result ScheduleError IsOpen
  open_today now none = err no_weekday
  open_today now (some d) =
      if d.is_open then in_intervals (day_time now) d.intervals else ok outside_hours

  -- `if (exceptionsChanged) await this.settings.set(...)`
  abbrev pub tidy :
      Bool
      → List Closure
      → BusinessHours
      → Option BusinessHours
      → Result ScheduleError (Unit {0}) × Option BusinessHours
  tidy true active hours stored =
      settings_set cal.is_timezone (record hours { exceptions = active }) stored
  tidy false active hours stored = (ok tt, stored)

  abbrev pub after_tidy :
      Result ScheduleError (Unit {0}) × Option BusinessHours
      → Result ScheduleError IsOpen
      → Result ScheduleError IsOpen × Option BusinessHours
  after_tidy (ok u, stored) r = (r, stored)
  after_tidy (err e, stored) r = (err e, stored)

  abbrev pub after_scan :
      ℕ
      → BusinessHours
      → Option BusinessHours
      → Scan
      → Result ScheduleError IsOpen × Option BusinessHours
  after_scan now hours stored (active_exception e) = (ok (closed_by e), stored)
  after_scan now hours stored (no_exception changed active) =
      after_tidy (tidy changed active hours stored)
        (open_today now (get_elem? hours.weekly_schedule (cal.day now)))

  abbrev pub open_with :
      ℕ
      → Option BusinessHours
      → Result ScheduleError BusinessHours
      → Result ScheduleError IsOpen × Option BusinessHours
  open_with now stored (err e) = (err e, stored)
  open_with now stored (ok hours) = after_scan now hours stored (scan now false [] hours.exceptions)

  -- The answer, and what is stored after it.
  unfoldable pub is_open_now :
      ℕ → Option BusinessHours → Result ScheduleError IsOpen × Option BusinessHours
  unfolding scan in_intervals settings_get settings_set
  is_open_now now stored = open_with now stored (settings_get cal.is_timezone stored)

  unfoldable pub get_business_hours : Option BusinessHours → Result ScheduleError BusinessHours
  unfolding settings_get
  get_business_hours stored = settings_get cal.is_timezone stored

  unfoldable pub set_business_hours :
      BusinessHours → Option BusinessHours → Result ScheduleError (Unit {0}) × Option BusinessHours
  unfolding settings_set
  set_business_hours hours stored = settings_set cal.is_timezone hours stored
