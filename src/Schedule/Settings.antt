-- ===== src/Schedule/Settings.antt =====
-- The settings, schedule.schema.ts, and their default.
use jonoob_part_backend.Common.{ℕ, Bool, true, false, Option, some, List, [], ◌∷◌, ltb, Result, ok}
use jonoob_part_backend.Schedule.Times.{TimeText, ScheduleError, time_to_minutes}

pub data Weekday : Type 0 where
  saturday sunday monday tuesday wednesday thursday friday : Weekday

pub record Interval : Type 0 where
  pub opens_at : TimeText
  pub closes_at : TimeText

pub record BusinessDay : Type 0 where
  pub weekday : Weekday
  pub is_open : Bool
  pub intervals : List Interval

-- An exception: the dates as milliseconds, `none` for an invalid date. Its type is always `closed`.
pub record Closure : Type 0 where
  pub start : Option ℕ
  pub end : Option ℕ
  pub reason : ℕ

pub record BusinessHours : Type 0 where
  pub timezone : ℕ
  pub weekly_schedule : List BusinessDay
  pub exceptions : List Closure

abbrev pub later : Result ScheduleError ℕ → Result ScheduleError ℕ → Bool
later (ok c) (ok o) = ltb o c
later _ _ = false

-- `businessHoursIntervalSchema`
unfoldable pub is_valid_interval : Interval → Bool
unfolding time_to_minutes
is_valid_interval i = later (time_to_minutes i.closes_at) (time_to_minutes i.opens_at)

abbrev pub text : ℕ → TimeText
text h = record { hours = some h; minutes = some 0 }

abbrev pub default_day : Weekday → BusinessDay
default_day day = record {
  weekday = day;
  is_open = true;
  intervals =
      record { opens_at = text 8; closes_at = text 13 }
      ∷ record { opens_at = text 17; closes_at = text 21 }
      ∷ [];
}

-- `scheduleSettings.defaultValue`, in the timezone `timezone`.
abbrev pub default_hours : ℕ → BusinessHours
default_hours timezone = record {
  timezone = timezone;
  weekly_schedule =
      default_day saturday
      ∷ default_day sunday
      ∷ default_day monday
      ∷ default_day tuesday
      ∷ default_day wednesday
      ∷ default_day thursday
      ∷ record { weekday = friday; is_open = false; intervals = [] }
      ∷ [];
  exceptions = [];
}
