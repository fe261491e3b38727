-- ===== src/Schedule/Store.antt =====
-- The settings of the schedule in the settings store (drizzle-settings-store.ts), under the schema of
-- schedule.schema.ts. What is stored is JSON: a `Date` comes back as a text, which `z.date()` refuses.
use jonoob_part_backend.Common.{
  ℕ, ◌+◌, Bool, true, false, ◌&&◌, ◌==◌, Option, none, some, is_some, List, [], ◌∷◌, if◌then◌else◌,
  Result, ok, err,
}
use jonoob_part_backend.Schedule.Times.{ScheduleError, invalid_settings}
use jonoob_part_backend.Schedule.Settings.{
  Weekday, saturday, sunday, monday, tuesday, wednesday, thursday, friday, BusinessDay, Closure,
  BusinessHours, is_valid_interval, default_hours,
}

-- The place of a weekday in the schedule.
abbrev pub weekday_index : Weekday → ℕ
weekday_index saturday = 0
weekday_index sunday = 1
weekday_index monday = 2
weekday_index tuesday = 3
weekday_index wednesday = 4
weekday_index thursday = 5
weekday_index friday = 6

-- `weeklyScheduleTuple`, from a place on.
abbrev pub is_week : ℕ → List BusinessDay → Bool
is_week n [] = n == 7
is_week n (d ∷ ds) = weekday_index d.weekday == n && is_week (n + 1) ds

abbrev pub all : {A : Type 0} → (A → Bool) → List A → Bool
all p [] = true
all p (x ∷ xs) = p x && all p xs

abbrev pub has_valid_intervals : BusinessDay → Bool
has_valid_intervals d = all is_valid_interval d.intervals

-- `z.date()` on a `Date`: it is not the invalid one.
abbrev pub is_closure : Closure → Bool
is_closure e = is_some e.start && is_some e.end

abbrev pub is_empty : List Closure → Bool
is_empty [] = true
is_empty (_ ∷ _) = false

-- `Intl.DateTimeFormat` accepts the timezone.
module _ (is_timezone : ℕ → Bool) where
  -- `businessHoursSchema` without the exceptions.
  abbrev pub is_schedule : BusinessHours → Bool
  is_schedule hours =
      is_timezone hours.timezone
      && is_week 0 hours.weekly_schedule
      && all has_valid_intervals hours.weekly_schedule

  -- `settings.get`
  unfoldable pub settings_get : Option BusinessHours → Result ScheduleError BusinessHours
  settings_get none = ok (default_hours 0)
  settings_get (some hours) =
      if is_schedule hours && is_empty hours.exceptions then ok hours else err invalid_settings

  -- `settings.set`
  unfoldable pub settings_set :
      BusinessHours → Option BusinessHours → Result ScheduleError (Unit {0}) × Option BusinessHours
  settings_set hours stored =
      if is_schedule hours && all is_closure hours.exceptions
      then (ok tt, some hours)
      else (err invalid_settings, stored)
