-- ===== src/Schedule/Tests.antt =====
-- Runs on a calendar without time zones, whose first day is a Sunday.
use jonoob_part_backend.Common.{
  ℕ, ◌+◌, ◌-◌, ◌*◌, ◌/◌, ◌%◌, ◌==◌, ◌≡◌, refl, none, some, [], ◌∷◌, ok, arith,
}
use jonoob_part_backend.Schedule.Times.{time_to_minutes}
use jonoob_part_backend.Schedule.Settings.{
  BusinessDay, BusinessHours, Closure, default_hours, is_valid_interval,
}
use jonoob_part_backend.Schedule.Store.{weekday_index, settings_get}
use jonoob_part_backend.Schedule.Service.{Calendar, open_now, is_open_now, outside_hours, get_elem?}
use jonoob_part_backend.Schedule.Search.{next_business_hours}
use jonoob_part_backend.Schedule.NextOpening.{IsCalendar, next_business_hours-first}
use jonoob_part_backend.Schedule.OpenNow.{state_of, is_open_now_lem}

abbrev day_ms : ℕ
day_ms = 86_400_000

abbrev plain_calendar : Calendar
plain_calendar = record {
  day = λ t. t / day_ms % 7;
  hour = λ t. t / 3_600_000 % 24;
  minute = λ t. t / 60_000 % 60;
  at_time = λ t h m s ms. t - t % day_ms + h * 3_600_000 + m * 60_000 + s * 1000 + ms;
  add_days = λ t n. t + n * day_ms;
  is_timezone = λ z. z == 0;
}

plain_calendar-IsCalendar : IsCalendar plain_calendar
plain_calendar-IsCalendar t = (omega arith, (omega arith, omega arith))

abbrev holiday : Closure
holiday = record { start = some (day_ms * 2); end = some (day_ms * 3); reason = 1 }

abbrev hours : BusinessHours
hours = default_hours 0

abbrev with_holiday : BusinessHours
with_holiday = record (default_hours 0) { exceptions = holiday ∷ [] }

-- Monday at ten.
abbrev monday_at_ten : ℕ
monday_at_ten = day_ms + 36_000_000

is_open_now_example :
    (d : BusinessDay) × (get_elem? hours.weekly_schedule 1 ≡ some d)
    × (weekday_index d.weekday ≡ 1)
    × (is_open_now plain_calendar monday_at_ten (some hours)
        ≡ (ok (state_of plain_calendar d 600), some hours))
unfolding is_valid_interval time_to_minutes settings_get
is_open_now_example =
    is_open_now_lem plain_calendar monday_at_ten (some hours) hours plain_calendar-IsCalendar refl

-- On day 5 at ten in the evening: day 6 takes Friday's entry, which is closed.
next_business_hours_example :
    next_business_hours plain_calendar (day_ms * 5 + 79_200_000) (some hours)
    ≡ ok (some (day_ms * 7 + 28_800_000))
unfolding is_valid_interval time_to_minutes settings_get
next_business_hours_example =
    next_business_hours-first plain_calendar (day_ms * 5 + 79_200_000) (some hours) hours
      plain_calendar-IsCalendar refl

-- Friday is day 5 of `Date`, and so takes the sixth entry, Thursday's.
friday_is_open : is_open_now plain_calendar (day_ms * 5 + 36_000_000) none ≡ (ok open_now, none)
unfolding is_open_now
friday_is_open = refl

-- Saturday is day 6, and takes Friday's entry.
saturday_is_closed :
    is_open_now plain_calendar (day_ms * 6 + 36_000_000) none ≡ (ok outside_hours, none)
unfolding is_open_now
saturday_is_closed = refl
