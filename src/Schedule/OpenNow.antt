-- ===== src/Schedule/OpenNow.antt =====
-- When the store is open, and what stored exceptions do.
use jonoob_part_backend.Common.{
  ℕ, zero, suc, ◌+◌, ◌<◌, ◌≡◌, refl, Bool, true, ◌&&◌, Option, some, List, [], ◌∷◌, leb, ltb,
  if◌then◌else◌, any, All, In-All, inl, inr, ok, Bool-cases, arith,
}
use jonoob_part_backend.Schedule.Times.{TimeText, time_to_minutes, is_time_in_interval}
use jonoob_part_backend.Schedule.Settings.{Interval, BusinessDay, BusinessHours, is_valid_interval}
use jonoob_part_backend.Schedule.Store.{weekday_index, is_week, settings_get}
use jonoob_part_backend.Schedule.Service.{
  Calendar, IsOpen, open_now, outside_hours, get_elem?, day_time, scan, in_intervals, is_open_now,
}
use jonoob_part_backend.Schedule.NextOpening.{
  minutes_of, IsTime, valid-IsTime, IsCalendar, day_time-IsTime, minute_of_day, get_elem?-In,
  IsReadable, settings_get-IsReadable,
}

-- The interval holds this minute of the day.
abbrev pub holds : ℕ → Interval → Bool
holds minute i = leb (minutes_of i.opens_at) minute && ltb minute (minutes_of i.closes_at)

is_week-index :
    (n i : ℕ) (ds : List BusinessDay)
    → is_week n ds ≡ true
    → n + i < 7
    → (d : BusinessDay) × (get_elem? ds i ≡ some d) × (weekday_index d.weekday ≡ n + i)
is_week-index n i [] h l = absurd (ground (arith, h, l))
is_week-index n zero (d ∷ ds) h l = (d, refl, ground (arith, h))
is_week-index n (suc i) (d ∷ ds) h l =
    let (x, at, index) = is_week-index (n + 1) i ds (ground (arith, h)) (omega arith) in
    (x, at, omega arith)

module _ (cal : Calendar) where
  in_intervals-any :
      (t : TimeText) (is : List Interval)
      → IsTime t
      → All (λ i. is_valid_interval i ≡ true) is
      → in_intervals cal t is
        ≡ ok (if any (holds (minutes_of t)) is then open_now else outside_hours)
  unfolding in_intervals is_time_in_interval time_to_minutes
  in_intervals-any t [] now v = refl
  in_intervals-any t (i ∷ is) now (v, vs) =
      let (opens, closes) = valid-IsTime i v in
      let rest = in_intervals-any t is now vs in
      elim (Bool-cases (holds (minutes_of t) i)) [
        | inl h ↦ rw (now, opens, closes, h) refl
        | inr h ↦ rw (now, opens, closes, h) rest
      ]

  -- The schedule's entry at the place `getDay` decides.
  abbrev pub state_of : BusinessDay → ℕ → IsOpen
  state_of d minute =
      if d.is_open && any (holds minute) d.intervals then open_now else outside_hours

  open_by :
      (now : ℕ) (stored : Option BusinessHours) (hours : BusinessHours) (d : BusinessDay)
      → IsCalendar cal
      → IsReadable hours
      → settings_get cal.is_timezone stored ≡ ok hours
      → get_elem? hours.weekly_schedule (cal.day now) ≡ some d
      → is_open_now cal now stored ≡ (ok (state_of d (minute_of_day cal now)), stored)
  unfolding is_open_now scan
  open_by now stored hours d c readable h at =
      let valid =
        In-All (λ d. All (λ i. is_valid_interval i ≡ true) d.intervals) hours.weekly_schedule d
          readable.valid (get_elem?-In cal hours.weekly_schedule (cal.day now) d at) in
      let inside =
        in_intervals-any (day_time cal now) d.intervals (day_time-IsTime cal c now) valid in
      elim (Bool-cases d.is_open) [
        | inl t ↦ rw (h, readable.no_exceptions, at, t, inside) refl
        | inr t ↦ rw (h, readable.no_exceptions, at, t) refl
      ]

  -- Where `settings.get` answers settings, and the hours, minutes and days of dates are those of a day
  -- and a week: `isOpenNow` throws nothing and leaves the settings alone. It takes the schedule's entry
  -- of the weekday whose place, counted from saturday, is `getDay`, which counts from Sunday: the entry
  -- of the day before. The store is open exactly when that entry is open and one of its intervals holds
  -- the present minute, from its opening on and before its closing.
  pub is_open_now_lem :
      (now : ℕ) (stored : Option BusinessHours) (hours : BusinessHours)
      → IsCalendar cal
      → settings_get cal.is_timezone stored ≡ ok hours
      → (d : BusinessDay) × (get_elem? hours.weekly_schedule (cal.day now) ≡ some d)
        × (weekday_index d.weekday ≡ cal.day now)
        × (is_open_now cal now stored ≡ (ok (state_of d (minute_of_day cal now)), stored))
  is_open_now_lem now stored hours c h =
      let readable = settings_get-IsReadable cal.is_timezone stored hours h in
      let (_, (_, in_week)) = c now in
      let (d, at, index) =
        is_week-index 0 (cal.day now) hours.weekly_schedule readable.week (omega arith) in
      let placed : weekday_index d.weekday ≡ cal.day now = omega (arith, index) in
      (d, at, placed, open_by now stored hours d c readable h at)
