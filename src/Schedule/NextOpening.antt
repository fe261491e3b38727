-- ===== src/Schedule/NextOpening.antt =====
-- The next opening, by the settings as they can be read.
use jonoob_part_backend.Common.{
  ℕ, zero, suc, ◌+◌, ◌*◌, ◌≤◌, ◌<◌, ◌≡◌, refl, subst, Bool, true, ◌&&◌, ◌&&◌, Option, none, some,
  List, [], ◌∷◌, ◌++◌, map, leb, if◌then◌else◌, filter, All, In, inl, inr, Result, ok, err,
  Bool-cases, Option-cases, arith, In-All,
}
use jonoob_part_backend.Schedule.Times.{
  TimeText, ScheduleError, proper_time, time_to_minutes, is_time_greater_than_or_equal_to,
}
use jonoob_part_backend.Schedule.Settings.{
  Interval, BusinessDay, BusinessHours, Closure, later, is_valid_interval, default_hours,
}
use jonoob_part_backend.Schedule.Store.{
  all, is_week, has_valid_intervals, is_empty, is_schedule, settings_get,
}
use jonoob_part_backend.Schedule.Service.{Calendar, get_elem?, day_time}
use jonoob_part_backend.Schedule.Search.{
  part, next_in, candidate_date, or_later, next_on, next_days, next_business_hours,
}

-- The minutes since midnight of a proper time.
abbrev pub minutes_of : TimeText → ℕ
minutes_of t = part t.hours * 60 + part t.minutes

abbrev pub IsTime : TimeText → Type 0
IsTime t = proper_time t.hours t.minutes ≡ ok (minutes_of t)

proper-IsTime :
    (h m : Option ℕ) (n : ℕ) → proper_time h m ≡ ok n → proper_time h m ≡ ok (part h * 60 + part m)
proper-IsTime none m n e = cc e
proper-IsTime (some h) none n e = cc e
proper-IsTime (some h) (some m) n e = elim (Bool-cases (leb h 23 && leb m 59)) [
  | inl t ↦ rw t refl
  | inr t ↦ cc (rw t at e)
]

-- The two times of a valid interval are proper, and the first is the earlier one.
pub valid-IsTime :
    (i : Interval) → is_valid_interval i ≡ true → IsTime i.opens_at × IsTime i.closes_at
unfolding is_valid_interval time_to_minutes
valid-IsTime i v =
    go (proper_time i.closes_at.hours i.closes_at.minutes)
      (proper_time i.opens_at.hours i.opens_at.minutes) refl refl v
  where
    go :
        (c o : Result ScheduleError ℕ)
        → proper_time i.closes_at.hours i.closes_at.minutes ≡ c
        → proper_time i.opens_at.hours i.opens_at.minutes ≡ o
        → later c o ≡ true
        → IsTime i.opens_at × IsTime i.closes_at
    go (ok c) (ok o) p q t = (
      proper-IsTime i.opens_at.hours i.opens_at.minutes o q,
      proper-IsTime i.closes_at.hours i.closes_at.minutes c p,
    )
    go (ok c) (err x) p q t = cc t
    go (err x) o p q t = cc t

-- The hours of dates are at most 23, their minutes at most 59, and their days are those of a week.
abbrev pub IsCalendar : Calendar → Type 0
IsCalendar cal = (date : ℕ) → (cal.hour date ≤ 23) × ((cal.minute date ≤ 59) × (cal.day date < 7))

pub day_time-IsTime : (cal : Calendar) → IsCalendar cal → (date : ℕ) → IsTime (day_time cal date)
day_time-IsTime cal c date =
    let fits : (leb (cal.hour date) 23 && leb (cal.minute date) 59) ≡ true =
      let (h, (m, _)) = c date in ground (arith, h, m) in
    rw fits refl

-- The settings can be read: all intervals of all days are valid, the days are those of a week from
-- saturday on, and there are no exceptions.
pub record IsReadable (hours : BusinessHours) : Type 0 where
  pub week : is_week 0 hours.weekly_schedule ≡ true
  pub valid : All (λ d. All (λ i. is_valid_interval i ≡ true) d.intervals) hours.weekly_schedule
  pub no_exceptions : hours.exceptions ≡ []

intervals-valid :
    (is : List Interval)
    → all is_valid_interval is ≡ true
    → All (λ i. is_valid_interval i ≡ true) is
intervals-valid [] h = tt
intervals-valid (i ∷ is) h = (ground (arith, h), intervals-valid is (ground (arith, h)))

days-valid :
    (ds : List BusinessDay)
    → all has_valid_intervals ds ≡ true
    → All (λ d. All (λ i. is_valid_interval i ≡ true) d.intervals) ds
days-valid [] h = tt
days-valid (d ∷ ds) h =
    (intervals-valid d.intervals (ground (arith, h)), days-valid ds (ground (arith, h)))

empty-nil : (es : List Closure) → is_empty es ≡ true → es ≡ []
empty-nil [] h = refl
empty-nil (e ∷ es) h = cc h

default-IsReadable : IsReadable (default_hours 0)
unfolding is_valid_interval time_to_minutes
default-IsReadable = record {
  week = refl;
  valid = days-valid (default_hours 0).weekly_schedule refl;
  no_exceptions = refl;
}

pub settings_get-IsReadable :
    (is_timezone : ℕ → Bool) (stored : Option BusinessHours) (hours : BusinessHours)
    → settings_get is_timezone stored ≡ ok hours
    → IsReadable hours
unfolding settings_get
settings_get-IsReadable is_timezone none hours h = subst IsReadable (cc h) default-IsReadable
settings_get-IsReadable is_timezone (some x) hours h =
    elim (Bool-cases (is_schedule is_timezone x && is_empty x.exceptions)) [
      | inr f ↦ cc (rw f at h)
      | inl t ↦
          let same_hours : x ≡ hours = cc (rw t at h) in
          subst IsReadable same_hours (record {
            week = ground (arith, t);
            valid = days-valid x.weekly_schedule (ground (arith, t));
            no_exceptions = empty-nil x.exceptions (ground (arith, t));
          })
    ]

abbrev pub first : List ℕ → Option ℕ
first [] = none
first (x ∷ xs) = some x

module _ (cal : Calendar) where
  abbrev pub minute_of_day : ℕ → ℕ
  minute_of_day date = cal.hour date * 60 + cal.minute date

  -- The openings of a day that are not before the date's minute of the day.
  abbrev pub openings_of : ℕ → Option BusinessDay → List ℕ
  openings_of date none = []
  openings_of date (some d) =
      if d.is_open
      then map (λ i. cal.at_time date (part i.opens_at.hours) (part i.opens_at.minutes) 0 0)
          (filter (λ i. leb (minute_of_day date) (minutes_of i.opens_at)) d.intervals)
      else []

  -- Today at the present time, and the later days from their first millisecond on.
  abbrev pub search_from : ℕ → ℕ → ℕ
  search_from now zero = cal.add_days now 0
  search_from now (suc n) = cal.at_time (cal.add_days now (suc n)) 0 0 0 0

  -- The openings of so many days from an offset on, in order.
  abbrev pub openings : BusinessHours → ℕ → ℕ → ℕ → List ℕ
  openings hours now zero offset = []
  openings hours now (suc n) offset =
      let date = search_from now offset in
      openings_of date (get_elem? hours.weekly_schedule (cal.day date))
      ++ openings hours now n (offset + 1)

  next_in-first :
      (date : ℕ) (is : List Interval)
      → IsCalendar cal
      → All (λ i. is_valid_interval i ≡ true) is
      → next_in cal [] date is
        ≡ ok (
            first (
              map
                (λ i. cal.at_time date (part i.opens_at.hours) (part i.opens_at.minutes) 0 0)
                (filter (λ i. leb (minute_of_day date) (minutes_of i.opens_at)) is)))
  unfolding next_in is_time_greater_than_or_equal_to time_to_minutes
  next_in-first date [] c v = refl
  next_in-first date (i ∷ is) c (v, vs) =
      let opens = (valid-IsTime i v).0 in
      let now = day_time-IsTime cal c date in
      let rest = next_in-first date is c vs in
      elim (Bool-cases (leb (minute_of_day date) (minutes_of i.opens_at))) [
        | inr f ↦ rw (opens, now, f) rest
        | inl t ↦ rw (opens, now, t) refl
      ]

  first-append :
      (xs ys : List ℕ) (r : Result ScheduleError (Option ℕ))
      → r ≡ ok (first ys)
      → or_later cal (ok (first xs)) r ≡ ok (first (xs ++ ys))
  first-append [] ys r h = h
  first-append (x ∷ xs) ys r h = refl

  pub get_elem?-In : {A : Type 0} (xs : List A) (i : ℕ) (x : A) → get_elem? xs i ≡ some x → In x xs
  get_elem?-In [] i x e = cc e
  get_elem?-In (y ∷ ys) zero x e = let e' : some y ≡ some x = e in inl (cc e')
  get_elem?-In (y ∷ ys) (suc i) x e = inr (get_elem?-In ys i x e)

  next_on-first :
      (date : ℕ) (d : BusinessDay) (ys : List ℕ) (r : Result ScheduleError (Option ℕ))
      → IsCalendar cal
      → All (λ i. is_valid_interval i ≡ true) d.intervals
      → r ≡ ok (first ys)
      → next_on cal [] date (some d) r ≡ ok (first (openings_of date (some d) ++ ys))
  next_on-first date d ys r c v h = elim (Bool-cases d.is_open) [
    | inr f ↦ rw f h
    | inl t ↦ rw (t, next_in-first date d.intervals c v) (first-append _ ys r h)
  ]

  candidate_date-search : (now offset : ℕ) → candidate_date cal now offset ≡ search_from now offset
  candidate_date-search now zero = refl
  candidate_date-search now (suc n) = refl

  next_days-first :
      (hours : BusinessHours) (now n offset : ℕ)
      → IsCalendar cal
      → IsReadable hours
      → next_days cal hours now n offset ≡ ok (first (openings hours now n offset))
  unfolding next_days
  next_days-first hours now zero offset c v = refl
  next_days-first hours now (suc n) offset c v =
      let rest = next_days-first hours now n (offset + 1) c v in
      let date = search_from now offset in
      elim (Option-cases (get_elem? hours.weekly_schedule (cal.day date))) [
        | inl e ↦ rw (candidate_date-search now offset, e) rest
        | inr (d, e) ↦
            rw (candidate_date-search now offset, e, v.no_exceptions)
              (next_on-first date d (openings hours now n (offset + 1)) _ c
                (In-All (λ d. All (λ i. is_valid_interval i ≡ true) d.intervals)
                  hours.weekly_schedule d v.valid
                  (get_elem?-In hours.weekly_schedule (cal.day date) d e))
                rest)
      ]

  -- Where `settings.get` answers settings, and the hours, minutes and days of dates are those of a day
  -- and a week: the search for the next opening throws nothing, and answers the first opening of an
  -- interval of the schedule's entry at the place `getDay` of an open day, today from the present
  -- minute on, and on the 13 days after it from midnight on. It answers nothing when there is none.
  pub next_business_hours-first :
      (now : ℕ) (stored : Option BusinessHours) (hours : BusinessHours)
      → IsCalendar cal
      → settings_get cal.is_timezone stored ≡ ok hours
      → next_business_hours cal now stored ≡ ok (first (openings hours now 14 0))
  unfolding next_business_hours
  next_business_hours-first now stored hours c h =
      rw h
        (next_days-first hours now 14 0 c (settings_get-IsReadable cal.is_timezone stored hours h))
