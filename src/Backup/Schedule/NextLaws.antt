-- ===== src/Backup/Schedule/NextLaws.antt =====
-- When a schedule runs next.
use virt_pilot.Common.{
  ℕ, ◌+◌, ◌-◌, ◌*◌, ◌/◌, ◌%◌, ◌≤◌, ◌<◌, ◌≡◌, refl, ap, sym, ◌∙◌, inl, inr, Bool, true, false, ◌&&◌,
  some, if◌then◌else◌, leb, ◌==◌, Bool-cases, subst, arith,
}
use virt_pilot.Backup.Schedule.Types.{
  Schedule, Frequency, hourly, daily, weekly, monthly, other, IsTimely,
}
use virt_pilot.Backup.Schedule.Next.{
  Calendar, minute_ms, hour_ms, day_ms, without_seconds, set_minutes, set_hours, add_days, get_day,
  set_date, next_month, unless_later, next_hourly, next_daily, next_weekly, next_monthly, next_for,
  compute_next_run_at,
}

abbrev pub period : Frequency → ℕ
period hourly = hour_ms
period daily = day_ms
period weekly = 7 * day_ms
period monthly = 31 * day_ms
period other = 0

abbrev pub clock_of : Schedule → ℕ
clock_of s = s.hour * hour_ms + s.minute * minute_ms

-- The time is at the schedule's minute, hour and day.
abbrev pub Falls : Calendar → Frequency → Schedule → ℕ → Type 0
Falls cal hourly s t = t % hour_ms ≡ s.minute * minute_ms
Falls cal daily s t = t % day_ms ≡ clock_of s
Falls cal weekly s t = (t % day_ms ≡ clock_of s) × (get_day t ≡ s.day_of_week)
Falls cal monthly s t =
    (t % day_ms ≡ clock_of s)
    × (t / day_ms + 1 ≡ cal.first_day (cal.month_of (t / day_ms)) + s.day_of_month)
Falls cal other s t = Unit {0}

abbrev Good : Calendar → Frequency → Schedule → ℕ → ℕ → Type 0
Good cal f s now next = (now < next) × (next ≤ now + period f) × Falls cal f s next

-- A candidate within a period of now, and the next of its kind.
unless_later-Good :
    (now next otherwise p : ℕ)
    → next ≤ now + p
    → otherwise ≤ next + p
    → next + 1 ≤ otherwise
    → now < otherwise
    → (now < unless_later now next otherwise) × (unless_later now next otherwise ≤ now + p)
unless_later-Good now next otherwise p h k l m = (ground arith, ground arith)

unless_later-keeps :
    (P : ℕ → Type 0) (now next otherwise : ℕ)
    → P next
    → P otherwise
    → P (unless_later now next otherwise)
unless_later-keeps P now next otherwise h k = elim (Bool-cases (leb next now)) [
  | inl e ↦ rw e k
  | inr e ↦ rw e h
]

same_second : (t : ℕ) → without_seconds t % minute_ms ≡ 0
same_second t = omega arith

set_minutes_lem :
    (now minute : ℕ)
    → set_minutes (without_seconds now) minute ≡ now / hour_ms * hour_ms + minute * minute_ms
set_minutes_lem now minute = omega arith

set_hours_lem :
    (now hour minute : ℕ)
    → set_hours (without_seconds now) hour minute
      ≡ now / day_ms * day_ms + (hour * hour_ms + minute * minute_ms)
set_hours_lem now hour minute = omega arith

hourly-Good :
    (cal : Calendar) (s : Schedule) (now : ℕ)
    → IsTimely s
    → Good cal hourly s now (next_hourly s now)
hourly-Good cal s now v =
    let next = set_minutes (without_seconds now) s.minute in
    let here = set_minutes_lem now s.minute in
    let small = v.minute_small in
    let (late, soon) =
      unless_later-Good now next (next + hour_ms) hour_ms (omega (arith, here, small)) (omega arith)
        (omega arith) (omega (arith, here)) in
    (
      late,
      soon,
      unless_later-keeps (λ t. t % hour_ms ≡ s.minute * minute_ms) now next (next + hour_ms)
          (omega (arith, here, small)) (omega (arith, here, small)),
    )

clock_small : (s : Schedule) → IsTimely s → clock_of s < day_ms
clock_small s v = omega (arith, v.hour_small, v.minute_small)

daily-Good :
    (cal : Calendar) (s : Schedule) (now : ℕ) → IsTimely s → Good cal daily s now (next_daily s now)
daily-Good cal s now v =
    let next = set_hours (without_seconds now) s.hour s.minute in
    let here : next ≡ now / day_ms * day_ms + clock_of s = set_hours_lem now s.hour s.minute in
    let small = clock_small s v in
    let (late, soon) =
      unless_later-Good now next (add_days next 1) day_ms (omega (arith, here, small)) (omega arith)
        (omega arith) (omega (arith, here)) in
    (
      late,
      soon,
      unless_later-keeps (λ t. t % day_ms ≡ clock_of s) now next (add_days next 1)
          (omega (arith, here, small)) (omega (arith, here, small)),
    )

weekly_on :
    (s : Schedule) (now next diff : ℕ)
    → clock_of s < day_ms
    → next ≡ now / day_ms * day_ms + clock_of s
    → diff < 7
    → (now / day_ms + 4 + diff) % 7 ≡ s.day_of_week
    → (b : Bool) → (diff == 0 && leb next now) ≡ b
    → let t = if b then add_days next 7 else add_days next diff in
      (now < t) × (t ≤ now + 7 * day_ms) × ((t % day_ms ≡ clock_of s) × (get_day t ≡ s.day_of_week))
weekly_on s now next diff small here less on true e =
    let none_left : diff ≡ 0 = ground (arith, e) in
    let due : next ≤ now = ground (arith, e) in
    (
      omega (arith, here),
      omega (arith, due),
      (omega (arith, here, small), omega (arith, here, small, on, none_left)),
    )
weekly_on s now next diff small here less on false e =
    let later : now < add_days next diff = elim (Bool-cases (diff == 0)) [
      | inl none_left ↦ ground (arith, e, none_left)
      | inr some_left ↦ let one : 0 < diff = ground (arith, some_left) in omega (arith, here, one)
    ] in
    (
      later,
      omega (arith, here, less, small),
      (omega (arith, here, small), omega (arith, here, small, on)),
    )

weekly-Good :
    (cal : Calendar) (s : Schedule) (now : ℕ)
    → IsTimely s
    → Good cal weekly s now (next_weekly s now)
weekly-Good cal s now v =
    let next = set_hours (without_seconds now) s.hour s.minute in
    let here : next ≡ now / day_ms * day_ms + clock_of s = set_hours_lem now s.hour s.minute in
    let diff = (s.day_of_week + 7 - get_day now) % 7 in
    weekly_on s now next diff (clock_small s v) here (omega arith) (omega (arith, v.week_small))
      (diff == 0 && leb next now) refl

monthly-Good :
    (cal : Calendar) (s : Schedule) (now : ℕ)
    → IsTimely s
    → Good cal monthly s now (next_monthly cal s now)
monthly-Good cal s now v =
    let month = cal.month_of (now / day_ms) in
    let day = cal.first_day month + (s.day_of_month - 1) in
    let next = set_hours (set_date cal (without_seconds now) s.day_of_month) s.hour s.minute in
    let small = clock_small s v in
    let same_day : without_seconds now / day_ms ≡ now / day_ms = omega arith in
    let on : set_date cal (without_seconds now) s.day_of_month
        ≡ day * day_ms + without_seconds now % day_ms =
      ap
        (λ d.
          (cal.first_day (cal.month_of d) + (s.day_of_month - 1)) * day_ms
          + without_seconds now % day_ms)
        same_day in
    let here : next ≡ day * day_ms + clock_of s = omega (arith, on, same_second now) in
    let place : next / day_ms ≡ day = omega (arith, here, small) in
    let this : cal.month_of (next / day_ms) ≡ month =
      ap cal.month_of place
      ∙ cal.month_unique month day (omega arith)
          (omega (arith, v.month_small, v.month_positive, cal.shortest month)) in
    let hop : next_month cal next
        ≡ (cal.first_day (month + 1) + (s.day_of_month - 1)) * day_ms + clock_of s =
      ap (λ m. (cal.first_day (m + 1) + (next / day_ms - cal.first_day m)) * day_ms + next % day_ms)
        this
      ∙ omega (arith, here, small, place) in
    let place' : next_month cal next / day_ms ≡ cal.first_day (month + 1) + (s.day_of_month - 1) =
      omega (arith, hop, small) in
    let this' : cal.month_of (next_month cal next / day_ms) ≡ month + 1 =
      ap cal.month_of place'
      ∙ cal.month_unique (month + 1) (cal.first_day (month + 1) + (s.day_of_month - 1))
          (omega arith)
          (omega (arith, v.month_small, v.month_positive, cal.shortest (month + 1))) in
    let (late, soon) =
      unless_later-Good now next (next_month cal next) (31 * day_ms)
        (omega (arith, here, small, v.month_small, cal.starts (now / day_ms)))
        (omega (arith, here, hop, cal.longest month)) (omega (arith, here, hop, cal.shortest month))
        (omega (arith, hop, cal.ends (now / day_ms))) in
    (
      late,
      soon,
      unless_later-keeps
          (λ t.
            (t % day_ms ≡ clock_of s)
            × (t / day_ms + 1 ≡ cal.first_day (cal.month_of (t / day_ms)) + s.day_of_month))
          now next (next_month cal next)
          (
            omega (arith, here, small),
            omega (arith, place, v.month_positive)
                ∙ ap (λ m. cal.first_day m + s.day_of_month) (sym this),
          )
          (
            omega (arith, hop, small),
            omega (arith, place', v.month_positive)
                ∙ ap (λ m. cal.first_day m + s.day_of_month) (sym this'),
          ),
    )

value_of : {x y : ℕ} → some x ≡ some y → x ≡ y
value_of e = ground (arith, e)

next_for-Good :
    (cal : Calendar) (f : Frequency) (s : Schedule) (now next : ℕ)
    → IsTimely s
    → next_for cal f s now ≡ some next
    → Good cal f s now next
next_for-Good cal hourly s now next v e =
    subst (Good cal hourly s now) (value_of e) (hourly-Good cal s now v)
next_for-Good cal daily s now next v e =
    subst (Good cal daily s now) (value_of e) (daily-Good cal s now v)
next_for-Good cal weekly s now next v e =
    subst (Good cal weekly s now) (value_of e) (weekly-Good cal s now v)
next_for-Good cal monthly s now next v e =
    subst (Good cal monthly s now) (value_of e) (monthly-Good cal s now v)
next_for-Good cal other s now next v e = absurd (ground (arith, e))

-- The next run of a schedule with a known frequency lies in the future, within one period of it, at the schedule's minute, hour and day.
pub compute_next_run_at-Good :
    (cal : Calendar) (s : Schedule) (now next : ℕ)
    → IsTimely s
    → compute_next_run_at cal s now ≡ some next
    → (now < next) × (next ≤ now + period s.frequency) × Falls cal s.frequency s next
unfolding compute_next_run_at
compute_next_run_at-Good cal s now next v e = next_for-Good cal s.frequency s now next v e
