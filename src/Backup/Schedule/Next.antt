-- ===== src/Backup/Schedule/Next.antt =====
-- `computeNextRunAt`. `Date` is that of a server whose time zone does not shift: local time is a count of milliseconds, and
-- the calendar's months are a parameter.
use virt_pilot.Common.{
  ℕ, ◌+◌, ◌-◌, ◌*◌, ◌/◌, ◌%◌, ◌≤◌, ◌<◌, ◌≡◌, ◌&&◌, Option, none, some, if◌then◌else◌, leb, ◌==◌,
}
use virt_pilot.Backup.Schedule.Types.{Schedule, Frequency, hourly, daily, weekly, monthly, other}

-- Days and months are counted from the epoch.
pub record Calendar : Type 0 where
  pub month_of : ℕ → ℕ
  pub first_day : ℕ → ℕ
  pub starts : (d : ℕ) → first_day (month_of d) ≤ d
  pub ends : (d : ℕ) → d < first_day (month_of d + 1)
  pub shortest : (k : ℕ) → first_day k + 28 ≤ first_day (k + 1)
  pub longest : (k : ℕ) → first_day (k + 1) ≤ first_day k + 31
  pub month_unique : (k d : ℕ) → first_day k ≤ d → d < first_day (k + 1) → month_of d ≡ k

abbrev pub minute_ms : ℕ
minute_ms = 60000

abbrev pub hour_ms : ℕ
hour_ms = 3600000

abbrev pub day_ms : ℕ
day_ms = 86400000

-- `setSeconds(0, 0)`
abbrev pub without_seconds : ℕ → ℕ
without_seconds t = t / minute_ms * minute_ms

-- `setMinutes` and `setHours`, at a second.
abbrev pub set_minutes : ℕ → ℕ → ℕ
set_minutes t minute = t / hour_ms * hour_ms + minute * minute_ms + t % minute_ms

abbrev pub set_hours : ℕ → ℕ → ℕ → ℕ
set_hours t hour minute = t / day_ms * day_ms + hour * hour_ms + minute * minute_ms + t % minute_ms

-- `setDate(getDate() + days)`
abbrev pub add_days : ℕ → ℕ → ℕ
add_days t days = t + days * day_ms

-- The epoch was a Thursday.
abbrev pub get_day : ℕ → ℕ
get_day t = (t / day_ms + 4) % 7

abbrev pub unless_later : ℕ → ℕ → ℕ → ℕ
unless_later now next otherwise = if leb next now then otherwise else next

abbrev pub next_hourly : Schedule → ℕ → ℕ
next_hourly s now =
    let next = set_minutes (without_seconds now) s.minute in unless_later now next (next + hour_ms)

abbrev pub next_daily : Schedule → ℕ → ℕ
next_daily s now =
    let next = set_hours (without_seconds now) s.hour s.minute in
    unless_later now next (add_days next 1)

abbrev pub next_weekly : Schedule → ℕ → ℕ
next_weekly s now =
    let day_diff = (s.day_of_week + 7 - get_day now) % 7 in
    let next = set_hours (without_seconds now) s.hour s.minute in
    if day_diff == 0 && leb next now then add_days next 7 else add_days next day_diff

module _ (cal : Calendar) where
  -- `setDate` to a day of the month, from 1.
  abbrev pub set_date : ℕ → ℕ → ℕ
  set_date t day = (cal.first_day (cal.month_of (t / day_ms)) + (day - 1)) * day_ms + t % day_ms

  -- `setMonth(getMonth() + 1)`; a day that the month does not have counts on into the one after.
  abbrev pub next_month : ℕ → ℕ
  next_month t =
      let month = cal.month_of (t / day_ms) in
      (cal.first_day (month + 1) + (t / day_ms - cal.first_day month)) * day_ms + t % day_ms

  abbrev pub next_monthly : Schedule → ℕ → ℕ
  next_monthly s now =
      let next = set_hours (set_date (without_seconds now) s.day_of_month) s.hour s.minute in
      unless_later now next (next_month next)

  abbrev pub next_for : Frequency → Schedule → ℕ → Option ℕ
  next_for hourly s now = some (next_hourly s now)
  next_for daily s now = some (next_daily s now)
  next_for weekly s now = some (next_weekly s now)
  next_for monthly s now = some (next_monthly s now)
  next_for other s now = none

  -- None is the `throw`.
  unfoldable pub compute_next_run_at : Schedule → ℕ → Option ℕ
  compute_next_run_at s now = next_for s.frequency s now
