-- ===== src/Backup/Schedule/Put.antt =====
-- `PUT /schedules/:vmUuid`, and the numbers that packages/backend/src/lib/validate.ts lets through.
use virt_pilot.Common.{ℕ, Bool, true, false, ◌&&◌, Option, none, some, if◌then◌else◌, leb, String}
use virt_pilot.Backup.Schedule.Types.{
  Schedule, Frequency, hourly, daily, weekly, monthly, other, ScheduleMode, full,
}
use virt_pilot.Backup.Schedule.Next.{Calendar, compute_next_run_at}
use virt_pilot.Backup.Schedule.Store.{File, Written, refused, update_schedule}

-- A number of the body: left out or null, not a natural number, or one.
pub data Given : Type 0 where
  left_out bad : Given
  number : ℕ → Given

-- `other` is a frequency that is missing or unknown, and no mode one that is.
pub record Body : Type 0 where
  pub frequency : Frequency
  pub hour : Given
  pub minute : Given
  pub day_of_week : Given
  pub day_of_month : Given
  pub retention_days : Option (Option ℕ)
  pub enabled : Option Bool
  pub mode : Option ScheduleMode
  pub full_every : Given

-- `validateNonNegativeInt` where a number is given, and otherwise what was stored. None is the `throw`.
abbrev pub non_negative_int : Given → ℕ → ℕ → Option ℕ
non_negative_int left_out most stored = some stored
non_negative_int bad most stored = none
non_negative_int (number n) most stored = if leb n most then some n else none

-- The same with `validatePositiveInt`.
abbrev pub positive_int : Given → ℕ → ℕ → Option ℕ
positive_int left_out most stored = some stored
positive_int bad most stored = none
positive_int (number n) most stored = if leb 1 n && leb n most then some n else none

abbrev pub or_else {ℓ} : {A : Type ℓ} → Option A → A → A
or_else none a = a
or_else (some b) a = b

-- A field of the schedule stored so far.
abbrev pub field {ℓ} : {A : Type ℓ} → (Schedule → A) → Option Schedule → Option A
field f none = none
field f (some s) = some (f s)

abbrev pub inner {ℓ} : {A : Type ℓ} → Option (Option A) → Option A
inner none = none
inner (some o) = o

abbrev pub is_frequency : Frequency → Bool
is_frequency hourly = true
is_frequency daily = true
is_frequency weekly = true
is_frequency monthly = true
is_frequency other = false

abbrev pub with_next : Schedule → Option ℕ → Option Schedule
with_next s none = none
with_next s (some next) = some (record s { next_run_at = some next })

-- The schedule before its next run is worked out.
abbrev pub planned : String → String → Body → Option Schedule → ℕ → ℕ → ℕ → ℕ → ℕ → Schedule
planned uuid name body existing hour minute day_of_week day_of_month full_every = record {
  vm_uuid = uuid;
  vm_name = or_else (field (λ x. x.vm_name) existing) name;
  frequency = body.frequency;
  hour = hour;
  minute = minute;
  day_of_week = day_of_week;
  day_of_month = day_of_month;
  retention_days = or_else body.retention_days (inner (field (λ x. x.retention_days) existing));
  enabled = or_else body.enabled true;
  last_run_at = inner (field (λ x. x.last_run_at) existing);
  next_run_at = none;
  last_run_status = inner (field (λ x. x.last_run_status) existing);
  last_error = inner (field (λ x. x.last_error) existing);
  mode = some (or_else body.mode (or_else (inner (field (λ x. x.mode) existing)) full));
  full_every = some full_every;
}

module _ (cal : Calendar) (now : ℕ) where
  abbrev pub from_numbers :
      String
      → String
      → Body
      → Option Schedule
      → Option ℕ
      → Option ℕ
      → Option ℕ
      → Option ℕ
      → Option ℕ
      → Option Schedule
  from_numbers uuid name body existing (some hour) (some minute) (some day_of_week)
        (some day_of_month) (some full_every) =
      let s = planned uuid name body existing hour minute day_of_week day_of_month full_every in
      with_next s (compute_next_run_at cal s now)
  from_numbers uuid name body existing none minute day_of_week day_of_month full_every = none
  from_numbers uuid name body existing (some hour) none day_of_week day_of_month full_every = none
  from_numbers uuid name body existing (some hour) (some minute) none day_of_month full_every = none
  from_numbers uuid name body existing (some hour) (some minute) (some day_of_week) none
        full_every =
      none
  from_numbers uuid name body existing (some hour) (some minute) (some day_of_week)
        (some day_of_month) none =
      none

  -- The function that `updateSchedule` is given.
  unfoldable pub build_schedule : String → String → Body → Option Schedule → Option Schedule
  build_schedule uuid name body existing =
      from_numbers uuid name body existing
        (non_negative_int body.hour 23 (or_else (field (λ x. x.hour) existing) 2))
        (non_negative_int body.minute 59 (or_else (field (λ x. x.minute) existing) 0))
        (non_negative_int body.day_of_week 6 (or_else (field (λ x. x.day_of_week) existing) 1))
        (positive_int body.day_of_month 28 (or_else (field (λ x. x.day_of_month) existing) 1))
        (positive_int body.full_every 60 (or_else (inner (field (λ x. x.full_every) existing)) 7))

  -- `name` is what the host calls the VM.
  unfoldable pub put_schedule : Bool → String → String → Body → File → Written
  put_schedule writes uuid name body file =
      if is_frequency body.frequency
      then update_schedule writes uuid (build_schedule uuid name body) file
      else refused file
