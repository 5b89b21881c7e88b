-- ===== src/Backup/Schedule/Types.antt =====
-- `BackupSchedule` and its parts. A time is milliseconds since the epoch.
use virt_pilot.Common.{ℕ, ◌≤◌, Bool, Option, String}

-- `other` is any text that a stored schedule has and this version does not know.
pub data Frequency : Type 0 where
  hourly daily weekly monthly other : Frequency

pub data RunStatus : Type 0 where
  success error : RunStatus

pub data ScheduleMode : Type 0 where
  full incremental : ScheduleMode

pub record Schedule : Type 0 where
  pub vm_uuid : String
  pub vm_name : String
  pub frequency : Frequency
  pub hour : ℕ
  pub minute : ℕ
  pub day_of_week : ℕ
  pub day_of_month : ℕ
  pub retention_days : Option ℕ
  pub enabled : Bool
  pub last_run_at : Option ℕ
  pub next_run_at : Option ℕ
  pub last_run_status : Option RunStatus
  pub last_error : Option String
  pub mode : Option ScheduleMode
  pub full_every : Option ℕ

-- The numbers of a schedule are those of a clock and a short month.
pub record IsTimely (s : Schedule) : Type 0 where
  pub hour_small : s.hour ≤ 23
  pub minute_small : s.minute ≤ 59
  pub week_small : s.day_of_week ≤ 6
  pub month_positive : 1 ≤ s.day_of_month
  pub month_small : s.day_of_month ≤ 28
