-- ===== src/Backup/Schedule/Run.antt =====
-- packages/backend/src/services/backupSchedulerService.ts. A run holds the schedule that its tick read; whether a write of the
-- file succeeds is an argument.
use virt_pilot.Common.{
  ℕ, Bool, false, not, ◌&&◌, Option, none, some, List, [], ◌∷◌, if◌then◌else◌, leb, ltb, String,
}
use virt_pilot.Backup.Schedule.Types.{Schedule, RunStatus}
use virt_pilot.Backup.Schedule.Next.{Calendar, compute_next_run_at}
use virt_pilot.Backup.Schedule.Store.{
  Schedules, File, Written, read_schedules, schedule_of, save_schedule,
}

abbrev pub has_come : Option ℕ → ℕ → Bool
has_come none now = false
has_come (some at) now = not (ltb now at)

unfoldable pub is_due : Schedule → ℕ → Bool
is_due s now = s.enabled && has_come s.next_run_at now

abbrev pub due_among : Schedules → ℕ → List Schedule
due_among [] now = []
due_among ((uuid, s) ∷ all) now = if is_due s now then s ∷ due_among all now else due_among all now

abbrev pub due_in : Option Schedules → ℕ → List Schedule
due_in none now = []
due_in (some all) now = due_among all now

-- The runs that a tick starts.
unfoldable pub tick : File → ℕ → List Schedule
tick file now = due_in (read_schedules file) now

-- `runScheduledBackup` up to its backup: whether it goes on to make one, and its write.
pub record Start : Type 0 where
  pub backs_up : Bool
  pub written : Written

abbrev pub disable : Bool → Schedule → File → Start
disable writes s file = record {
  backs_up = false;
  written = save_schedule writes (record s { enabled = false; next_run_at = none }) file;
}

abbrev pub moved : Schedule → ℕ → ℕ → Schedule
moved s now next = record s { last_run_at = some now; next_run_at = some next }

abbrev pub move : Bool → Schedule → ℕ → ℕ → File → Start
move writes s now next file =
    let written = save_schedule writes (moved s now next) file in
    record { backs_up = written.returned; written = written }

abbrev pub start_at : Bool → Schedule → ℕ → File → Option ℕ → Start
start_at writes s now file none = disable writes s file
start_at writes s now file (some next) =
    if leb next now then disable writes s file else move writes s now next file

unfoldable pub start_run : Calendar → Bool → Schedule → ℕ → File → Start
start_run cal writes s now file = start_at writes s now file (compute_next_run_at cal s now)

abbrev pub with_outcome : RunStatus → Option String → Schedule → Schedule
with_outcome status message s = record s { last_run_status = some status; last_error = message }

abbrev pub outcome_of : RunStatus → Option String → Option Schedule → Option Schedule
outcome_of status message none = none
outcome_of status message (some s) = some (with_outcome status message s)

-- `recordOutcome` up to its write: the schedule that it is about to save, none for nothing to do.
unfoldable pub outcome_for : RunStatus → Option String → String → File → Option Schedule
outcome_for status message uuid file = elim (read_schedules file) [
  | none ↦ none
  | some all ↦ outcome_of status message (schedule_of uuid all)
]
