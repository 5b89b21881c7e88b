-- ===== src/Tests/ScheduleTests.antt =====
-- A daily schedule at 02:30, in a calendar of months of thirty days.
use virt_pilot.Common.{
  ℕ, ◌+◌, ◌*◌, ◌/◌, ◌≤◌, ◌<◌, ◌≡◌, refl, true, false, none, some, [], ◌++◌, if◌then◌else◌, String,
  same, Member, here, arith,
}
use virt_pilot.Backup.Schedule.Types.{Schedule, daily, full, IsTimely}
use virt_pilot.Backup.Schedule.Next.{Calendar, compute_next_run_at}
use virt_pilot.Backup.Schedule.NextLaws.{period, Falls, compute_next_run_at-Good}
use virt_pilot.Backup.Schedule.Store.{
  missing, corrupt, shown, update_schedule, with_schedule, write_schedules, read_schedules,
  schedule_of,
}
use virt_pilot.Backup.Schedule.Put.{Body, left_out, number, put_schedule, build_schedule}
use virt_pilot.Backup.Schedule.Run.{is_due, tick, start_run, moved}
use virt_pilot.Backup.Schedule.Reach.{
  Host, Step, empty_host, put_one, ticks, Reached, empty, next, HostSound, Reached-HostSound,
}
use virt_pilot.Backup.Schedule.Started.{IsReadable, start_run-Reached, Step-corrupt}

starts : (d : ℕ) → d / 30 * 30 ≤ d
starts d = omega arith

ends : (d : ℕ) → d < (d / 30 + 1) * 30
ends d = omega arith

shortest : (k : ℕ) → k * 30 + 28 ≤ (k + 1) * 30
shortest k = omega arith

longest : (k : ℕ) → (k + 1) * 30 ≤ k * 30 + 31
longest k = omega arith

month_unique : (k d : ℕ) → k * 30 ≤ d → d < (k + 1) * 30 → d / 30 ≡ k
month_unique k d h l = omega arith

abbrev thirty : Calendar
thirty = record {
  month_of = λ d. d / 30;
  first_day = λ k. k * 30;
  starts = starts;
  ends = ends;
  shortest = shortest;
  longest = longest;
  month_unique = month_unique;
}

abbrev body : Body
body = record {
  frequency = daily;
  hour = number 2;
  minute = number 30;
  day_of_week = left_out;
  day_of_month = left_out;
  retention_days = none;
  enabled = none;
  mode = none;
  full_every = left_out;
}

abbrev nightly : Schedule
nightly = record {
  vm_uuid = "a";
  vm_name = "vm";
  frequency = daily;
  hour = 2;
  minute = 30;
  day_of_week = 1;
  day_of_month = 1;
  retention_days = none;
  enabled = true;
  last_run_at = none;
  next_run_at = some 9000000;
  last_run_status = none;
  last_error = none;
  mode = some full;
  full_every = some 7;
}

nightly-IsTimely : IsTimely nightly
nightly-IsTimely = omega arith

compute_next_run_at-Good_example :
    (9000000 < 95400000) × (95400000 ≤ 9000000 + period daily) × Falls thirty daily nightly 95400000
unfolding compute_next_run_at
compute_next_run_at-Good_example =
    compute_next_run_at-Good thirty nightly 9000000 95400000 nightly-IsTimely refl

abbrev put_step :
    Step thirty empty_host
      (record empty_host { file = (put_schedule thirty 0 true "a" "vm" body missing).file })
put_step = put_one empty_host 0 true "a" "vm" body

abbrev put_host : Host
put_host = record empty_host { file = (put_schedule thirty 0 true "a" "vm" body missing).file }

abbrev due_host : Host
due_host = record put_host { due = tick put_host.file 9000000 ++ [] }

due_host-Reached : Reached thirty due_host
due_host-Reached = next (next empty put_step) (ticks put_host 9000000)

Reached-HostSound_example : HostSound due_host
Reached-HostSound_example = Reached-HostSound thirty due_host due_host-Reached

now_due : Member nightly due_host.due
unfolding tick put_schedule update_schedule build_schedule compute_next_run_at with_schedule
    write_schedules read_schedules schedule_of is_due
now_due = here

readable : IsReadable due_host.file
unfolding put_schedule update_schedule build_schedule compute_next_run_at with_schedule
    write_schedules read_schedules schedule_of
readable = tt

start_run-Reached_example :
    (at : ℕ) × (9000000 < at)
    × (at ≤ 9000000 + period daily)
    × ((start_run thirty true nightly 9000000 due_host.file).backs_up ≡ true)
    × ((k : String)
        → shown k (start_run thirty true nightly 9000000 due_host.file).written.file
          ≡ (if same "a" k then some (moved nightly 9000000 at) else shown k due_host.file))
    × ((t : ℕ) → t < at → is_due (moved nightly 9000000 at) t ≡ false)
start_run-Reached_example =
    start_run-Reached thirty due_host nightly 9000000 due_host-Reached now_due readable

abbrev corrupt_host : Host
corrupt_host = record { file = corrupt; due = []; ended = [] }

Step-corrupt_example : (put_schedule thirty 0 true "a" "vm" body corrupt).file ≡ corrupt
Step-corrupt_example = Step-corrupt thirty (put_one corrupt_host 0 true "a" "vm" body) refl
