-- ===== src/Backup/Schedule/Files.antt =====
-- Lookups, deletions and ticks on a file whose schedules are sound.
use virt_pilot.Common.{
  ℕ, Bool, true, false, some, List, [], ◌∷◌, ◌++◌, All, if◌then◌else◌, String, same,
}
use virt_pilot.Backup.Schedule.Types.{Schedule}
use virt_pilot.Backup.Schedule.Store.{
  Schedules, File, missing, corrupt, stored, read_schedules, schedule_of, without_schedule,
  delete_schedule,
}
use virt_pilot.Backup.Schedule.Run.{is_due, due_among, tick}
use virt_pilot.Backup.Schedule.Laws.{
  IsSound, AllSound, FileSound, OptionSound, write_schedules-FileSound,
}

abbrev pub AllDue : List Schedule → Type 0
AllDue ss = All IsSound ss

pub schedule_of-OptionSound :
    (uuid : String) (all : Schedules) → AllSound all → OptionSound (schedule_of uuid all)
unfolding schedule_of
schedule_of-OptionSound uuid [] h = tt
schedule_of-OptionSound uuid ((u, s) ∷ all) h =
    elim (same u uuid) as (λ b. OptionSound (if b then some s else schedule_of uuid all)) [
      | true ↦ h.0
      | false ↦ schedule_of-OptionSound uuid all h.1
    ]

pub without_schedule-AllSound :
    (uuid : String) (all : Schedules) → AllSound all → AllSound (without_schedule uuid all)
unfolding without_schedule
without_schedule-AllSound uuid [] h = tt
without_schedule-AllSound uuid ((u, s) ∷ all) h =
    elim (same u uuid)
      as (λ b.
        AllSound (if b then without_schedule uuid all else (u, s) ∷ without_schedule uuid all)) [
          | true ↦ without_schedule-AllSound uuid all h.1
          | false ↦ (h.0, without_schedule-AllSound uuid all h.1)
        ]

pub delete_schedule-FileSound :
    (writes : Bool) (uuid : String) (file : File)
    → FileSound file
    → FileSound (delete_schedule writes uuid file).file
unfolding delete_schedule read_schedules
delete_schedule-FileSound writes uuid missing h =
    write_schedules-FileSound writes missing _ tt (without_schedule-AllSound uuid [] tt)
delete_schedule-FileSound writes uuid corrupt h = tt
delete_schedule-FileSound writes uuid (stored all) h =
    write_schedules-FileSound writes (stored all) _ h (without_schedule-AllSound uuid all h)

pub due_among-AllDue : (all : Schedules) (now : ℕ) → AllSound all → AllDue (due_among all now)
due_among-AllDue [] now h = tt
due_among-AllDue ((u, s) ∷ all) now h =
    elim (is_due s now) as (λ b. AllDue (if b then s ∷ due_among all now else due_among all now)) [
      | true ↦ (h.0, due_among-AllDue all now h.1)
      | false ↦ due_among-AllDue all now h.1
    ]

pub tick-AllDue : (file : File) (now : ℕ) → FileSound file → AllDue (tick file now)
unfolding tick read_schedules
tick-AllDue missing now h = tt
tick-AllDue corrupt now h = tt
tick-AllDue (stored all) now h = due_among-AllDue all now h

pub All-append : (xs ys : List Schedule) → AllDue xs → AllDue ys → AllDue (xs ++ ys)
All-append [] ys h k = k
All-append (x ∷ xs) ys h k = (h.0, All-append xs ys h.1 k)

-- A list without one of its elements.
pub All-take_out :
    (xs : List Schedule) (s : Schedule) (ys : List Schedule)
    → AllDue (xs ++ (s ∷ ys))
    → IsSound s × AllDue (xs ++ ys)
All-take_out [] s ys h = h
All-take_out (x ∷ xs) s ys h = let (one, rest) = All-take_out xs s ys h.1 in (one, (h.0, rest))
