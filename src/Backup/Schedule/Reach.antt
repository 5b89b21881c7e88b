-- ===== src/Backup/Schedule/Reach.antt =====
-- The steps of the server on the schedules, in any order, and what every state that they reach holds.
use virt_pilot.Common.{
  ℕ, ◌≡◌, refl, sym, subst, inl, inr, Bool, true, false, Option, none, some, List, [], ◌∷◌, ◌++◌,
  if◌then◌else◌, leb, Bool-cases, Option-cases, String, arith,
}
use virt_pilot.Backup.Schedule.Types.{Schedule, RunStatus}
use virt_pilot.Backup.Schedule.Next.{Calendar, compute_next_run_at}
use virt_pilot.Backup.Schedule.Store.{
  Schedules, File, missing, corrupt, stored, read_schedules, schedule_of, save_schedule,
  update_schedule, delete_schedule, built_into, refused,
}
use virt_pilot.Backup.Schedule.Put.{Body, is_frequency, build_schedule, put_schedule}
use virt_pilot.Backup.Schedule.Run.{
  tick, start_run, start_at, moved, disable, move, with_outcome, outcome_of, outcome_for,
}
use virt_pilot.Backup.Schedule.Laws.{
  IsSound, AllSound, FileSound, OptionSound, with_schedule-AllSound, write_schedules-FileSound,
  save_schedule-FileSound, build_schedule-IsSound, resound,
}
use virt_pilot.Backup.Schedule.Files.{
  AllDue, schedule_of-OptionSound, delete_schedule-FileSound, tick-AllDue, All-append, All-take_out,
}

-- The file, the schedules of the runs that a tick has started and that have not been marked, and those that `recordOutcome` is about to save.
pub record Host : Type 0 where
  pub file : File
  pub due : List Schedule
  pub ended : List Schedule

abbrev pub empty_host : Host
empty_host = record { file = missing; due = []; ended = [] }

module _ (cal : Calendar) where
  pub data Step : Host → Host → Type 0 where
    put_one :
        (h : Host) (now : ℕ) (writes : Bool) (uuid name : String) (body : Body)
        → Step h (record h { file = (put_schedule cal now writes uuid name body h.file).file })
    delete_one :
        (h : Host) (writes : Bool) (uuid : String)
        → Step h (record h { file = (delete_schedule writes uuid h.file).file })
    ticks : (h : Host) (now : ℕ) → Step h (record h { due = tick h.file now ++ h.due })
    starts :
        (h : Host) (now : ℕ) (writes : Bool) (s : Schedule) (before after : List Schedule)
        → h.due ≡ before ++ (s ∷ after)
        → Step h (record h {
          file = (start_run cal writes s now h.file).written.file;
          due = before ++ after;
        })
    ends :
        (h : Host) (status : RunStatus) (message : Option String) (uuid : String) (s : Schedule)
        → outcome_for status message uuid h.file ≡ some s
        → Step h (record h { ended = s ∷ h.ended })
    records :
        (h : Host) (writes : Bool) (s : Schedule) (before after : List Schedule)
        → h.ended ≡ before ++ (s ∷ after)
        → Step h (record h { file = (save_schedule writes s h.file).file; ended = before ++ after })

  pub data Reached : Host → Type 0 where
    empty : Reached empty_host
    next : {h k : Host} → Reached h → Step h k → Reached k

pub record HostSound (h : Host) : Type 0 where
  pub file_sound : FileSound h.file
  pub due_sound : AllDue h.due
  pub ended_sound : AllDue h.ended

module _ (cal : Calendar) where
  built-FileSound :
      (writes : Bool) (uuid : String) (build : Option Schedule → Option Schedule) (file : File)
      (all : Schedules)
      → ((old : Option Schedule) (s : Schedule) → OptionSound old → build old ≡ some s → IsSound s)
      → FileSound file
      → AllSound all
      → FileSound (built_into writes file uuid all (build (schedule_of uuid all))).file
  built-FileSound writes uuid build file all sound h k =
      elim (Option-cases (build (schedule_of uuid all))) [
        | inl e ↦ subst (λ o. FileSound (built_into writes file uuid all o).file) (sym e) h
        | inr (s, e) ↦
            subst (λ o. FileSound (built_into writes file uuid all o).file) (sym e)
              (write_schedules-FileSound writes file _ h (
                with_schedule-AllSound uuid s all
                  (sound (schedule_of uuid all) s (schedule_of-OptionSound uuid all k) e) k))
      ]

  update_schedule-FileSound :
      (writes : Bool) (uuid : String) (build : Option Schedule → Option Schedule) (file : File)
      → ((old : Option Schedule) (s : Schedule) → OptionSound old → build old ≡ some s → IsSound s)
      → FileSound file
      → FileSound (update_schedule writes uuid build file).file
  unfolding update_schedule read_schedules
  update_schedule-FileSound writes uuid build missing sound h =
      built-FileSound writes uuid build missing [] sound tt tt
  update_schedule-FileSound writes uuid build corrupt sound h = tt
  update_schedule-FileSound writes uuid build (stored all) sound h =
      built-FileSound writes uuid build (stored all) all sound h h

  put_schedule-FileSound :
      (now : ℕ) (writes : Bool) (uuid name : String) (body : Body) (file : File)
      → FileSound file
      → FileSound (put_schedule cal now writes uuid name body file).file
  unfolding put_schedule
  put_schedule-FileSound now writes uuid name body file h =
      elim (Bool-cases (is_frequency body.frequency)) [
        | inl e ↦
            subst
              (λ b.
                FileSound
                  (if b
                    then update_schedule writes uuid (build_schedule cal now uuid name body) file
                    else refused file).file)
              (sym e)
              (update_schedule-FileSound writes uuid (build_schedule cal now uuid name body) file
                (λ old s v e'. build_schedule-IsSound cal now uuid name body old s e v e') h)
        | inr e ↦
            subst
              (λ b.
                FileSound
                  (if b
                    then update_schedule writes uuid (build_schedule cal now uuid name body) file
                    else refused file).file)
              (sym e) h
      ]

  start_at-FileSound :
      (writes : Bool) (s : Schedule) (now : ℕ) (file : File) (o : Option ℕ)
      → IsSound s
      → FileSound file
      → FileSound (start_at writes s now file o).written.file
  start_at-FileSound writes s now file none v h =
      save_schedule-FileSound writes _ file
        (resound s (record s { enabled = false; next_run_at = none }) refl refl refl refl refl v) h
  start_at-FileSound writes s now file (some at) v h =
      elim (leb at now)
        as (λ b.
          FileSound (if b then disable writes s file else move writes s now at file).written.file) [
            | true ↦
                save_schedule-FileSound writes _ file
                  (resound s (record s { enabled = false; next_run_at = none }) refl refl refl refl
                    refl v)
                  h
            | false ↦
                save_schedule-FileSound writes _ file
                  (resound s (moved s now at) refl refl refl refl refl v) h
          ]

  start_run-FileSound :
      (writes : Bool) (s : Schedule) (now : ℕ) (file : File)
      → IsSound s
      → FileSound file
      → FileSound (start_run cal writes s now file).written.file
  unfolding start_run
  start_run-FileSound writes s now file v h =
      start_at-FileSound writes s now file (compute_next_run_at cal s now) v h

  outcome_of-IsSound :
      (status : RunStatus) (message : Option String) (o : Option Schedule) (s : Schedule)
      → OptionSound o
      → outcome_of status message o ≡ some s
      → IsSound s
  outcome_of-IsSound status message none s h e = absurd (ground (arith, e))
  outcome_of-IsSound status message (some old) s h e =
      subst OptionSound e (resound old (with_outcome status message old) refl refl refl refl refl h)

  outcome_for-IsSound :
      (status : RunStatus) (message : Option String) (uuid : String) (file : File) (s : Schedule)
      → FileSound file
      → outcome_for status message uuid file ≡ some s
      → IsSound s
  unfolding outcome_for read_schedules schedule_of
  outcome_for-IsSound status message uuid missing s h e =
      outcome_of-IsSound status message none s tt e
  outcome_for-IsSound status message uuid corrupt s h e = absurd (ground (arith, e))
  outcome_for-IsSound status message uuid (stored all) s h e =
      outcome_of-IsSound status message (schedule_of uuid all) s
        (schedule_of-OptionSound uuid all h) e

  Step-HostSound : {h k : Host} → Step cal h k → HostSound h → HostSound k
  Step-HostSound (put_one h now writes uuid name body) v = record {
    file_sound = put_schedule-FileSound now writes uuid name body h.file v.file_sound;
    due_sound = v.due_sound;
    ended_sound = v.ended_sound;
  }
  Step-HostSound (delete_one h writes uuid) v = record {
    file_sound = delete_schedule-FileSound writes uuid h.file v.file_sound;
    due_sound = v.due_sound;
    ended_sound = v.ended_sound;
  }
  Step-HostSound (ticks h now) v = record {
    file_sound = v.file_sound;
    due_sound =
        All-append (tick h.file now) h.due (tick-AllDue h.file now v.file_sound) v.due_sound;
    ended_sound = v.ended_sound;
  }
  Step-HostSound (starts h now writes s before after e) v =
      let (one, rest) = All-take_out before s after (subst AllDue e v.due_sound) in
      record {
        file_sound = start_run-FileSound writes s now h.file one v.file_sound;
        due_sound = rest;
        ended_sound = v.ended_sound;
      }
  Step-HostSound (ends h status message uuid s e) v = record {
    file_sound = v.file_sound;
    due_sound = v.due_sound;
    ended_sound = (outcome_for-IsSound status message uuid h.file s v.file_sound e, v.ended_sound);
  }
  Step-HostSound (records h writes s before after e) v =
      let (one, rest) = All-take_out before s after (subst AllDue e v.ended_sound) in
      record {
        file_sound = save_schedule-FileSound writes s h.file one v.file_sound;
        due_sound = v.due_sound;
        ended_sound = rest;
      }

  -- In every state that saves, deletions, ticks, runs and their outcomes reach in any order, each schedule in the file and each that a run holds has a known frequency, an hour, minute and weekday in range, and a day of the month from 1 to 28.
  pub Reached-HostSound : (h : Host) → Reached cal h → HostSound h
  Reached-HostSound h empty = record { file_sound = tt; due_sound = tt; ended_sound = tt }
  Reached-HostSound k (next r st) = Step-HostSound st (Reached-HostSound _ r)
