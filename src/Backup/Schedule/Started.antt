-- ===== src/Backup/Schedule/Started.antt =====
-- What a run does to the schedule that it was started with, and what a file that cannot be read is left as.
use virt_pilot.Common.{
  ℕ, ◌+◌, ◌≤◌, ◌<◌, ◌≡◌, refl, ap, ◌∙◌, inl, inr, Bool, true, false, Option, none, some, [],
  if◌then◌else◌, leb, Bool-cases, String, same, Member, All-at, arith,
}
use virt_pilot.Backup.Schedule.Types.{Schedule, Frequency, hourly, daily, weekly, monthly, other}
use virt_pilot.Backup.Schedule.Next.{Calendar, compute_next_run_at, next_for}
use virt_pilot.Backup.Schedule.NextLaws.{period, compute_next_run_at-Good}
use virt_pilot.Backup.Schedule.Store.{
  File, missing, corrupt, stored, read_schedules, read_schedules_for_display, write_schedules,
  save_schedule, update_schedule, delete_schedule, shown, schedule_of-with_schedule,
}
use virt_pilot.Backup.Schedule.Put.{Body, is_frequency, put_schedule}
use virt_pilot.Backup.Schedule.Run.{is_due, start_run, start_at, moved, move, disable}
use virt_pilot.Backup.Schedule.Laws.{IsSound}
use virt_pilot.Backup.Schedule.Reach.{
  Host, Step, put_one, delete_one, ticks, starts, ends, records, Reached, Reached-HostSound,
}

abbrev pub IsReadable : File → Type 0
IsReadable missing = Unit {0}
IsReadable corrupt = ⊥
IsReadable (stored all) = Unit {0}

shown-save_schedule :
    (k : String) (s : Schedule) (file : File)
    → IsReadable file
    → shown k (save_schedule true s file).file ≡ (if same s.vm_uuid k then some s else shown k file)
unfolding save_schedule read_schedules read_schedules_for_display write_schedules
shown-save_schedule k s missing h = schedule_of-with_schedule k s.vm_uuid s []
shown-save_schedule k s corrupt h = absurd h
shown-save_schedule k s (stored all) h = schedule_of-with_schedule k s.vm_uuid s all

save_schedule-returned :
    (s : Schedule) (file : File) → IsReadable file → (save_schedule true s file).returned ≡ true
unfolding save_schedule read_schedules write_schedules
save_schedule-returned s missing h = refl
save_schedule-returned s corrupt h = absurd h
save_schedule-returned s (stored all) h = refl

module _ (cal : Calendar) where
  next_known :
      (s : Schedule) (now : ℕ) → IsSound s → (at : ℕ) × (compute_next_run_at cal s now ≡ some at)
  unfolding compute_next_run_at
  next_known s now v = known_for s.frequency v.known
    where
      known_for :
          (f : Frequency) → is_frequency f ≡ true → (at : ℕ) × (next_for cal f s now ≡ some at)
      known_for hourly k = (_, refl)
      known_for daily k = (_, refl)
      known_for weekly k = (_, refl)
      known_for monthly k = (_, refl)
      known_for other k = absurd (ground (arith, k))

  start_run-moves :
      (s : Schedule) (now at : ℕ) (file : File)
      → compute_next_run_at cal s now ≡ some at
      → now < at
      → start_run cal true s now file ≡ move true s now at file
  unfolding start_run
  start_run-moves s now at file e later =
      let in_time : leb at now ≡ false = ground (arith, later) in
      ap (start_at true s now file) e
      ∙ ap (λ b. if b then disable true s file else move true s now at file) in_time

  not_due : (s : Schedule) (now at t : ℕ) → t < at → is_due (moved s now at) t ≡ false
  unfolding is_due
  not_due s now at t h = ground (arith, h)

  -- In every reached state with a readable file, a run that a tick has started with a schedule makes its backup once its write succeeds. The file then holds, under the schedule's VM, that schedule as the tick read it, whatever was stored there since, with a next run that lies in the future, at most one period away, and before which it is not due; every other VM keeps its schedule.
  pub start_run-Reached :
      (h : Host) (s : Schedule) (now : ℕ)
      → Reached cal h
      → Member s h.due
      → IsReadable h.file
      → (at : ℕ) × (now < at)
        × (at ≤ now + period s.frequency)
        × ((start_run cal true s now h.file).backs_up ≡ true)
        × ((k : String)
            → shown k (start_run cal true s now h.file).written.file
              ≡ (if same s.vm_uuid k then some (moved s now at) else shown k h.file))
        × ((t : ℕ) → t < at → is_due (moved s now at) t ≡ false)
  start_run-Reached h s now r m readable =
      let v = All-at IsSound m (Reached-HostSound cal h r).due_sound in
      let (at, e) = next_known s now v in
      let good = compute_next_run_at-Good cal s now at v.timely e in
      let moves = start_run-moves s now at h.file e good.0 in
      (
        at,
        good.0,
        good.1,
        ap (λ x. x.backs_up) moves ∙ save_schedule-returned (moved s now at) h.file readable,
        λ k.
            ap (λ x. shown k x.written.file) moves
            ∙ shown-save_schedule k (moved s now at) h.file readable,
        λ t. not_due s now at t,
      )

  save_schedule-corrupt :
      (writes : Bool) (s : Schedule) → (save_schedule writes s corrupt).file ≡ corrupt
  unfolding save_schedule read_schedules
  save_schedule-corrupt writes s = refl

  start_run-corrupt :
      (writes : Bool) (s : Schedule) (now : ℕ) (o : Option ℕ)
      → (start_at writes s now corrupt o).written.file ≡ corrupt
  start_run-corrupt writes s now none = save_schedule-corrupt writes _
  start_run-corrupt writes s now (some at) =
      elim (leb at now)
        as (λ b.
          (if b then disable writes s corrupt else move writes s now at corrupt).written.file
          ≡ corrupt) [
            | true ↦ save_schedule-corrupt writes _
            | false ↦ save_schedule-corrupt writes _
          ]

  put_schedule-corrupt :
      (now : ℕ) (writes : Bool) (uuid name : String) (body : Body)
      → (put_schedule cal now writes uuid name body corrupt).file ≡ corrupt
  unfolding put_schedule update_schedule read_schedules
  put_schedule-corrupt now writes uuid name body = elim (Bool-cases (is_frequency body.frequency)) [
    | inl e ↦ rw e
    | inr e ↦ rw e
  ]

  -- No step changes a file that is there and cannot be read.
  pub Step-corrupt : {h k : Host} → Step cal h k → h.file ≡ corrupt → k.file ≡ corrupt
  unfolding delete_schedule read_schedules start_run
  Step-corrupt (put_one h now writes uuid name body) e =
      ap (λ f. (put_schedule cal now writes uuid name body f).file) e
      ∙ put_schedule-corrupt now writes uuid name body
  Step-corrupt (delete_one h writes uuid) e = ap (λ f. (delete_schedule writes uuid f).file) e
  Step-corrupt (ticks h now) e = e
  Step-corrupt (starts h now writes s before after _) e =
      ap (λ f. (start_run cal writes s now f).written.file) e
      ∙ start_run-corrupt writes s now (compute_next_run_at cal s now)
  Step-corrupt (ends h status message uuid s _) e = e
  Step-corrupt (records h writes s before after _) e =
      ap (λ f. (save_schedule writes s f).file) e ∙ save_schedule-corrupt writes s
