-- ===== src/Backup/Schedule/Store.antt =====
-- The file of the schedules. Each operation on it holds the lock from its read to its write.
use text.Mathlib.TextEquality.{eq_iff}
use virt_pilot.Common.{
  ◌≡◌, refl, Bool, true, false, Option, none, some, List, [], ◌∷◌, if◌then◌else◌, String, same,
  arith,
}
use virt_pilot.Backup.Schedule.Types.{Schedule}

abbrev pub Schedules : Type 0
Schedules = List (String × Schedule)

-- `missing` is `ENOENT`; `corrupt` whatever else cannot be read as an object.
pub data File : Type 0 where
  missing corrupt : File
  stored : Schedules → File

-- None is the `throw`.
unfoldable pub read_schedules : File → Option Schedules
read_schedules missing = some []
read_schedules corrupt = none
read_schedules (stored all) = some all

unfoldable pub read_schedules_for_display : File → Schedules
read_schedules_for_display missing = []
read_schedules_for_display corrupt = []
read_schedules_for_display (stored all) = all

-- `all[uuid]`
unfoldable pub schedule_of : String → Schedules → Option Schedule
schedule_of uuid [] = none
schedule_of uuid ((u, s) ∷ all) = if same u uuid then some s else schedule_of uuid all

-- `all[uuid] = schedule`
unfoldable pub with_schedule : String → Schedule → Schedules → Schedules
with_schedule uuid s [] = (uuid, s) ∷ []
with_schedule uuid s ((u, old) ∷ all) =
    if same u uuid then (u, s) ∷ all else (u, old) ∷ with_schedule uuid s all

-- `delete all[uuid]`
unfoldable pub without_schedule : String → Schedules → Schedules
without_schedule uuid [] = []
without_schedule uuid ((u, s) ∷ all) =
    if same u uuid then without_schedule uuid all else (u, s) ∷ without_schedule uuid all

-- Whether a call returned, and the file after it.
pub record Written : Type 0 where
  pub returned : Bool
  pub file : File

-- A write replaces the file by its rename or fails and leaves it.
unfoldable pub write_schedules : Bool → File → Schedules → Written
write_schedules true file all = record { returned = true; file = stored all }
write_schedules false file all = record { returned = false; file = file }

abbrev pub refused : File → Written
refused file = record { returned = false; file = file }

abbrev pub save_into : Bool → File → Schedule → Option Schedules → Written
save_into writes file s none = refused file
save_into writes file s (some all) = write_schedules writes file (with_schedule s.vm_uuid s all)

unfoldable pub save_schedule : Bool → Schedule → File → Written
save_schedule writes s file = save_into writes file s (read_schedules file)

abbrev pub built_into : Bool → File → String → Schedules → Option Schedule → Written
built_into writes file uuid all none = refused file
built_into writes file uuid all (some s) = write_schedules writes file (with_schedule uuid s all)

abbrev pub update_into :
    Bool → File → String → (Option Schedule → Option Schedule) → Option Schedules → Written
update_into writes file uuid build none = refused file
update_into writes file uuid build (some all) =
    built_into writes file uuid all (build (schedule_of uuid all))

-- `build` answers none where it throws.
unfoldable pub update_schedule :
    Bool → String → (Option Schedule → Option Schedule) → File → Written
update_schedule writes uuid build file = update_into writes file uuid build (read_schedules file)

abbrev pub delete_from : Bool → File → String → Option Schedules → Written
delete_from writes file uuid none = refused file
delete_from writes file uuid (some all) = write_schedules writes file (without_schedule uuid all)

unfoldable pub delete_schedule : Bool → String → File → Written
delete_schedule writes uuid file = delete_from writes file uuid (read_schedules file)

-- What a page shows for a VM.
abbrev pub shown : String → File → Option Schedule
shown uuid file = schedule_of uuid (read_schedules_for_display file)

pub schedule_of-with_schedule :
    (k uuid : String) (s : Schedule) (all : Schedules)
    → schedule_of k (with_schedule uuid s all) ≡ (if same uuid k then some s else schedule_of k all)
unfolding schedule_of with_schedule
schedule_of-with_schedule k uuid s [] = refl
schedule_of-with_schedule k uuid s ((u, old) ∷ all) =
    ground (arith, eq_iff u uuid, eq_iff u k, eq_iff uuid k, schedule_of-with_schedule k uuid s all)

pub schedule_of-without_schedule :
    (k uuid : String) (all : Schedules)
    → schedule_of k (without_schedule uuid all) ≡ (if same uuid k then none else schedule_of k all)
unfolding schedule_of without_schedule
schedule_of-without_schedule k uuid [] = ground arith
schedule_of-without_schedule k uuid ((u, s) ∷ all) =
    ground
      (arith, eq_iff u uuid, eq_iff u k, eq_iff uuid k, schedule_of-without_schedule k uuid all)
