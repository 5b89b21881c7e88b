-- ===== src/Tests/BackupTests.antt =====
-- A VM with a full backup and two incrementals on it.
use Prim.Native.String.{String}
use virt_pilot.Common.{
  Option, ℕ, ◌≤◌, ◌<◌, ◌+◌, ◌≡◌, ◌≢◌, refl, ◌⊎◌, ◌↔◌, Bool, true, false, none, some, List, [], ◌∷◌,
  Member, here, there, All, same, truthy, find, includes, same-ne,
}
use virt_pilot.Backup.Types.{
  Manifest, Entry, full, incremental, just, auto, Scan, UnusableDir, unreadable,
}
use virt_pilot.Backup.Chain.{by_id, walk_chain, build_entries}
use virt_pilot.Backup.Chain.Intact.{IsIntact, walk_chain_iff}
use virt_pilot.Backup.Disk.{Disk}
use virt_pilot.Backup.Chain.{to_entry, is_root, parent_of}
use virt_pilot.Backup.Retention.{
  apply_retention, Outcome, pruned, refused, aborted, Peel, remove_one, is_expired, or_default,
}
use virt_pilot.Backup.Delete.{delete_backup, Deletion, has_dependents, deleted}
use virt_pilot.Backup.Delete.Push.{Has, Descends}
use virt_pilot.Backup.Delete.Laws.{
  delete_backup-only, delete_backup-orphans_none, delete_backup-refused_iff,
}
use virt_pilot.Backup.Plan.{
  Host, decide, clamp_full_every, max_full_every, count_chain_length, assess_incremental_readiness,
  not_ready, first_backup,
}
use virt_pilot.Backup.Plan.Laws.{
  IsLayered, decide-IsLayered, decide-chain_length, assess-first_backup_iff,
}
use virt_pilot.Backup.Scan.{
  InProgress, DirFacts, present, absent, failed, sweep_abandoned_backup_dirs,
  abandoned_backup_age_ms, reconcile_checkpoints, is_virtpilot_checkpoint,
}
use virt_pilot.Backup.Scan.Laws.{sweep_abandoned_backup_dirs-safe, reconcile_checkpoints-safe}
use virt_pilot.Backup.Retention.Children.{HasUniqueIds}
use virt_pilot.Backup.Retention.Exact.{IsPruned, apply_retention-IsPruned, apply_retention-refuses}

abbrev first_full : Manifest
first_full = record {
  id = "b0";
  created_at = 1000;
  kind = some full;
  parent_backup_id = none;
  checkpoint_name = some "vpbk-b0";
  chain_requested = some true;
  consistent = true;
  vm_state_at_backup = some "running";
  disks = [];
  retention_days = 1;
}

abbrev layered : String → String → ℕ → Manifest
layered id parent time = record first_full {
  id = id;
  created_at = time;
  kind = some incremental;
  parent_backup_id = some parent;
  checkpoint_name = some "vpbk-b1";
}

abbrev second : Manifest
second = layered "b1" "b0" 2000

abbrev third : Manifest
third = layered "b2" "b1" 900000000

abbrev manifests : List Manifest
manifests = first_full ∷ second ∷ third ∷ []

abbrev size : String → ℕ
size id = 10

third-found : by_id manifests third.id ≡ some third
unfolding by_id
third-found = refl

walk_chain_iff_example :
    ((walk_chain manifests size third).broken ≡ false) ↔ IsIntact manifests third
walk_chain_iff_example = walk_chain_iff manifests size third third-found

abbrev scan : Scan
scan = record { manifests = manifests; unusable = [] }

abbrev disk : Disk
disk = record { dirs = "b0" ∷ "b1" ∷ "b2" ∷ []; checkpoints = [] }

abbrev answers : String → Bool
answers name = true

abbrev backups : List Entry
backups = build_entries manifests size

-- The newest has not expired, and the two older ones are under it.
manifests-HasUniqueIds : HasUniqueIds backups
unfolding build_entries
manifests-HasUniqueIds = (
  (same-ne "b1" "b2" refl, (same-ne "b0" "b2" refl, tt)),
  ((same-ne "b0" "b1" refl, tt), (tt, tt)),
)

abbrev peel_of : Outcome → Peel
peel_of (refused l) = record { removed = []; child_count = λ x. none; disk = disk }
peel_of aborted = record { removed = []; child_count = λ _. none; disk = disk }
peel_of (pruned u) = u

abbrev outcome : Outcome
outcome = apply_retention answers scan size (some none) (some 7) 950000000 disk

outcome-pruned : outcome ≡ pruned (peel_of outcome)
unfolding apply_retention truthy remove_one
outcome-pruned = refl

outcome-removed : (peel_of outcome).removed ≡ []
unfolding apply_retention truthy remove_one
outcome-removed = refl

apply_retention-IsPruned_example :
    IsPruned
      (is_expired (or_default none 7) 950000000)
      (build_entries manifests size)
      disk
      (peel_of outcome)
apply_retention-IsPruned_example =
    apply_retention-IsPruned answers scan size none 7 950000000 disk (peel_of outcome)
      manifests-HasUniqueIds outcome-pruned

apply_retention-refuses_example :
    (((l : List UnusableDir) × (apply_retention answers scan size none (some 7) 950000000 disk
          ≡ refused l))
      ⊎ (apply_retention answers scan size none (some 7) 950000000 disk ≡ aborted))
    ↔ (((d : UnusableDir) × Member d scan.unusable × (d.why ≡ unreadable))
        ⊎ ((◌≡◌ {A = Option ℕ}) (some 7) none)
        ⊎ ((◌≡◌ {A = Option (Option ℕ)}) none none))
apply_retention-refuses_example =
    apply_retention-refuses answers scan size none (some 7) 950000000 disk

abbrev target : Entry
target = to_entry manifests size second

target-listed : find (λ b. same b.id "b1") backups ≡ some target
unfolding build_entries to_entry
target-listed = refl

abbrev disk_of : Deletion → Disk
disk_of (has_dependents l) = disk
disk_of (deleted d) = d

abbrev deletion : Deletion
deletion = delete_backup answers backups "b1" true disk

deletion-deleted : deletion ≡ deleted (disk_of deletion)
unfolding delete_backup build_entries truthy
deletion-deleted = refl

deletion-dirs : (disk_of deletion).dirs ≡ "b0" ∷ []
unfolding delete_backup build_entries truthy
deletion-dirs = refl

delete_backup-only_example :
    (includes (disk_of deletion).dirs "b1" ≡ false)
    × ((x : String)
        → Has disk.dirs x
        → includes (disk_of deletion).dirs x ≡ false
        → (x ≡ "b1") ⊎ ((b : Entry) × Descends backups "b1" b × (b.id ≡ x)))
delete_backup-only_example =
    delete_backup-only answers backups "b1" true disk (disk_of deletion) target target-listed
      deletion-deleted

abbrev deletion_of_last : Deletion
deletion_of_last = delete_backup answers backups "b2" false disk

last-deleted : deletion_of_last ≡ deleted (disk_of deletion_of_last)
unfolding delete_backup build_entries truthy
last-deleted = refl

second-listed : Member target backups
unfolding build_entries to_entry
second-listed = there here

second-parent : truthy target.parent_backup_id ≡ some "b0"
unfolding to_entry truthy
second-parent = refl

second-kept : Has (disk_of deletion_of_last).dirs target.id
unfolding delete_backup build_entries truthy to_entry
second-kept = refl

delete_backup-orphans_none_example :
    Has (disk_of deletion_of_last).dirs "b0"
    ⊎ (((◌≡◌ {A = String}) "b0" "b2") × (find (λ b. same b.id "b2") backups ≡ none))
delete_backup-orphans_none_example =
    delete_backup-orphans_none answers backups "b2" false disk (disk_of deletion_of_last)
      last-deleted target "b0" second-listed second-parent second-kept refl

delete_backup-refused_iff_example :
    ((l : List Entry) × (delete_backup answers backups "b1" false disk ≡ has_dependents l)) ↔ (
      ((listed : Entry) × (find (λ b. same b.id "b1") backups ≡ some listed))
      × ((c : Entry) × Member c backups × (truthy c.parent_backup_id ≡ some "b1") × (c.id ≢ "b1")))
delete_backup-refused_iff_example = delete_backup-refused_iff answers backups "b1" disk

abbrev host : Host
host = record {
  is_backup_supported = true;
  manifest_of = λ id. by_id manifests id;
  checkpoint_exists = λ name. true;
}

decided-incremental : (decide host backups true auto (some 7)).kind ≡ incremental
unfolding decide build_entries by_id truthy is_root parent_of
decided-incremental = refl

decide-IsLayered_example :
    (auto ≢ just full)
    × IsLayered host backups true
        (clamp_full_every (some 7))
        (decide host backups true auto (some 7))
decide-IsLayered_example = decide-IsLayered host backups true auto (some 7) decided-incremental

abbrev fourth : Entry
fourth = record target { kind = (decide host backups true auto (some 7)).kind }

decide-chain_length_example :
    (count_chain_length (fourth ∷ backups) ≤ clamp_full_every (some 7))
    × (clamp_full_every (some 7) ≤ max_full_every)
decide-chain_length_example = decide-chain_length host backups true auto (some 7) fourth refl

assess-first_backup_iff_example :
    (assess_incremental_readiness host backups true
      ≡ not_ready (count_chain_length backups) first_backup)
    ↔ ((true ≡ true) × (host.is_backup_supported ≡ true) × All (λ b. b.chain_broken ≡ true) backups)
assess-first_backup_iff_example = assess-first_backup_iff host backups true

-- One finished backup, one that was given up, and one that is being written.
abbrev dirs_found : List DirFacts
dirs_found =
    record {
      name = "b0";
      marker = present;
      manifest = some first_full;
      size_bytes = 10;
      newest_mtime_ms = 1000;
    }
    ∷ record {
      name = "b8";
      marker = absent;
      manifest = none;
      size_bytes = 4;
      newest_mtime_ms = 2000;
    }
    ∷ record {
      name = "b9";
      marker = absent;
      manifest = none;
      size_bytes = 4;
      newest_mtime_ms = 99999000;
    }
    ∷ []

abbrev nothing_runs : InProgress
nothing_runs = none

b8-swept : Member "b8" (sweep_abandoned_backup_dirs nothing_runs (some dirs_found) 100000000)
unfolding sweep_abandoned_backup_dirs
b8-swept = here

sweep_abandoned_backup_dirs-safe_example :
    (nothing_runs ≡ none)
    × ((ds : List DirFacts) × (some dirs_found ≡ some ds)
        × ((d : DirFacts) × Member d ds
            × (d.name ≡ "b8")
            × (d.marker ≡ absent)
            × (0 < d.newest_mtime_ms)
            × (d.newest_mtime_ms + abandoned_backup_age_ms ≤ 100000000)))
sweep_abandoned_backup_dirs-safe_example =
    sweep_abandoned_backup_dirs-safe nothing_runs (some dirs_found) 100000000 "b8" b8-swept

abbrev listed : List String
listed = "vpbk-b0" ∷ "vpbk-old" ∷ "mine" ∷ []

old-deleted : Member "vpbk-old" (reconcile_checkpoints none (some dirs_found) listed)
unfolding reconcile_checkpoints truthy
old-deleted = here

reconcile_checkpoints-safe_example :
    Member "vpbk-old" listed
    × (is_virtpilot_checkpoint "vpbk-old" ≡ true)
    × ((some dirs_found ≡ none)
        ⊎ ((ds : List DirFacts) × (some dirs_found ≡ some ds)
            × ((d : DirFacts) → Member d ds → d.marker ≢ failed)
            × ((d : DirFacts)
                → Member d ds
                → d.marker ≡ present
                → (m : Manifest) × (d.manifest ≡ some m)
                  × (truthy m.checkpoint_name ≢ some "vpbk-old"))))
reconcile_checkpoints-safe_example =
    reconcile_checkpoints-safe none (some dirs_found) listed "vpbk-old" old-deleted
