-- ===== src/Backup/Retention.antt =====
-- `applyRetention` of backupService.ts: expired backups are peeled off from the leaves.
pub mod Steps
pub mod Loop
pub mod Children
pub mod Exact
use virt_pilot.Common.{
  ℕ, zero, suc, ◌+◌, ◌-◌, ◌*◌, String, Bool, true, false, not, Option, none, some, List, [], ◌∷◌,
  length, keep, ltb, ◌==◌, if◌then◌else◌, same, truthy, includes, ◌||◌,
}
use virt_pilot.Backup.Types.{Entry, UnusableDir, Scan, Why, unreadable, incomplete}
use virt_pilot.Backup.Chain.{build_entries}
use virt_pilot.Backup.Disk.{Disk, remove_backup_files, drop_checkpoint_for}

abbrev pub day_ms : ℕ
day_ms = 24 * 60 * 60 * 1000

-- The days after which a backup expires; 0 is never. A time before the epoch is 0 here, and no
-- backup is older than either.
unfoldable pub is_expired : ℕ → ℕ → Entry → Bool
is_expired global_retention now b =
    let days = if ltb 0 b.retention_days then b.retention_days else global_retention in
    if days == 0 then false else ltb b.created_at (now - days * day_ms)

-- `childCount`, a `Map<string, number>`.
abbrev pub Counts : Type 0
Counts = String → Option ℕ

abbrev pub or_default : Option ℕ → ℕ → ℕ
or_default none d = d
or_default (some n) d = n

abbrev pub set_count : Counts → String → ℕ → Counts
set_count counts p n x = if same p x then some n else counts x

unfoldable pub count_children : Counts → List Entry → Counts
count_children counts [] = counts
count_children counts (b ∷ bs) = elim (truthy b.parent_backup_id) [
  | none ↦ count_children counts bs
  | some p ↦ count_children (set_count counts p (or_default (counts p) 0 + 1)) bs
]

pub record Peel : Type 0 where
  pub removed : List String
  pub child_count : Counts
  pub disk : Disk

-- The body of the inner loop past its three tests.
unfoldable pub remove_one : (String → Bool) → Entry → Peel → Peel
unfolding remove_backup_files drop_checkpoint_for
remove_one answers b s = record {
  removed = b.id ∷ s.removed;
  child_count = elim (truthy b.parent_backup_id) [
    | none ↦ s.child_count
    | some p ↦ set_count s.child_count p (or_default (s.child_count p) 1 - 1)
  ];
  disk = drop_checkpoint_for answers b.id (remove_backup_files b.id s.disk);
}

module _ (answers : String → Bool) (expired : Entry → Bool) where
  -- One round of the inner loop, with what it makes of `progress`.
  unfoldable pub visit : Entry → Peel → Peel × Bool
  visit b s =
      if includes s.removed b.id
      then (s, false)
      else if ltb 0 (or_default (s.child_count b.id) 0)
      then (s, false)
      else if not (expired b)
      then (s, false)
      else (remove_one answers b s, true)

  unfoldable pub pass : List Entry → Peel → Peel × Bool
  unfolding visit
  pass [] s = (s, false)
  pass (b ∷ bs) s = let (s', p) = visit b s in let (s'', q) = pass bs s' in (s'', p || q)

  -- The `while (progress)` loop, a pass per unit of fuel.
  unfoldable pub peel : ℕ → List Entry → Peel → Peel
  unfolding pass
  peel zero bs s = s
  peel (suc fuel) bs s =
      let rest = peel fuel bs (pass bs s).0 in if (pass bs s).1 then rest else (pass bs s).0

pub data Outcome : Type 0 where
  refused : List UnusableDir → Outcome
  aborted : Outcome
  pruned : Peel → Outcome

abbrev pub is_unreadable : UnusableDir → Bool
is_unreadable u = elim u.why [ incomplete ↦ false | unreadable ↦ true ]

unfoldable pub start_peel : List Entry → Disk → Peel
unfolding count_children
start_peel bs disk = record {
  removed = [];
  child_count = count_children (λ _. none) bs;
  disk = disk;
}

abbrev pub refuse_or : List UnusableDir → Outcome → Outcome
refuse_or [] next = next
refuse_or (d ∷ ds) next = refused (d ∷ ds)

-- The two reads after the scan, either of which may throw.
abbrev pub read_retention : Option ℕ → Option (Option ℕ) → Option ℕ
read_retention none schedules = none
read_retention (some days) none = none
read_retention (some days) (some schedule) = some (or_default schedule days)

-- A pass removes a backup in each round of the `while` but the last, so one round more than there are backups is
-- enough.
unfoldable pub peel_from : (String → Bool) → ℕ → List Entry → Disk → ℕ → Peel
unfolding peel start_peel is_expired
peel_from answers now backups disk global =
    peel answers (is_expired global now) (suc (length backups)) backups (start_peel backups disk)

abbrev pub prune_or_abort : (ℕ → Peel) → Option ℕ → Outcome
prune_or_abort run none = aborted
prune_or_abort run (some global) = pruned (run global)

-- `schedules` is what `readSchedules` gives for the VM and `settings` the days of `getUserSettings`, each `none`
-- where the read throws.
unfoldable pub apply_retention :
    (String → Bool) → Scan → (String → ℕ) → Option (Option ℕ) → Option ℕ → ℕ → Disk → Outcome
unfolding peel_from build_entries
apply_retention answers scan size schedules settings now disk =
    let backups = build_entries scan.manifests size in
    refuse_or (keep is_unreadable scan.unusable)
      (prune_or_abort (peel_from answers now backups disk) (read_retention settings schedules))
