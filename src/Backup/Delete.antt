-- ===== src/Backup/Delete.antt =====
-- `deleteBackup` of backupService.ts and `collectDescendants`, which it decides by.
pub mod Push
pub mod Collect
pub mod Laws
use virt_pilot.Common.{
  ℕ, zero, suc, ◌+◌, String, Bool, true, false, Option, none, some, List, [], ◌∷◌, ◌++◌, length,
  keep, find, if◌then◌else◌, same, truthy, includes, ◌&&◌, not,
}
use virt_pilot.Backup.Types.{Entry}
use virt_pilot.Backup.Chain.{newest_first}
use virt_pilot.Backup.Disk.{Disk, remove_backup_files, drop_checkpoint_for}

abbrev pub is_child_of : String → Entry → Bool
is_child_of p b = elim (truthy b.parent_backup_id) [ none ↦ false | some q ↦ same q p ]

-- `childrenOf.get(p) ?? []`
abbrev pub children_of : List Entry → String → List Entry
children_of bs p = keep (is_child_of p) bs

-- The variables of the loop. The stack has its top at the head.
pub record Search : Type 0 where
  pub stack : List String
  pub seen : List String
  pub out : List Entry

-- The `for` loop over the children of one backup.
unfoldable pub push_children : List Entry → Search → Search
push_children [] s = s
push_children (c ∷ cs) s = push_children cs (
    if includes s.seen c.id
    then s
    else record { stack = c.id ∷ s.stack; seen = c.id ∷ s.seen; out = s.out ++ c ∷ [] })

-- The `while` loop, a round per unit of fuel.
unfoldable pub descend : List Entry → ℕ → Search → Search
unfolding push_children
descend bs zero s = s
descend bs (suc fuel) s = elim s.stack [
  | [] ↦ s
  | id ∷ rest ↦ descend bs fuel (push_children (children_of bs id) (record s { stack = rest }))
]

abbrev pub start_search : String → Search
start_search root = record { stack = root ∷ []; seen = root ∷ []; out = [] }

-- A backup is pushed once, so two rounds more than there are backups are enough.
unfoldable pub collect_descendants : List Entry → String → List Entry
unfolding descend
collect_descendants bs root = (descend bs (suc (suc (length bs))) (start_search root)).out

pub data Deletion : Type 0 where
  has_dependents : List Entry → Deletion
  deleted : Disk → Deletion

unfoldable pub remove_backup : (String → Bool) → String → Disk → Disk
unfolding remove_backup_files drop_checkpoint_for
remove_backup answers id d = drop_checkpoint_for answers id (remove_backup_files id d)

unfoldable pub remove_all : (String → Bool) → List Entry → Disk → Disk
unfolding remove_backup
remove_all answers [] d = d
remove_all answers (b ∷ bs) d = remove_all answers bs (remove_backup answers b.id d)

abbrev pub is_empty : List Entry → Bool
is_empty [] = true
is_empty (b ∷ bs) = false

-- The rest of `deleteBackup` for a backup with a manifest.
unfoldable pub delete_found : (String → Bool) → List Entry → String → Bool → Disk → Deletion
unfolding remove_all newest_first
delete_found answers descendants id cascade d =
    if not (is_empty descendants) && not cascade
    then has_dependents descendants
    else deleted (remove_backup answers id (remove_all answers (newest_first descendants) d))

unfoldable pub delete_backup : (String → Bool) → List Entry → String → Bool → Disk → Deletion
unfolding delete_found collect_descendants
delete_backup answers bs id cascade d = elim (find (λ b. same b.id id) bs) [
  | none ↦ deleted (remove_backup_files id d)
  | some target ↦ delete_found answers (collect_descendants bs id) id cascade d
]
