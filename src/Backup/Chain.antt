-- ===== src/Backup/Chain.antt =====
-- The chain of an incremental backup: `walkChain` and the listing of backupService.ts.
pub mod Intact
use virt_pilot.Common.{
  ℕ, zero, suc, ◌+◌, String, Bool, true, false, Option, none, some, List, [], ◌∷◌, length, leb,
  if◌then◌else◌, same, truthy, includes,
}
use virt_pilot.Backup.Types.{
  Kind, full, Manifest, Entry, derive_consistency, kind_or_full, is_full, is_some_text,
}

-- `new Map(manifests.map((m) => [m.id, m]))`: of two manifests with one id the later is found.
unfoldable pub by_id : List Manifest → String → Option Manifest
by_id [] id = none
by_id (m ∷ ms) id = elim (by_id ms id) [
  | some found ↦ some found
  | none ↦ if same m.id id then some m else none
]

-- The test that ends the walk with a whole chain.
unfoldable pub is_root : Manifest → Bool
is_root m = elim (truthy m.parent_backup_id) [
  | none ↦ true
  | some _ ↦ is_full (kind_or_full m.kind)
]

-- The manifest that the next round of the walk reads.
unfoldable pub parent_of : List Manifest → Manifest → Option Manifest
parent_of ms m = elim (truthy m.parent_backup_id) [ none ↦ none | some p ↦ by_id ms p ]

pub record Walk : Type 0 where
  pub broken : Bool
  pub total_bytes : ℕ

-- The `while` of `walkChain`, a round per unit of fuel.
unfoldable pub walk : List Manifest → (String → ℕ) → ℕ → List String → ℕ → Manifest → Walk
walk ms size zero seen total cur = record { broken = true; total_bytes = total }
walk ms size (suc fuel) seen total cur =
    let total' = total + size cur.id in
    let rest = λ (parent : Manifest). walk ms size fuel (cur.id ∷ seen) total' parent in
    if includes seen cur.id
    then record { broken = true; total_bytes = total }
    else if is_root cur
    then record { broken = false; total_bytes = total' }
    else elim (parent_of ms cur) [
      | none ↦ record { broken = true; total_bytes = total' }
      | some parent ↦ rest parent
    ]

-- A round for each manifest and one more.
unfoldable pub walk_chain : List Manifest → (String → ℕ) → Manifest → Walk
unfolding walk
walk_chain ms size m = walk ms size (suc (length ms)) [] 0 m

-- The ids that some manifest names as its parent.
unfoldable pub dependents : List Manifest → List String
dependents [] = []
dependents (m ∷ ms) = elim (truthy m.parent_backup_id) [
  | none ↦ dependents ms
  | some p ↦ p ∷ dependents ms
]

unfoldable pub to_entry : List Manifest → (String → ℕ) → Manifest → Entry
unfolding walk_chain dependents derive_consistency
to_entry ms size m =
    let w = walk_chain ms size m in
    record {
      id = m.id;
      created_at = m.created_at;
      size_bytes = size m.id;
      consistency =
          derive_consistency (elim m.vm_state_at_backup [ none ↦ "running" | some s ↦ s ])
            m.consistent;
      retention_days = m.retention_days;
      disks = m.disks;
      kind = kind_or_full m.kind;
      parent_backup_id = m.parent_backup_id;
      has_checkpoint = is_some_text m.checkpoint_name;
      chain_requested = elim m.chain_requested [ none ↦ false | some b ↦ b ];
      chain_broken = w.broken;
      has_dependents = includes (dependents ms) m.id;
      chain_size_bytes = w.total_bytes;
    }

-- `.sort((a, b) => b.createdAt.localeCompare(a.createdAt))`, which is stable.
unfoldable pub insert_newest : Entry → List Entry → List Entry
insert_newest e [] = e ∷ []
insert_newest e (x ∷ xs) =
    let rest = insert_newest e xs in if leb x.created_at e.created_at then e ∷ x ∷ xs else x ∷ rest

unfoldable pub newest_first : List Entry → List Entry
unfolding insert_newest
newest_first [] = []
newest_first (e ∷ es) = insert_newest e (newest_first es)

unfoldable pub entries_from : List Manifest → (String → ℕ) → List Manifest → List Entry
unfolding to_entry
entries_from ms size [] = []
entries_from ms size (m ∷ rest) = to_entry ms size m ∷ entries_from ms size rest

-- `buildBackupEntries`, with the size of each directory as a function.
unfoldable pub build_entries : List Manifest → (String → ℕ) → List Entry
unfolding entries_from newest_first
build_entries ms size = newest_first (entries_from ms size ms)
