-- ===== src/Backup/Scan.antt =====
-- `scanManifests` of backupService.ts and the two clean-ups that act on what it says:
-- `sweepAbandonedBackupDirs` and `reconcileCheckpoints`.
pub mod Laws
use text.Mathlib.Text.{starts_with}
use virt_pilot.Common.{
  ℕ, ◌+◌, ◌-◌, ◌*◌, String, Bool, true, false, Option, none, some, List, [], ◌∷◌, keep,
  if◌then◌else◌, ltb, leb, ◌==◌, same, truthy, includes, not, ◌&&◌, ◌||◌,
}
use virt_pilot.Backup.Types.{Manifest, Why, incomplete, unreadable, UnusableDir, Scan}
use virt_pilot.Backup.Retention.{is_unreadable}

-- The answer of `fs.access` on the `.complete` marker; `absent` is ENOENT.
pub data Marker : Type 0 where
  present absent failed : Marker

-- What a scan reads of one directory; `manifest` is `none` where reading or parsing throws.
pub record DirFacts : Type 0 where
  pub name : String
  pub marker : Marker
  pub manifest : Option Manifest
  pub size_bytes : ℕ
  pub newest_mtime_ms : ℕ

pub data Scanned : Type 0 where
  readable : Manifest → Scanned
  unusable : UnusableDir → Scanned

abbrev pub describe : DirFacts → Why → Scanned
describe d why =
    unusable
      (record { id = d.name; why = why; size_bytes = d.size_bytes; mtime_ms = d.newest_mtime_ms })

unfoldable pub classify : DirFacts → Scanned
classify d = elim d.marker [
  | absent ↦ describe d incomplete
  | failed ↦ describe d unreadable
  | present ↦ elim d.manifest [ none ↦ describe d unreadable | some m ↦ readable m ]
]

abbrev pub is_incomplete : UnusableDir → Bool
is_incomplete u = elim u.why [ incomplete ↦ true | unreadable ↦ false ]

unfoldable pub is_suppressed_in_flight_dir : UnusableDir → Option String → Bool
is_suppressed_in_flight_dir u in_flight =
    is_incomplete u && elim in_flight [ none ↦ false | some id ↦ same u.id id ]

unfoldable pub add_scanned : Option String → Scanned → Scan → Scan
unfolding is_suppressed_in_flight_dir
add_scanned in_flight (readable m) s = record s { manifests = m ∷ s.manifests }
add_scanned in_flight (unusable u) s =
    if is_suppressed_in_flight_dir u in_flight then s else record s { unusable = u ∷ s.unusable }

-- The entry of `backupsInProgress`, and in it the id once that is minted.
abbrev pub InProgress : Type 0
InProgress = Option (Option String)

abbrev pub in_flight_id : InProgress → Option String
in_flight_id none = none
in_flight_id (some id) = id

unfoldable pub scan_dirs : Option String → List DirFacts → Scan
unfolding classify add_scanned
scan_dirs in_flight [] = record { manifests = []; unusable = [] }
scan_dirs in_flight (d ∷ ds) = add_scanned in_flight (classify d) (scan_dirs in_flight ds)

-- The directories of a VM, `none` where `fs.readdir` throws: a scan is then empty.
abbrev pub Listing : Type 0
Listing = Option (List DirFacts)

unfoldable pub scan_manifests : Option String → Listing → Scan
unfolding scan_dirs
scan_manifests in_flight none = record { manifests = []; unusable = [] }
scan_manifests in_flight (some ds) = scan_dirs in_flight ds

abbrev pub abandoned_backup_age_ms : ℕ
abandoned_backup_age_ms = 24 * 60 * 60000

-- A cutoff before the epoch is 0 here; no file is older than either.
abbrev pub is_abandoned : ℕ → UnusableDir → Bool
is_abandoned now u =
    is_incomplete u && not (u.mtime_ms == 0 || ltb (now - abandoned_backup_age_ms) u.mtime_ms)

abbrev pub dir_ids : List UnusableDir → List String
dir_ids [] = []
dir_ids (u ∷ us) = u.id ∷ dir_ids us

-- The directories that are removed.
unfoldable pub sweep_abandoned_backup_dirs : InProgress → Listing → ℕ → List String
unfolding scan_manifests
sweep_abandoned_backup_dirs (some id) ds now = []
sweep_abandoned_backup_dirs none ds now =
    dir_ids (keep (is_abandoned now) (scan_manifests none ds).unusable)

abbrev pub is_virtpilot_checkpoint : String → Bool
is_virtpilot_checkpoint name = starts_with name "vpbk-"

-- The checkpoint names of the readable manifests.
abbrev pub live_checkpoints : List Manifest → List String
live_checkpoints [] = []
live_checkpoints (m ∷ ms) = elim (truthy m.checkpoint_name) [
  | none ↦ live_checkpoints ms
  | some name ↦ name ∷ live_checkpoints ms
]

abbrev pub is_empty_dirs : List UnusableDir → Bool
is_empty_dirs [] = true
is_empty_dirs (u ∷ us) = false

-- The checkpoints that are deleted, of those that libvirt lists.
unfoldable pub reconcile_checkpoints : InProgress → Listing → List String → List String
unfolding scan_manifests
reconcile_checkpoints in_progress ds names =
    let ours = keep is_virtpilot_checkpoint names in
    let scan = scan_manifests (in_flight_id in_progress) ds in
    let live = live_checkpoints scan.manifests in
    if not (is_empty_dirs (keep is_unreadable scan.unusable))
    then []
    else keep (λ name. not (includes live name)) ours
