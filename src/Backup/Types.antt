-- ===== src/Backup/Types.antt =====
-- The records of backupService.ts that decisions are made from: manifests, listed entries and
-- unusable directories. Times are milliseconds since the epoch: `createdAt` is written by
-- `toISOString`, whose texts sort and parse as their times.
use virt_pilot.Common.{
  ℕ, String, Bool, true, false, Option, none, some, List, if◌then◌else◌, same, truthy,
}

pub data Kind : Type 0 where
  full incremental : Kind

-- What a caller asks for.
pub data KindRequest : Type 0 where
  just : Kind → KindRequest
  auto : KindRequest

pub data Consistency : Type 0 where
  app_consistent offline crash_consistent : Consistency

unfoldable pub derive_consistency : String → Bool → Consistency
derive_consistency vm_state consistent =
    if same vm_state "running"
    then (if consistent then app_consistent else crash_consistent)
    else offline

-- `BackupDiskEntry`; the format is always qcow2.
pub record DiskEntry : Type 0 where
  pub target : String
  pub filename : String
  pub size_bytes : ℕ
  pub original_path : String
  pub backing_filename : Option String

-- `BackupManifest`, less the fields that are only shown or passed to a restored VM.
pub record Manifest : Type 0 where
  pub id : String
  pub created_at : ℕ
  pub kind : Option Kind
  pub parent_backup_id : Option String
  pub checkpoint_name : Option String
  pub chain_requested : Option Bool
  pub consistent : Bool
  pub vm_state_at_backup : Option String
  pub disks : List DiskEntry
  pub retention_days : ℕ

-- `BackupEntry`, less the fields that are only shown.
pub record Entry : Type 0 where
  pub id : String
  pub created_at : ℕ
  pub size_bytes : ℕ
  pub consistency : Consistency
  pub retention_days : ℕ
  pub disks : List DiskEntry
  pub kind : Kind
  pub parent_backup_id : Option String
  pub has_checkpoint : Bool
  pub chain_requested : Bool
  pub chain_broken : Bool
  pub has_dependents : Bool
  pub chain_size_bytes : ℕ

pub data Why : Type 0 where
  incomplete unreadable : Why

-- `UnusableBackupDir`
pub record UnusableDir : Type 0 where
  pub id : String
  pub why : Why
  pub size_bytes : ℕ
  pub mtime_ms : ℕ

-- `ManifestScan`
pub record Scan : Type 0 where
  pub manifests : List Manifest
  pub unusable : List UnusableDir

abbrev pub kind_or_full : Option Kind → Kind
kind_or_full none = full
kind_or_full (some k) = k

abbrev pub is_full : Kind → Bool
is_full full = true
is_full incremental = false

abbrev pub is_some_text : Option String → Bool
is_some_text o = elim (truthy o) [ none ↦ false | some _ ↦ true ]
