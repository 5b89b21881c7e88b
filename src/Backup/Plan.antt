-- ===== src/Backup/Plan.antt =====
-- Full or incremental: `assessIncrementalReadiness`, the decision in `_createBackupInner`, and the
-- figures of backupService.ts that go with it.
pub mod Laws
use virt_pilot.Common.{
  ℕ, suc, String, Bool, true, false, Option, none, some, List, [], ◌∷◌, find, if◌then◌else◌, leb,
  min, max, same, truthy, not, ◌&&◌,
}
use virt_pilot.Backup.Types.{Kind, full, incremental, KindRequest, just, auto, Manifest, Entry}

abbrev pub default_full_every : ℕ
default_full_every = 7

abbrev pub max_full_every : ℕ
max_full_every = 60

-- `none` stands for what is no finite number. A negative number gives 1, as 0 does.
unfoldable pub clamp_full_every : Option ℕ → ℕ
clamp_full_every none = default_full_every
clamp_full_every (some value) = max 1 (min max_full_every value)

-- The backups are newest first.
unfoldable pub count_chain_length : List Entry → ℕ
count_chain_length [] = 0
count_chain_length (b ∷ bs) =
    let more = suc (count_chain_length bs) in elim b.kind [ incremental ↦ more | full ↦ 0 ]

unfoldable pub count_consecutive_non_chaining_fulls : List Entry → ℕ
count_consecutive_non_chaining_fulls [] = 0
count_consecutive_non_chaining_fulls (b ∷ bs) =
    let more = suc (count_consecutive_non_chaining_fulls bs) in
    if b.has_checkpoint then 0 else if not b.chain_requested then 0 else more

-- Why an incremental is not possible.
pub data Reason : Type 0 where
  not_running unsupported first_backup newest_unreadable no_checkpoint : Reason
  checkpoint_gone : String → Reason

pub data Readiness : Type 0 where
  not_ready : ℕ → Reason → Readiness
  ready : ℕ → Entry → String → Readiness

-- What the assessment reads of the host: whether libvirt can do it, the manifest behind an id, and
-- which checkpoints libvirt still has.
pub record Host : Type 0 where
  pub is_backup_supported : Bool
  pub manifest_of : String → Option Manifest
  pub checkpoint_exists : String → Bool

abbrev pub head_id_is : List Entry → String → Bool
head_id_is [] id = false
head_id_is (b ∷ bs) id = same id b.id

-- The tests past the parent.
unfoldable pub assess_parent : Host → ℕ → List Entry → Entry → Readiness
assess_parent host n backups parent =
    if not (head_id_is backups parent.id)
    then not_ready n newest_unreadable
    else elim (host.manifest_of parent.id) [
      | none ↦ not_ready n no_checkpoint
      | some manifest ↦ elim (truthy manifest.checkpoint_name) [
        | none ↦ not_ready n no_checkpoint
        | some checkpoint ↦
            if not (host.checkpoint_exists checkpoint)
            then not_ready n (checkpoint_gone checkpoint)
            else ready n parent checkpoint
      ]
    ]

unfoldable pub assess_incremental_readiness : Host → List Entry → Bool → Readiness
unfolding assess_parent count_chain_length
assess_incremental_readiness host backups running =
    let n = count_chain_length backups in
    if not running
    then not_ready n not_running
    else if not host.is_backup_supported
    then not_ready n unsupported
    else elim (find (λ (b : Entry). not b.chain_broken) backups) [
      | none ↦ not_ready n first_backup
      | some parent ↦ assess_parent host n backups parent
    ]

-- The outcome of "Decide full vs incremental", with the reason that is noted on the backup.
pub record Decision : Type 0 where
  pub kind : Kind
  pub parent_backup_id : Option String
  pub incremental_from : Option String
  pub degraded_reason : Option Reason

abbrev pub plain_full : Decision
plain_full = record {
  kind = full;
  parent_backup_id = none;
  incremental_from = none;
  degraded_reason = none;
}

abbrev pub is_first : Reason → Bool
is_first first_backup = true
is_first _ = false

-- An explicit request always notes why; a schedule's first run does not.
abbrev pub degraded : KindRequest → Reason → Option Reason
degraded (just incremental) why = some why
degraded _ why = if is_first why then none else some why

unfoldable pub decide_ready : ℕ → KindRequest → Readiness → Decision
decide_ready full_every requested (not_ready n why) = record plain_full {
  degraded_reason = degraded requested why;
}
decide_ready full_every requested (ready n parent checkpoint) =
    if leb full_every n then plain_full else record {
      kind = incremental;
      parent_backup_id = some parent.id;
      incremental_from = some checkpoint;
      degraded_reason = none;
    }

unfoldable pub decide : Host → List Entry → Bool → KindRequest → Option ℕ → Decision
unfolding decide_ready assess_incremental_readiness clamp_full_every
decide host backups running (just full) full_every = plain_full
decide host backups running requested full_every =
    decide_ready (clamp_full_every full_every) requested
      (assess_incremental_readiness host backups running)
