-- ===== src/Backup/Disk.antt =====
-- What a VM's backups leave on the host: the directories under its backup root, and the libvirt
-- checkpoints. The calls are those of backupService.ts and libvirtBackupService.ts.
use Prim.Native.String
use virt_pilot.Common.{
  String, Bool, false, List, [], ◌∷◌, if◌then◌else◌, same, same-cases, includes, arith, inl, inr,
  ap, ◌≡◌,
}

pub record Disk : Type 0 where
  pub dirs : List String
  pub checkpoints : List String

abbrev pub without : String → List String → List String
without s [] = []
without s (x ∷ xs) = if same x s then without s xs else x ∷ without s xs

abbrev pub checkpoint_name_for : String → String
checkpoint_name_for id = String.◌++◌ "vpbk-" id

-- `fs.rm` with `force`: nothing there is no error.
unfoldable pub remove_backup_files : String → Disk → Disk
remove_backup_files id d = record d { dirs = without id d.dirs }

-- `answers` says of which checkpoints libvirt manages the deletion; a failure is only logged.
unfoldable pub drop_checkpoint_for : (String → Bool) → String → Disk → Disk
drop_checkpoint_for answers id d =
    let name = checkpoint_name_for id in
    if includes d.checkpoints name
    then (if answers name then record d { checkpoints = without name d.checkpoints } else d)
    else d

pub includes-without :
    (s x : String) (xs : List String)
    → includes (without s xs) x ≡ (if same s x then false else includes xs x)
includes-without s x [] = ground arith
includes-without s x (y ∷ xs) = elim (same-cases y s) [
  | inl (p, t) ↦ ground (arith, t, includes-without s x xs, ap (λ z. same z x) p)
  | inr (p, t) ↦ elim (same-cases s x) [
    | inl (q, t') ↦
        let no_match : same y x ≡ false = rw (← q) t in
        ground (arith, t, t', no_match, includes-without s x xs)
    | inr (q, t') ↦ ground (arith, t, t', includes-without s x xs)
  ]
]

pub dirs-remove_backup_files :
    (id x : String) (d : Disk)
    → includes (remove_backup_files id d).dirs x ≡ (if same id x then false else includes d.dirs x)
unfolding remove_backup_files
dirs-remove_backup_files id x d = includes-without id x d.dirs

pub dirs-drop_checkpoint_for :
    (answers : String → Bool) (id : String) (d : Disk)
    → (drop_checkpoint_for answers id d).dirs ≡ d.dirs
unfolding drop_checkpoint_for
dirs-drop_checkpoint_for answers id d = ground arith
