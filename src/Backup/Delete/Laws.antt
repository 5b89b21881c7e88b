-- ===== src/Backup/Delete/Laws.antt =====
-- What `deleteBackup` leaves on the disk.
use virt_pilot.Common.{
  ◌≡◌, ◌≢◌, refl, sym, ap, ◌∙◌, ◌⊎◌, inl, inr, ◌↔◌, String, Bool, false, some, List, [], ◌∷◌,
  Member, All, arith, if◌then◌else◌, same, same-cases, same_refl, includes, truthy, Bool-cases, map,
  find, ◌||◌, none, Option-cases,
}
use virt_pilot.Backup.Types.{Entry}
use virt_pilot.Backup.Chain.{newest_first, insert_newest}
use virt_pilot.Backup.Disk.{
  Disk, remove_backup_files, dirs-drop_checkpoint_for, dirs-remove_backup_files,
}
use virt_pilot.Backup.Delete.{
  collect_descendants, has_dependents, deleted, remove_backup, remove_all, delete_found,
  delete_backup,
}
use virt_pilot.Backup.Delete.Push.{Has, Descends}
use virt_pilot.Backup.Delete.Collect.{
  collect_descendants_sound, collect_descendants-closed, collect_descendants-fresh, first_child,
}

abbrev ids : List Entry → List String
ids l = map (λ b. b.id) l

dirs-remove_backup :
    (answers : String → Bool) (id : String) (d : Disk) (x : String)
    → includes (remove_backup answers id d).dirs x
      ≡ (if same id x then false else includes d.dirs x)
unfolding remove_backup
dirs-remove_backup answers id d x =
    ap (λ l. includes l x) (dirs-drop_checkpoint_for answers id (remove_backup_files id d))
    ∙ dirs-remove_backup_files id x d

dirs-remove_all :
    (answers : String → Bool) (l : List Entry) (d : Disk) (x : String)
    → includes (remove_all answers l d).dirs x
      ≡ (if includes (ids l) x then false else includes d.dirs x)
unfolding remove_all
dirs-remove_all answers [] d x = refl
dirs-remove_all answers (b ∷ l) d x =
    dirs-remove_all answers l (remove_backup answers b.id d) x
    ∙ ground (arith, dirs-remove_backup answers b.id d x)

ids-insert_newest :
    (e : Entry) (l : List Entry) (x : String)
    → includes (ids (insert_newest e l)) x ≡ (same e.id x || includes (ids l) x)
unfolding insert_newest
ids-insert_newest e [] x = refl
ids-insert_newest e (b ∷ l) x = ground (arith, ids-insert_newest e l x)

ids-newest_first :
    (l : List Entry) (x : String) → includes (ids (newest_first l)) x ≡ includes (ids l) x
unfolding newest_first
ids-newest_first [] x = refl
ids-newest_first (e ∷ l) x =
    ids-insert_newest e (newest_first l) x ∙ ground (arith, ids-newest_first l x)

delete_found-dirs :
    (answers : String → Bool) (l : List Entry) (id : String) (cascade : Bool) (d d' : Disk)
    → delete_found answers l id cascade d ≡ deleted d'
    → (x : String)
    → includes d'.dirs x ≡ (if includes (id ∷ ids l) x then false else includes d.dirs x)
unfolding delete_found
delete_found-dirs answers l id cascade d d' h x =
    let gone = remove_backup answers id (remove_all answers (newest_first l) d) in
    let result : gone ≡ d' = ground (arith, h) in
    ap (λ t. includes t.dirs x) (sym result)
    ∙ ground (
      arith,
      dirs-remove_backup answers id (remove_all answers (newest_first l) d) x,
      dirs-remove_all answers (newest_first l) d x,
      ids-newest_first l x,
    )

entry_of :
    (P : Entry → Type 0) (l : List Entry) (x : String)
    → All P l
    → Has (ids l) x
    → (b : Entry) × P b × (b.id ≡ x)
entry_of P [] x h has = cc
entry_of P (b ∷ l) x (p, ps) has = elim (same-cases b.id x) [
  | inl (e, t) ↦ (b, p, e)
  | inr (e, t) ↦ entry_of P l x ps (ground (arith, t, has))
]

delete_backup-listed :
    (answers : String → Bool) (bs : List Entry) (id : String) (cascade : Bool) (d : Disk)
    (target : Entry)
    → find (λ b. same b.id id) bs ≡ some target
    → delete_backup answers bs id cascade d
      ≡ delete_found answers (collect_descendants bs id) id cascade d
unfolding delete_backup
delete_backup-listed answers bs id cascade d target listed = ground (arith, listed)

delete_backup-unlisted :
    (answers : String → Bool) (bs : List Entry) (id : String) (cascade : Bool) (d : Disk)
    → find (λ b. same b.id id) bs ≡ none
    → delete_backup answers bs id cascade d ≡ deleted (remove_backup_files id d)
unfolding delete_backup
delete_backup-unlisted answers bs id cascade d unlisted = ground (arith, unlisted)

module _ (answers : String → Bool) (bs : List Entry) (id : String) (cascade : Bool) (d d' : Disk)
    (target : Entry) (listed : find (λ b. same b.id id) bs ≡ some target)
    (done : delete_backup answers bs id cascade d ≡ deleted d') where
  delete_backup-found : delete_found answers (collect_descendants bs id) id cascade d ≡ deleted d'
  delete_backup-found = sym (delete_backup-listed answers bs id cascade d target listed) ∙ done

  -- A deletion of a listed backup that is not refused takes its directory, and besides only directories of backups
  -- built on it.
  pub delete_backup-only :
      (includes d'.dirs id ≡ false)
      × ((x : String)
          → Has d.dirs x
          → includes d'.dirs x ≡ false
          → (x ≡ id) ⊎ ((b : Entry) × Descends bs id b × (b.id ≡ x)))
  delete_backup-only =
      let l = collect_descendants bs id in
      let at = delete_found-dirs answers l id cascade d d' delete_backup-found in
      (
        at id ∙ ground (arith, same_refl id),
        λ x before after. elim (same-cases id x) [
          | inl (e, t) ↦ inl (sym e)
          | inr (e, t) ↦ inr (
              entry_of (Descends bs id) l x (collect_descendants_sound bs id)
                (ground (arith, t, before, after, at x, Bool-cases (includes (ids l) x))))
        ],
      )

-- A deletion that is not refused, with the cascade or without, leaves the directory of the parent, where there was
-- one, of each listed backup whose directory it leaves; but an id that is not listed is itself taken, whoever names
-- it as the parent.
pub delete_backup-orphans_none :
    (answers : String → Bool) (bs : List Entry) (id : String) (cascade : Bool) (d d' : Disk)
    → delete_backup answers bs id cascade d ≡ deleted d'
    → (c : Entry) (p : String) → Member c bs
    → truthy c.parent_backup_id ≡ some p
    → Has d'.dirs c.id
    → Has d.dirs p
    → Has d'.dirs p ⊎ ((p ≡ id) × (find (λ b. same b.id id) bs ≡ none))
delete_backup-orphans_none answers bs id cascade d d' done c p m up kept there_before =
    elim (Option-cases (find (λ b. same b.id id) bs)) [
      | inl unlisted ↦
          let same_disk : remove_backup_files id d ≡ d' =
            ground (arith, done, delete_backup-unlisted answers bs id cascade d unlisted) in
          elim (same-cases id p) [
            | inl (e, t) ↦ inr (sym e, unlisted)
            | inr (e, t) ↦ inl (
                ap (λ k. includes k.dirs p) (sym same_disk)
                ∙ dirs-remove_backup_files id p d
                ∙ ground (arith, t, there_before))
          ]
      | inr (target, listed) ↦
          let l = collect_descendants bs id in
          let at =
            delete_found-dirs answers l id cascade d d'
              (delete_backup-found answers bs id cascade d d' target listed done) in
          elim (Bool-cases (includes (id ∷ ids l) p)) [
            | inl taken ↦
                absurd
                  (ground (arith, at c.id, kept, collect_descendants-closed bs id c p m up taken))
            | inr spared ↦ inl (at p ∙ ground (arith, spared, there_before))
          ]
    ]

-- Without the cascade a deletion is refused exactly when the backup is listed and a listed backup with another id
-- names it as its parent.
pub delete_backup-refused_iff :
    (answers : String → Bool) (bs : List Entry) (id : String) (d : Disk)
    → ((l : List Entry) × (delete_backup answers bs id false d ≡ has_dependents l)) ↔ (
        ((target : Entry) × (find (λ b. same b.id id) bs ≡ some target))
        × ((c : Entry) × Member c bs × (truthy c.parent_backup_id ≡ some id) × (c.id ≢ id)))
unfolding delete_found
delete_backup-refused_iff answers bs id d = (
  λ (l, e). elim (Option-cases (find (λ b. same b.id id) bs)) [
    | inl unlisted ↦
        absurd (ground (arith, e, delete_backup-unlisted answers bs id false d unlisted))
    | inr (target, listed) ↦ (
      (target, listed),
      dependent (collect_descendants bs id) l
          (sym (delete_backup-listed answers bs id false d target listed) ∙ e)
          (collect_descendants_sound bs id) (collect_descendants-fresh bs id),
    )
  ],
  λ ((target, listed), (c, m, up, other)).
      let (l, e) = refuses (collect_descendants bs id) c (
        ground (
          arith,
          collect_descendants-closed bs id c id m up (ground (arith, same_refl id)),
          eq_other c.id other,
        )) in
      (l, delete_backup-listed answers bs id false d target listed ∙ e),
)
  where
    dependent :
        (found l : List Entry)
        → delete_found answers found id false d ≡ has_dependents l
        → All (Descends bs id) found
        → All (λ b. b.id ≢ id) found
        → (c : Entry) × Member c bs × (truthy c.parent_backup_id ≡ some id) × (c.id ≢ id)
    dependent [] l e above fresh = cc
    dependent (b ∷ found) l e above fresh = first_child bs id above.0 fresh.0

    eq_other : (x : String) → x ≢ id → same id x ≡ false
    eq_other x other = elim (same-cases id x) [
      | inl (e, t) ↦ absurd (other (sym e))
      | inr (e, t) ↦ t
    ]

    refuses :
        (found : List Entry) (c : Entry)
        → Has (ids found) c.id
        → (l : List Entry) × (delete_found answers found id false d ≡ has_dependents l)
    refuses [] c has = cc
    refuses (b ∷ found) c has = (b ∷ found, refl)
