-- ===== src/Backup/Retention/Exact.antt =====
-- Which backups a retention pass keeps: those that are not expired, and all that they build on.
use virt_pilot.Common.{
  ℕ, suc, ◌≡◌, refl, sym, ap, ◌∙◌, ◌⊎◌, inl, inr, ◌↔◌, String, Bool, true, false, subst,
  Member-cons, Option, none, some, List, [], ◌∷◌, length, Member, here, there, All-at, members,
  arith, if◌then◌else◌, same, same-cases, includes, truthy, keep, Bool-cases,
}
use virt_pilot.Backup.Types.{Entry, Scan, UnusableDir, Why, incomplete, unreadable}
use virt_pilot.Backup.Disk.{
  Disk, remove_backup_files, dirs-drop_checkpoint_for, dirs-remove_backup_files,
}
use virt_pilot.Backup.Chain.{build_entries}
use virt_pilot.Backup.Retention.{
  or_default, Peel, remove_one, peel, start_peel, is_expired, apply_retention, pruned, refused,
  is_unreadable, refuse_or, Outcome, aborted, peel_from, prune_or_abort, read_retention,
}
use virt_pilot.Backup.Retention.Steps.{
  children, Peeled, stop, remove, removed-remove_one, count-remove_one, Peeled-IsRooted,
  count_children-children, start-IsCounted,
}
use virt_pilot.Backup.Retention.Loop.{left-le-length, IsSettled, pass-idle, peel-idle, peel-Peeled}
use virt_pilot.Backup.Retention.Children.{
  HasUniqueIds, KeptChild, eq-of_id, children-remove, child_of_count,
}

-- What a pass that may remove `expired` backups leaves of `bs` and of the disk.
pub record IsPruned (expired : Entry → Bool) (bs : List Entry) (disk : Disk) (u : Peel)
    : Type 0 where
  pub young_kept : (b : Entry) → Member b bs → expired b ≡ false → includes u.removed b.id ≡ false
  pub rooted :
      (b c : Entry)
      → Member c bs
      → includes u.removed c.id ≡ false
      → truthy c.parent_backup_id ≡ some b.id
      → includes u.removed b.id ≡ false
  pub no_more :
      (b : Entry)
      → Member b bs
      → includes u.removed b.id ≡ false
      → (expired b ≡ false) ⊎ KeptChild u.removed b.id bs
  pub on_disk :
      (id : String)
      → includes u.disk.dirs id ≡ (if includes u.removed id then false else includes disk.dirs id)

module _ (answers : String → Bool) (expired : Entry → Bool) (bs : List Entry) where
  abbrev IsExact : Peel → Type 0
  IsExact s = (p : String) → children s.removed p bs ≡ or_default (s.child_count p) 0

  abbrev OnlyExpired : Peel → Type 0
  OnlyExpired s = (c : Entry) → Member c bs → includes s.removed c.id ≡ true → expired c ≡ true

  Peeled-IsExact :
      {s u : Peel} → Peeled answers expired bs s u → HasUniqueIds bs → IsExact s → IsExact u
  Peeled-IsExact stop unique h = h
  Peeled-IsExact (remove {s = s} b m new leaf old rest) unique h = Peeled-IsExact rest unique λ p.
      rw (removed-remove_one, count-remove_one)
        (omega (arith, children-remove s.removed p m unique new, h p))

  Peeled-OnlyExpired :
      {s u : Peel} → Peeled answers expired bs s u → HasUniqueIds bs → OnlyExpired s → OnlyExpired u
  Peeled-OnlyExpired stop unique h = h
  Peeled-OnlyExpired (remove {s = s} b m new leaf old rest) unique h =
      Peeled-OnlyExpired rest unique λ c mc. rw removed-remove_one λ gone.
        elim (same-cases b.id c.id) [
          | inl (e, t) ↦ rw (eq-of_id m mc unique (sym e)) old
          | inr (e, t) ↦ h c mc (ground (arith, t))
        ]

  dirs-remove_one :
      (b : Entry) (s : Peel) (id : String)
      → includes (remove_one answers b s).disk.dirs id
        ≡ (if same b.id id then false else includes s.disk.dirs id)
  unfolding remove_one
  dirs-remove_one b s id =
      ap (λ l. includes l id)
        (dirs-drop_checkpoint_for answers b.id (remove_backup_files b.id s.disk))
      ∙ dirs-remove_backup_files b.id id s.disk

  Peeled-on_disk :
      (disk : Disk) {s u : Peel}
      → Peeled answers expired bs s u
      → (id : String)
      → (includes s.disk.dirs id ≡ (if includes s.removed id then false else includes disk.dirs id))
      → includes u.disk.dirs id ≡ (if includes u.removed id then false else includes disk.dirs id)
  Peeled-on_disk disk stop id h = h
  Peeled-on_disk disk (remove {s = s} b m new leaf old rest) id h =
      Peeled-on_disk disk rest id (rw (removed-remove_one, dirs-remove_one) (ground (arith, h)))

  why :
      (b : Entry) (u : Peel)
      → includes u.removed b.id ≡ false
      → children u.removed b.id bs ≡ or_default (u.child_count b.id) 0
      → IsSettled answers expired bs u b
      → (expired b ≡ false) ⊎ KeptChild u.removed b.id bs
  why b u kept exact (inl gone) = cc (kept, gone)
  why b u kept exact (inr (inl used)) = inr (child_of_count u.removed b.id bs (omega arith))
  why b u kept exact (inr (inr young)) = inl young

  peel-IsPruned :
      (disk : Disk)
      → HasUniqueIds bs
      → IsPruned expired bs disk (peel answers expired (suc (length bs)) bs (start_peel bs disk))
  unfolding start_peel
  peel-IsPruned disk unique =
      let s = start_peel bs disk in
      let u = peel answers expired (suc (length bs)) bs s in
      let steps = peel-Peeled answers expired bs (suc (length bs)) s (members bs) in
      let idle =
        peel-idle answers expired bs (suc (length bs)) s (members bs)
          (omega (arith, left-le-length [] bs)) in
      let settled = (pass-idle answers expired bs bs u idle).1 in
      let exact =
        Peeled-IsExact steps unique
          (λ p. omega (arith, count_children-children (λ _. none) bs p)) in
      let only = Peeled-OnlyExpired steps unique (λ c m g. cc) in
      record {
        young_kept = λ b m young. ground (arith, only b m, Bool-cases (includes u.removed b.id));
        rooted = λ b c m kept up.
            Peeled-IsRooted answers expired bs steps (start-IsCounted bs) (λ c p m k e. refl) c b.id
              m kept up;
        no_more = λ b m kept.
            why b u kept (exact b.id) (All-at (IsSettled answers expired bs u) m settled);
        on_disk = λ id. Peeled-on_disk disk steps id refl;
      }

peel_from-IsPruned :
    (answers : String → Bool) (now : ℕ) (bs : List Entry) (disk : Disk) (global : ℕ)
    → HasUniqueIds bs
    → IsPruned (is_expired global now) bs disk (peel_from answers now bs disk global)
unfolding peel_from
peel_from-IsPruned answers now bs disk global unique =
    peel-IsPruned answers (is_expired global now) bs disk unique

why-cases : (w : Why) → (w ≡ unreadable) ⊎ (w ≡ incomplete)
why-cases incomplete = inr refl
why-cases unreadable = inl refl

refuse_or-eq-pruned :
    (l : List UnusableDir) (t : Outcome) (u : Peel) → refuse_or l t ≡ pruned u → t ≡ pruned u
refuse_or-eq-pruned [] t u h = h
refuse_or-eq-pruned (d ∷ ds) t u h = cc

-- A pass that the scan lets on is given up, or runs.
abbrev GivenUp : Outcome → Type 0
GivenUp o = ((l : List UnusableDir) × (o ≡ refused l)) ⊎ (o ≡ aborted)

abbrev HasUnreadable : List UnusableDir → Type 0
HasUnreadable l = (d : UnusableDir) × Member d l × (d.why ≡ unreadable)

unlike : {w : Why} → w ≡ unreadable → w ≡ incomplete → ⊥
unlike e f = cc (e, f)

not_in_nil : {x : UnusableDir} → Member x [] → ⊥
not_in_nil h = elim h [ ]

refuse_or-at :
    (l : List UnusableDir) (t : Outcome)
    → (HasUnreadable l
        × ((ds : List UnusableDir) × (refuse_or (keep is_unreadable l) t ≡ refused ds)))
      ⊎ (¬ HasUnreadable l × (refuse_or (keep is_unreadable l) t ≡ t))
refuse_or-at [] t = inr (λ (d, m, e). not_in_nil m, refl)
refuse_or-at (d ∷ l) t = elim (why-cases d.why) [
  | inl bad ↦ inl ((d, here, bad), (d ∷ keep is_unreadable l, ground (arith, bad)))
  | inr fine ↦ elim (refuse_or-at l t) [
    | inl ((c, m, w), (ds, r)) ↦ inl ((c, there m, w), (ds, ground (arith, fine, r)))
    | inr (clear, r) ↦ inr (
      λ (c, mc, w). elim (Member-cons mc) [
        | inl e ↦ unlike (subst (λ x. x.why ≡ unreadable) e w) fine
        | inr m ↦ clear (c, m, w)
      ],
      ground (arith, fine, r),
    )
  ]
]

-- When every manifest, the settings and the schedules are readable, a pass over backups with distinct ids keeps
-- every backup that has not expired and every backup that a kept one names as its parent; each backup that it keeps
-- has not expired or is named by a kept one; and the directories it leaves are those it found, less the ones of the
-- removed backups.
pub apply_retention-IsPruned :
    (answers : String → Bool) (scan : Scan) (size : String → ℕ) (schedule_retention : Option ℕ)
    (settings_retention now : ℕ) (disk : Disk) (u : Peel)
    → HasUniqueIds (build_entries scan.manifests size)
    → apply_retention answers scan size (some schedule_retention) (some settings_retention) now disk
      ≡ pruned u
    → IsPruned
        (is_expired (or_default schedule_retention settings_retention) now)
        (build_entries scan.manifests size)
        disk
        u
unfolding apply_retention
apply_retention-IsPruned answers scan size schedule_retention settings_retention now disk u unique
      h =
    let global = or_default schedule_retention settings_retention in
    let bs = build_entries scan.manifests size in
    let run = peel_from answers now bs disk global in
    let at : pruned run ≡ pruned u =
      refuse_or-eq-pruned (keep is_unreadable scan.unusable) (pruned run) u h in
    let e : run ≡ u = cc at in rw (← e) (peel_from-IsPruned answers now bs disk global unique)

-- A pass is given up before it removes anything exactly when a manifest of the scan, the settings or the schedules
-- could not be read; otherwise it runs, incomplete directories or not.
pub apply_retention-refuses :
    (answers : String → Bool) (scan : Scan) (size : String → ℕ) (schedules : Option (Option ℕ))
    (settings : Option ℕ) (now : ℕ) (disk : Disk)
    → (((l : List UnusableDir) × (apply_retention answers scan size schedules settings now disk
            ≡ refused l))
        ⊎ (apply_retention answers scan size schedules settings now disk ≡ aborted))
      ↔ (((d : UnusableDir) × Member d scan.unusable × (d.why ≡ unreadable))
          ⊎ (settings ≡ none)
          ⊎ (schedules ≡ none))
unfolding apply_retention
apply_retention-refuses answers scan size schedules settings now disk =
    let bs = build_entries scan.manifests size in
    let run = peel_from answers now bs disk in
    let next = prune_or_abort run (read_retention settings schedules) in
    elim (refuse_or-at scan.unusable next) [
      | inl (bad, r) ↦ (λ _. inl bad, λ _. inl r)
      | inr (clear, r) ↦ (
        λ given. inr ((aborts run settings schedules).0 (subst GivenUp r given)),
        λ why. subst GivenUp (sym r) (
            inr (
              (aborts run settings schedules).1
                (elim why [ inl bad ↦ absurd (clear bad) | inr e ↦ e ]))),
      )
    ]
  where
    aborts :
        (run : ℕ → Peel) (settings : Option ℕ) (schedules : Option (Option ℕ))
        → (GivenUp (prune_or_abort run (read_retention settings schedules))
            → (settings ≡ none) ⊎ (schedules ≡ none))
          × ((settings ≡ none) ⊎ (schedules ≡ none)
              → prune_or_abort run (read_retention settings schedules) ≡ aborted)
    aborts run none schedules = (λ _. inl refl, λ _. refl)
    aborts run (some days) none = (λ _. inr refl, λ _. refl)
    aborts run (some days) (some s) = (
      λ given. elim given [ inl (l, e) ↦ cc | inr e ↦ cc ],
      λ why. elim why [ inl e ↦ cc | inr e ↦ cc ],
    )
