-- ===== src/Backup/Scan/Laws.antt =====
-- What the sweep and the reconciliation may remove.
use virt_pilot.Common.{
  ℕ, ◌+◌, ◌≤◌, ◌<◌, ◌≡◌, ◌≢◌, refl, sym, ap, ◌∙◌, ◌⊎◌, inl, inr, String, true, Option, none, some,
  List, [], ◌∷◌, Member, here, there, Member-cons, Member-keep, keep-Member, arith, same_refl,
  truthy, includes, keep, Bool-cases, Option-cases, not,
}
use virt_pilot.Backup.Types.{Manifest, incomplete, unreadable, UnusableDir, Scan}
use virt_pilot.Backup.Retention.{is_unreadable}
use virt_pilot.Backup.Scan.{
  Marker, present, absent, failed, DirFacts, Listing, scan_dirs, is_suppressed_in_flight_dir,
  Scanned, readable, unusable, classify, add_scanned, scan_dirs, InProgress, in_flight_id,
  abandoned_backup_age_ms, is_abandoned, dir_ids, sweep_abandoned_backup_dirs, live_checkpoints,
  reconcile_checkpoints, is_empty_dirs, is_virtpilot_checkpoint,
}

Marker-cases : (m : Marker) → (m ≡ present) ⊎ ((m ≡ absent) ⊎ (m ≡ failed))
Marker-cases present = inl refl
Marker-cases absent = inr (inl refl)
Marker-cases failed = inr (inr refl)

-- What is reported as incomplete has no marker.
abbrev Tells : List DirFacts → UnusableDir → Type 0
Tells ds u =
    (d : DirFacts) × Member d ds
    × (u.id ≡ d.name)
    × (u.mtime_ms ≡ d.newest_mtime_ms)
    × (u.why ≡ incomplete → d.marker ≡ absent)

Tells-there : (d : DirFacts) (ds : List DirFacts) (u : UnusableDir) → Tells ds u → Tells (d ∷ ds) u
Tells-there d ds u (d', m, i, t, w) = (d', there m, i, t, w)

Scanned-unusable : {u v : UnusableDir} → unusable u ≡ unusable v → u ≡ v
Scanned-unusable e = cc e

classify-Tells :
    (d : DirFacts) (u : UnusableDir)
    → classify d ≡ unusable u
    → (u.id ≡ d.name) × (u.mtime_ms ≡ d.newest_mtime_ms) × (u.why ≡ incomplete → d.marker ≡ absent)
unfolding classify
classify-Tells d u e = elim (Marker-cases d.marker) [
  | inl p ↦ elim (Option-cases d.manifest) [
    | inl n ↦ (ground (arith, p, n, e), ground (arith, p, n, e), λ w. ground (arith, p, n, e, w))
    | inr (m, r) ↦ absurd (ground (arith, p, r, e))
  ]
  | inr (inl p) ↦ (ground (arith, p, e), ground (arith, p, e), λ w. p)
  | inr (inr p) ↦ (ground (arith, p, e), ground (arith, p, e), λ w. ground (arith, p, e, w))
]

Member-add_scanned :
    (in_flight : Option String) (r : Scanned) (s : Scan) (u : UnusableDir)
    → Member u (add_scanned in_flight r s).unusable
    → (r ≡ unusable u) ⊎ Member u s.unusable
unfolding add_scanned
Member-add_scanned in_flight (readable m) s u h = inr h
Member-add_scanned in_flight (unusable v) s u h =
    elim (Bool-cases (is_suppressed_in_flight_dir v in_flight)) [
      | inl e ↦ inr (rw e at h)
      | inr e ↦ elim (Member-cons (rw e at h)) [
        | inl one ↦ inl (ap unusable (sym one))
        | inr later ↦ inr later
      ]
    ]

unusable-Tells :
    (in_flight : Option String) (ds : List DirFacts) (u : UnusableDir)
    → Member u (scan_dirs in_flight ds).unusable
    → Tells ds u
unfolding scan_dirs
unusable-Tells in_flight [] u m = elim m [ ]
unusable-Tells in_flight (d ∷ ds) u m =
    elim (Member-add_scanned in_flight (classify d) (scan_dirs in_flight ds) u m) [
      | inl e ↦ let (i, t, w) = classify-Tells d u e in (d, here, i, t, w)
      | inr later ↦ Tells-there d ds u (unusable-Tells in_flight ds u later)
    ]

Member-dir_ids :
    (us : List UnusableDir) (x : String)
    → Member x (dir_ids us)
    → (u : UnusableDir) × Member u us × (u.id ≡ x)
Member-dir_ids [] x m = elim m [ ]
Member-dir_ids (u ∷ us) x m = elim (Member-cons m) [
  | inl e ↦ (u, here, sym e)
  | inr later ↦ let (v, mv, e) = Member-dir_ids us x later in (v, there mv, e)
]

is_abandoned-old :
    (now : ℕ) (u : UnusableDir)
    → is_abandoned now u ≡ true
    → (u.why ≡ incomplete) × (0 < u.mtime_ms) × (u.mtime_ms + abandoned_backup_age_ms ≤ now)
is_abandoned-old now u h = (ground (arith, h), ground (arith, h), ground (arith, h))

not_in_nil {ℓ} : {A : Type ℓ} {x : A} → ¬ Member x []
not_in_nil h = elim h [ ]

-- The sweep removes a directory only while no backup of the VM runs, and only one that is listed, has no
-- completion marker and has not been written to for 24 hours, by a time that could be read.
pub sweep_abandoned_backup_dirs-safe :
    (in_progress : InProgress) (listing : Listing) (now : ℕ) (x : String)
    → Member x (sweep_abandoned_backup_dirs in_progress listing now)
    → (in_progress ≡ none)
      × ((ds : List DirFacts) × (listing ≡ some ds)
          × ((d : DirFacts) × Member d ds
              × (d.name ≡ x)
              × (d.marker ≡ absent)
              × (0 < d.newest_mtime_ms)
              × (d.newest_mtime_ms + abandoned_backup_age_ms ≤ now)))
unfolding sweep_abandoned_backup_dirs
sweep_abandoned_backup_dirs-safe (some id) listing now x m = absurd (not_in_nil m)
sweep_abandoned_backup_dirs-safe none none now x m = absurd (not_in_nil m)
sweep_abandoned_backup_dirs-safe none (some ds) now x m =
    let (u, mu, e) = Member-dir_ids (keep (is_abandoned now) (scan_dirs none ds).unusable) x m in
    let (mu', t) = Member-keep (is_abandoned now) u (scan_dirs none ds).unusable mu in
    let (w, pos, old) = is_abandoned-old now u t in
    let (d, md, i, time, marker) = unusable-Tells none ds u mu' in
    (refl, (ds, refl, (d, md, sym i ∙ e, marker w, omega arith, omega arith)))

add_scanned-keeps :
    (in_flight : Option String) (r : Scanned) (s : Scan)
    → ((m : Manifest) → Member m s.manifests → Member m (add_scanned in_flight r s).manifests)
      × ((u : UnusableDir) → Member u s.unusable → Member u (add_scanned in_flight r s).unusable)
unfolding add_scanned
add_scanned-keeps in_flight (readable n) s = (λ m h. there h, λ u h. h)
add_scanned-keeps in_flight (unusable v) s =
    elim (Bool-cases (is_suppressed_in_flight_dir v in_flight)) [
      | inl e ↦ (λ m h. rw e h, λ u h. rw e h)
      | inr e ↦ (λ m h. rw e h, λ u h. rw e (there h))
    ]

add_scanned-unreadable :
    (in_flight : Option String) (u : UnusableDir) (s : Scan)
    → u.why ≡ unreadable
    → Member u (add_scanned in_flight (unusable u) s).unusable
unfolding add_scanned is_suppressed_in_flight_dir
add_scanned-unreadable in_flight u s e = rw e here

readable-first :
    (in_flight : Option String) (m : Manifest) (s : Scan)
    → Member m (add_scanned in_flight (readable m) s).manifests
unfolding add_scanned
readable-first in_flight m s = here

scan_dirs-readable :
    (in_flight : Option String) (m : Manifest) (d : DirFacts) (ds : List DirFacts)
    → Member d ds
    → classify d ≡ readable m
    → Member m (scan_dirs in_flight ds).manifests
unfolding scan_dirs
scan_dirs-readable in_flight m d [] h e = elim h [ ]
scan_dirs-readable in_flight m d (c ∷ ds) here e =
    rw e (readable-first in_flight m (scan_dirs in_flight ds))
scan_dirs-readable in_flight m d (c ∷ ds) (there h) e =
    (add_scanned-keeps in_flight (classify c) (scan_dirs in_flight ds)).0 m
      (scan_dirs-readable in_flight m d ds h e)

scan_dirs-unreadable :
    (in_flight : Option String) (u : UnusableDir) (d : DirFacts) (ds : List DirFacts)
    → Member d ds
    → classify d ≡ unusable u
    → u.why ≡ unreadable
    → Member u (scan_dirs in_flight ds).unusable
unfolding scan_dirs
scan_dirs-unreadable in_flight u d [] h e w = elim h [ ]
scan_dirs-unreadable in_flight u d (c ∷ ds) here e w =
    rw e (add_scanned-unreadable in_flight u (scan_dirs in_flight ds) w)
scan_dirs-unreadable in_flight u d (c ∷ ds) (there h) e w =
    (add_scanned-keeps in_flight (classify c) (scan_dirs in_flight ds)).1 u
      (scan_dirs-unreadable in_flight u d ds h e w)

Member-live_checkpoints :
    (m : Manifest) (name : String) (ms : List Manifest)
    → Member m ms
    → truthy m.checkpoint_name ≡ some name
    → includes (live_checkpoints ms) name ≡ true
Member-live_checkpoints m name [] h e = elim h [ ]
Member-live_checkpoints m name (n ∷ ms) here e = ground (arith, e, same_refl name)
Member-live_checkpoints m name (n ∷ ms) (there h) e =
    ground (arith, Member-live_checkpoints m name ms h e, Option-cases (truthy n.checkpoint_name))

readable_all-of_empty :
    (us : List UnusableDir) → is_empty_dirs us ≡ true → (u : UnusableDir) → ¬ Member u us
readable_all-of_empty [] e u h = elim h [ ]
readable_all-of_empty (v ∷ us) e u h = cc e

abbrev unread : DirFacts → UnusableDir
unread d = record {
  id = d.name;
  why = unreadable;
  size_bytes = d.size_bytes;
  mtime_ms = d.newest_mtime_ms;
}

module _ (in_flight : Option String) (ds : List DirFacts)
    (e : is_empty_dirs (keep is_unreadable (scan_dirs in_flight ds).unusable) ≡ true) (d : DirFacts)
    (md : Member d ds) where
  not_unread : classify d ≢ unusable (unread d)
  not_unread c =
      let us = (scan_dirs in_flight ds).unusable in
      readable_all-of_empty (keep is_unreadable us) e (unread d) (
        keep-Member is_unreadable us (scan_dirs-unreadable in_flight (unread d) d ds md c refl)
          refl)

  marker-ne-failed : d.marker ≢ failed
  unfolding classify
  marker-ne-failed p = not_unread (ground (arith, p))

  manifest_of_present :
      d.marker ≡ present → (m : Manifest) × (d.manifest ≡ some m) × (classify d ≡ readable m)
  unfolding classify
  manifest_of_present p = elim (Option-cases d.manifest) [
    | inl n ↦ absurd (not_unread (ground (arith, p, n)))
    | inr (m, r) ↦ (m, r, ground (arith, p, r))
  ]

-- Reconciliation deletes a checkpoint only if it is one of VirtPilot's that libvirt lists and, unless the backup
-- directory itself could not be listed, if every directory marked complete has a readable manifest, no marker failed
-- to be read, and no complete backup has recorded it: not even the backup that is still registered as running.
pub reconcile_checkpoints-safe :
    (in_progress : InProgress) (listing : Listing) (names : List String) (name : String)
    → Member name (reconcile_checkpoints in_progress listing names)
    → Member name names
      × (is_virtpilot_checkpoint name ≡ true)
      × ((listing ≡ none)
          ⊎ ((ds : List DirFacts) × (listing ≡ some ds)
              × ((d : DirFacts) → Member d ds → d.marker ≢ failed)
              × ((d : DirFacts)
                  → Member d ds
                  → d.marker ≡ present
                  → (m : Manifest) × (d.manifest ≡ some m)
                    × (truthy m.checkpoint_name ≢ some name))))
unfolding reconcile_checkpoints
reconcile_checkpoints-safe in_progress none names name h =
    let (mo, new) = Member-keep (λ n. not (includes [] n)) name _ h in
    let (mn, own) = Member-keep is_virtpilot_checkpoint name names mo in (mn, own, inl refl)
reconcile_checkpoints-safe in_progress (some ds) names name h =
    let f = in_flight_id in_progress in
    let s = scan_dirs f ds in
    elim (Bool-cases (is_empty_dirs (keep is_unreadable s.unusable))) [
      | inr e ↦ absurd (not_in_nil (rw e at h))
      | inl e ↦
          let (mo, new) =
            Member-keep (λ n. not (includes (live_checkpoints s.manifests) n)) name _ (rw e at h) in
          let (mn, own) = Member-keep is_virtpilot_checkpoint name names mo in
          (
            mn,
            own,
            inr (
              ds,
              refl,
              λ d md. marker-ne-failed f ds e d md,
              λ d md p.
                  let (m, r, c) = manifest_of_present f ds e d md p in
                  (
                    m,
                    r,
                    λ t. ground (
                      arith,
                      new,
                      Member-live_checkpoints m name s.manifests (scan_dirs-readable f m d ds md c)
                          t,
                    ),
                  ),
            ),
          )
    ]
