-- ===== src/Backup/Chain/Intact.antt =====
-- `walkChain` against what it decides: whether the backups under a backup lead to a full one.
use virt_pilot.Common.{
  ℕ, zero, suc, ◌+◌, ◌≤◌, ◌<◌, ◌≡◌, refl, ap, ◌∙◌, inl, inr, ◌↔◌, String, true, false, some, List,
  [], ◌∷◌, length, arith, if◌then◌else◌, same, same-cases, same_refl, includes, truthy, Bool-cases,
  Option-cases,
}
use virt_pilot.Backup.Types.{Manifest}
use virt_pilot.Backup.Chain.{by_id, is_root, parent_of, walk, walk_chain}

by_id-id : (l : List Manifest) (id : String) (m : Manifest) → by_id l id ≡ some m → m.id ≡ id
unfolding by_id
by_id-id [] id m h = cc
by_id-id (x ∷ l) id m h = elim (Option-cases (by_id l id)) [
  | inl e ↦ elim (same-cases x.id id) [
    | inl (p, t) ↦ ground (arith, e, p)
    | inr (p, t) ↦ ground (arith, e)
  ]
  | inr (y, e) ↦ by_id-id l id m (ground (arith, e))
]

-- What has been found by its id is found by it again.
by_id_self :
    (l : List Manifest) (id : String) (m : Manifest) → by_id l id ≡ some m → by_id l m.id ≡ some m
by_id_self l id m h = ap (by_id l) (by_id-id l id m h) ∙ h

parent_of-found :
    (l : List Manifest) (m p : Manifest) → parent_of l m ≡ some p → by_id l p.id ≡ some p
unfolding parent_of
parent_of-found l m p h = elim (Option-cases (truthy m.parent_backup_id)) [
  | inl e ↦ ground (arith, e)
  | inr (q, e) ↦ by_id_self l q p (ground (arith, e))
]

-- How many manifests the walk has not seen.
abbrev unseen : List String → List Manifest → ℕ
unseen seen [] = 0
unseen seen (m ∷ rest) = if includes seen m.id then unseen seen rest else suc (unseen seen rest)

unseen-le-length : (seen : List String) (l : List Manifest) → unseen seen l ≤ length l
unseen-le-length seen [] = omega arith
unseen-le-length seen (m ∷ l) = ground (arith, unseen-le-length seen l)

unseen-le :
    (s : String) (seen : List String) (l : List Manifest) → unseen (s ∷ seen) l ≤ unseen seen l
unseen-le s seen [] = omega arith
unseen-le s seen (m ∷ l) = ground (arith, unseen-le s seen l)

-- A step up to a manifest that is in the list and has not been seen leaves fewer unseen.
unseen-lt :
    (seen : List String) (l : List Manifest) (id : String) (m : Manifest)
    → by_id l id ≡ some m
    → includes seen id ≡ false
    → unseen (id ∷ seen) l < unseen seen l
unfolding by_id
unseen-lt seen [] id m h new = cc
unseen-lt seen (x ∷ l) id m h new = elim (Option-cases (by_id l id)) [
  | inl last ↦ elim (same-cases x.id id) [
    | inl (p, t) ↦
        let fresh : includes seen x.id ≡ false = rw p new in
        let hit : same id x.id ≡ true = rw p (same_refl id) in
        rw (fresh, hit) (omega (arith, unseen-le id seen l))
    | inr (p, t) ↦ ground (arith, last)
  ]
  | inr (y, found) ↦ ground (arith, unseen-lt seen l id y found new)
]

module _ (ms : List Manifest) where
  -- `m` stands `n` links above a backup that ends the chain.
  abbrev pub Ranked : ℕ → Manifest → Type 0
  Ranked zero m = is_root m ≡ true
  Ranked (suc n) m = (is_root m ≡ false) × (p : Manifest) × (parent_of ms m ≡ some p) × Ranked n p

  -- The data under `m` is all there.
  abbrev pub IsIntact : Manifest → Type 0
  IsIntact m = (n : ℕ) × Ranked n m

  -- A chain has one length.
  Ranked-unique : (n k : ℕ) (m : Manifest) → Ranked n m → Ranked k m → n ≡ k
  Ranked-unique zero zero m h g = refl
  Ranked-unique zero (suc k) m h g = cc (h, g.0)
  Ranked-unique (suc n) zero m h g = cc (h.0, g)
  Ranked-unique (suc n) (suc k) m (_, p, e, h) (_, q, e', g) =
      let same_parent : p ≡ q = cc (e, e') in ap suc (Ranked-unique n k p h (rw same_parent g))

  -- Each id seen so far stands higher above the end of the chain than `n`.
  abbrev SeenAbove : ℕ → List String → Type 0
  SeenAbove n [] = Unit
  SeenAbove n (s ∷ seen) =
      ((y : Manifest) × (k : ℕ) × (by_id ms s ≡ some y) × Ranked k y × (n < k)) × SeenAbove n seen

  SeenAbove-below : (n : ℕ) (seen : List String) → SeenAbove (suc n) seen → SeenAbove n seen
  SeenAbove-below n [] h = tt
  SeenAbove-below n (s ∷ seen) ((y, k, f, r, lt), h) =
      ((y, k, f, r, omega arith), SeenAbove-below n seen h)

  not_seen :
      (n : ℕ) (m : Manifest) (seen : List String)
      → by_id ms m.id ≡ some m
      → Ranked n m
      → SeenAbove n seen
      → includes seen m.id ≡ false
  not_seen n m [] self r h = refl
  not_seen n m (s ∷ seen) self r ((y, k, found, ry, lt), h) = elim (same-cases s m.id) [
    | inl (p, t) ↦
        let one : y ≡ m = cc (found, ap (by_id ms) p, self) in
        let ranks : k ≡ n = Ranked-unique k n m (rw one at ry) r in absurd (omega arith)
    | inr (p, t) ↦ rw t (not_seen n m seen self r h)
  ]

  module _ (size : String → ℕ) where
    walk_complete :
        (fuel n : ℕ) (seen : List String) (total : ℕ) (m : Manifest)
        → by_id ms m.id ≡ some m
        → Ranked n m
        → SeenAbove n seen
        → unseen seen ms < fuel
        → (walk ms size fuel seen total m).broken ≡ false
    unfolding walk
    walk_complete zero n seen total m self r above h = absurd (omega arith)
    walk_complete (suc fuel) zero seen total m self r above h =
        rw (not_seen zero m seen self r above, r)
    walk_complete (suc fuel) (suc n) seen total m self r above h =
        let new = not_seen (suc n) m seen self r above in
        let (deep, p, up, rp) = r in
        let more = unseen-lt seen ms m.id m self new in
        rw (new, deep, up)
          (walk_complete fuel n (m.id ∷ seen) (total + size m.id) p (parent_of-found ms m p up) rp
            ((m, suc n, self, r, omega arith), SeenAbove-below n seen above) (omega arith))

    walk_sound :
        (fuel : ℕ) (seen : List String) (total : ℕ) (m : Manifest)
        → (walk ms size fuel seen total m).broken ≡ false
        → IsIntact m
    unfolding walk
    walk_sound zero seen total m h = cc
    walk_sound (suc fuel) seen total m h = elim (Bool-cases (includes seen m.id)) [
      | inl again ↦ ground (arith, again)
      | inr new ↦ elim (Bool-cases (is_root m)) [
        | inl root ↦ (zero, root)
        | inr deep ↦ elim (Option-cases (parent_of ms m)) [
          | inl gone ↦ ground (arith, gone)
          | inr (p, up) ↦
              let (n, r) = walk_sound fuel (m.id ∷ seen) (total + size m.id) p (ground arith) in
              (suc n, (deep, p, up, r))
        ]
      ]
    ]

    -- The walk calls a chain broken exactly when the backups under it do not lead to the end of a chain: a full backup, or one that names no parent. Its fuel is always enough, and a cycle
    -- of parents is found.
    pub walk_chain_iff :
        (m : Manifest)
        → by_id ms m.id ≡ some m
        → ((walk_chain ms size m).broken ≡ false) ↔ IsIntact m
    unfolding walk_chain
    walk_chain_iff m self = (
      walk_sound (suc (length ms)) [] 0 m,
      λ (n, r).
          walk_complete (suc (length ms)) n [] 0 m self r tt
            (omega (arith, unseen-le-length [] ms)),
    )
