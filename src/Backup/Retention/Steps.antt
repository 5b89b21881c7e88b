-- ===== src/Backup/Retention/Steps.antt =====
-- The removals of a retention pass as steps, and what holds after each of them, so also where an
-- error ends the pass half way.
use virt_pilot.Common.{
  ℕ, ◌+◌, ◌-◌, ◌≤◌, ◌≡◌, refl, ap, inl, inr, String, Bool, true, false, none, some, List, [], ◌∷◌,
  Member, here, there, arith, if◌then◌else◌, same, same-cases, same_refl, includes, truthy,
  Option-cases,
}
use virt_pilot.Backup.Types.{Entry}
use virt_pilot.Backup.Retention.{Counts, or_default, set_count, count_children, Peel, remove_one}

-- 1 if the backup names `p` as its parent.
abbrev pub names : Entry → String → ℕ
names b p = elim (truthy b.parent_backup_id) [ none ↦ 0 | some q ↦ if same q p then 1 else 0 ]

-- How many backups that are still there name `p` as their parent.
abbrev pub children : List String → String → List Entry → ℕ
children removed p [] = 0
children removed p (b ∷ bs) =
    (if includes removed b.id then 0 else names b p) + children removed p bs

pub count_children-children :
    (counts : Counts) (bs : List Entry) (p : String)
    → or_default (count_children counts bs p) 0 ≡ or_default (counts p) 0 + children [] p bs
unfolding count_children
count_children-children counts [] p = omega arith
count_children-children counts (b ∷ bs) p = elim (Option-cases (truthy b.parent_backup_id)) [
  | inl e ↦ ground (arith, e, count_children-children counts bs p)
  | inr (q, e) ↦ ground (
    arith,
    e,
    count_children-children (set_count counts q (or_default (counts q) 0 + 1)) bs p,
    same-cases q p,
  )
]

pub children-cons-le :
    (removed : List String) (id p : String) (bs : List Entry)
    → children (id ∷ removed) p bs ≤ children removed p bs
children-cons-le removed id p [] = omega arith
children-cons-le removed id p (b ∷ bs) = ground (arith, children-cons-le removed id p bs)

-- A removal takes the backup's own vote for its parent away.
pub children-remove-le :
    (removed : List String) (p : String) {b : Entry} {bs : List Entry}
    → Member b bs
    → includes removed b.id ≡ false
    → children (b.id ∷ removed) p bs + names b p ≤ children removed p bs
children-remove-le removed p {b} (here {xs = bs}) new =
    rw (new, same_refl b.id) (omega (arith, children-cons-le removed b.id p bs))
children-remove-le removed p {b} (there {y = c} m) new =
    ground (arith, children-remove-le removed p m new)

names-le-children :
    (removed : List String) (p : String) {c : Entry} {bs : List Entry}
    → Member c bs
    → includes removed c.id ≡ false
    → names c p ≤ children removed p bs
names-le-children removed p here kept = rw kept (omega arith)
names-le-children removed p (there m) kept = omega (arith, names-le-children removed p m kept)

pub names-parent : (c : Entry) (p : String) → truthy c.parent_backup_id ≡ some p → names c p ≡ 1
names-parent c p e = ground (arith, e, same_refl p)

-- What the round writes to `childCount`.
pub count-remove_one :
    (answers : String → Bool) (b : Entry) (s : Peel) (p : String)
    → or_default ((remove_one answers b s).child_count p) 0
      ≡ or_default (s.child_count p) 0 - names b p
unfolding remove_one
count-remove_one answers b s p = elim (Option-cases (truthy b.parent_backup_id)) [
  | inl e ↦ ground (arith, e)
  | inr (q, e) ↦ elim (same-cases q p) [
    | inl (one, t) ↦ ground (arith, e, ap s.child_count one)
    | inr (two, t) ↦ ground (arith, e)
  ]
]

pub removed-remove_one :
    (answers : String → Bool) (b : Entry) (s : Peel)
    → (remove_one answers b s).removed ≡ b.id ∷ s.removed
unfolding remove_one
removed-remove_one answers b s = refl

module _ (answers : String → Bool) (expired : Entry → Bool) (bs : List Entry) where
  pub data Peeled : Peel → Peel → Type 0 where
    stop : {s : Peel} → Peeled s s
    remove :
        {s u : Peel} (b : Entry)
        → Member b bs
        → includes s.removed b.id ≡ false
        → or_default (s.child_count b.id) 0 ≡ 0
        → expired b ≡ true
        → Peeled (remove_one answers b s) u
        → Peeled s u

  -- The counts cover every backup that is still there.
  abbrev pub IsCounted : Peel → Type 0
  IsCounted s = (p : String) → children s.removed p bs ≤ or_default (s.child_count p) 0

  -- No backup that is still there has lost its parent to the pass.
  abbrev pub IsRooted : Peel → Type 0
  IsRooted s =
      (c : Entry) (p : String)
      → Member c bs
      → includes s.removed c.id ≡ false
      → truthy c.parent_backup_id ≡ some p
      → includes s.removed p ≡ false

  remove_one-IsCounted :
      (b : Entry) (s : Peel)
      → Member b bs
      → includes s.removed b.id ≡ false
      → IsCounted s
      → IsCounted (remove_one answers b s)
  remove_one-IsCounted b s m new h p =
      rw (removed-remove_one, count-remove_one)
        (omega (arith, children-remove-le s.removed p m new, h p))

  remove_one-IsRooted :
      (b : Entry) (s : Peel)
      → or_default (s.child_count b.id) 0 ≡ 0
      → IsCounted s
      → IsRooted s
      → IsRooted (remove_one answers b s)
  remove_one-IsRooted b s leaf counted h c p m = rw removed-remove_one λ kept up.
      let kept' : includes s.removed c.id ≡ false = ground arith in
      elim (same-cases b.id p) [
        | inl (one, t) ↦
            let own : names c b.id ≡ 1 = names-parent c b.id (rw one up) in
            absurd (omega (arith, names-le-children s.removed b.id m kept', counted b.id))
        | inr (two, t) ↦ rw t (h c p m kept' up)
      ]

  -- After any number of removals, every backup that is left has its parent left.
  pub Peeled-IsRooted : {s u : Peel} → Peeled s u → IsCounted s → IsRooted s → IsRooted u
  Peeled-IsRooted stop counted h = h
  Peeled-IsRooted (remove {s = s} b m new leaf old rest) counted h =
      Peeled-IsRooted rest (remove_one-IsCounted b s m new counted)
        (remove_one-IsRooted b s leaf counted h)

pub start-IsCounted :
    (bs : List Entry) (p : String)
    → children [] p bs ≤ or_default (count_children (λ _. none) bs p) 0
start-IsCounted bs p = omega (arith, count_children-children (λ _. none) bs p)
