-- ===== src/Backup/Retention/Children.antt =====
-- The backups that name another as their parent, while some have been removed.
use virt_pilot.Common.{
  ◌+◌, ◌<◌, ◌≡◌, ◌≢◌, refl, sym, ap, ◌∙◌, inl, inr, String, false, some, List, [], ◌∷◌, Member,
  here, there, All, All-at, arith, same-cases, same_refl, includes, truthy, Bool-cases,
  Option-cases, ltb,
}
use virt_pilot.Backup.Types.{Entry}
use virt_pilot.Backup.Retention.Steps.{names, children}

-- Every id is that of one backup: it is the name of its directory.
abbrev pub HasUniqueIds : List Entry → Type 0
HasUniqueIds [] = Unit
HasUniqueIds (b ∷ bs) = All (λ c. c.id ≢ b.id) bs × HasUniqueIds bs

pub eq-of_id :
    {b c : Entry} {bs : List Entry}
    → Member b bs
    → Member c bs
    → HasUniqueIds bs
    → c.id ≡ b.id
    → c ≡ b
eq-of_id here here u e = refl
eq-of_id here (there m) u e = absurd (All-at _ m u.0 e)
eq-of_id (there m) here u e = absurd (All-at _ m u.0 (sym e))
eq-of_id (there m) (there m') u e = eq-of_id m m' u.1 e

children-cons-other :
    (removed : List String) (id p : String) (bs : List Entry)
    → All (λ c. c.id ≢ id) bs
    → children (id ∷ removed) p bs ≡ children removed p bs
children-cons-other removed id p [] h = refl
children-cons-other removed id p (b ∷ bs) (ne, h) = elim (same-cases id b.id) [
  | inl (e, t) ↦ absurd (ne (sym e))
  | inr (e, t) ↦ rw (t, children-cons-other removed id p bs h)
]

pub children-remove :
    (removed : List String) (p : String) {b : Entry} {bs : List Entry}
    → Member b bs
    → HasUniqueIds bs
    → includes removed b.id ≡ false
    → children (b.id ∷ removed) p bs + names b p ≡ children removed p bs
children-remove removed p {b} (here {xs = bs}) (others, u) new =
    rw (new, same_refl b.id, children-cons-other removed b.id p bs others) (omega arith)
children-remove removed p {b} (there {y = c} m) (others, u) new = elim (same-cases b.id c.id) [
  | inl (e, t) ↦ absurd (All-at _ m others e)
  | inr (e, t) ↦ rw t (omega (arith, children-remove removed p m u new))
]

-- A backup that is still there and names `p`.
abbrev pub KeptChild : List String → String → List Entry → Type 0
KeptChild removed p bs =
    (c : Entry) × Member c bs
    × (includes removed c.id ≡ false)
    × (truthy c.parent_backup_id ≡ some p)

parent-names : (b : Entry) (p : String) → 0 < names b p → truthy b.parent_backup_id ≡ some p
parent-names b p h = elim (Option-cases (truthy b.parent_backup_id)) [
  | inl e ↦ absurd (ground (arith, e))
  | inr (q, e) ↦ elim (same-cases q p) [
    | inl (one, t) ↦ e ∙ ap some one
    | inr (two, t) ↦ absurd (ground (arith, e))
  ]
]

pub child_of_count :
    (removed : List String) (p : String) (bs : List Entry)
    → 0 < children removed p bs
    → KeptChild removed p bs
child_of_count removed p [] h = absurd (omega arith)
child_of_count removed p (b ∷ bs) h = elim (Bool-cases (includes removed b.id)) [
  | inl gone ↦
      let (c, m, kept, up) = child_of_count removed p bs (ground (arith, gone)) in
      (c, there m, kept, up)
  | inr new ↦ elim (Bool-cases (ltb 0 (names b p))) [
    | inl votes ↦ (b, here, new, parent-names b p (ground arith))
    | inr not_this ↦
        let (c, m, kept, up) = child_of_count removed p bs (ground (arith, new)) in
        (c, there m, kept, up)
  ]
]
