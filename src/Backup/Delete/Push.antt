-- ===== src/Backup/Delete/Push.antt =====
-- What one round of `collectDescendants` adds to the search.
use virt_pilot.Common.{
  ◌≡◌, refl, ap, ◌∙◌, ◌⊎◌, inl, inr, String, true, some, List, [], ◌∷◌, ◌++◌, Member, here, there,
  All, arith, if◌then◌else◌, same, same-cases, same_refl, same→eq, includes, truthy, Bool-cases,
  Option-cases, ◌||◌, map,
}
use virt_pilot.Backup.Types.{Entry}
use virt_pilot.Backup.Delete.{is_child_of, children_of, Search, push_children}

abbrev pub Has : List String → String → Type 0
Has l x = includes l x ≡ true

-- `b` is built on the backup `root`, by any number of links.
pub data Descends (bs : List Entry) (root : String) : Entry → Type 0 where
  child : {b : Entry} → Member b bs → truthy b.parent_backup_id ≡ some root → Descends bs root b
  above :
      {b : Entry} (c : Entry)
      → Descends bs root c
      → Member b bs
      → truthy b.parent_backup_id ≡ some c.id
      → Descends bs root b

pub parent-is_child_of :
    (p : String) (b : Entry) → is_child_of p b ≡ true → truthy b.parent_backup_id ≡ some p
parent-is_child_of p b h = elim (Option-cases (truthy b.parent_backup_id)) [
  | inl e ↦ absurd (ground (arith, e))
  | inr (q, e) ↦ e ∙ ap some (same→eq q p (ground (arith, e)))
]

pub is_child_of-parent :
    (p : String) (b : Entry) → truthy b.parent_backup_id ≡ some p → is_child_of p b ≡ true
is_child_of-parent p b e = ground (arith, e, same_refl p)

module _ (bs : List Entry) where
  abbrev pub IsChild : String → Entry → Type 0
  IsChild p c = Member c bs × (truthy c.parent_backup_id ≡ some p)

  pub children_of_sound :
      (p : String) (l : List Entry) → All (λ b. Member b bs) l → All (IsChild p) (children_of l p)
  children_of_sound p [] h = tt
  children_of_sound p (b ∷ l) (m, h) = elim (Bool-cases (is_child_of p b)) [
    | inl e ↦ rw e ((m, parent-is_child_of p b e), children_of_sound p l h)
    | inr e ↦ rw e (children_of_sound p l h)
  ]

pub children_of-complete :
    (p : String) (c : Entry) (bs : List Entry)
    → Member c bs
    → truthy c.parent_backup_id ≡ some p
    → Member c (children_of bs p)
children_of-complete p c [] m e = elim m [ ]
children_of-complete p c (b ∷ bs) here e = rw (is_child_of-parent p c e) here
children_of-complete p c (b ∷ bs) (there m) e = elim (Bool-cases (is_child_of p b)) [
  | inl t ↦ rw t (there (children_of-complete p c bs m e))
  | inr t ↦ rw t (children_of-complete p c bs m e)
]

-- What one round of the inner loop does to the search.
abbrev pub found : Entry → Search → Search
found c s =
    if includes s.seen c.id
    then s
    else record { stack = c.id ∷ s.stack; seen = c.id ∷ s.seen; out = s.out ++ c ∷ [] }

module _ (x : String) where
  pub push-seen : (cs : List Entry) (s : Search) → Has s.seen x → Has (push_children cs s).seen x
  unfolding push_children
  push-seen [] s h = h
  push-seen (c ∷ cs) s h = push-seen cs (found c s) (ground arith)

  pub push-stack : (cs : List Entry) (s : Search) → Has s.stack x → Has (push_children cs s).stack x
  unfolding push_children
  push-stack [] s h = h
  push-stack (c ∷ cs) s h = push-stack cs (found c s) (ground arith)

  pub push-new :
      (cs : List Entry) (s : Search)
      → Has (push_children cs s).seen x
      → Has s.seen x ⊎ Has (push_children cs s).stack x
  unfolding push_children
  push-new [] s h = inl h
  push-new (c ∷ cs) s h = elim (push-new cs (found c s) h) [
    | inr on_stack ↦ inr on_stack
    | inl before ↦ elim (Bool-cases (includes s.seen c.id)) [
      | inl old ↦ inl (ground (arith, old))
      | inr new ↦ elim (same-cases c.id x) [
        | inl (e, t) ↦ inr (push-stack cs (found c s) (ground (arith, new, t)))
        | inr (e, t) ↦ inl (ground (arith, new, t))
      ]
    ]
  ]

  pub push-pending :
      (cs : List Entry) (s : Search)
      → (Has s.stack x → Has s.seen x)
      → Has (push_children cs s).stack x
      → Has (push_children cs s).seen x
  unfolding push_children
  push-pending [] s h on = h on
  push-pending (c ∷ cs) s h on =
      push-pending cs (found c s)
        (elim (Bool-cases (includes s.seen c.id)) [
          | inl old ↦ rw old h
          | inr new ↦ elim (same-cases c.id x) [
            | inl (e, t) ↦ rw (new, t) (λ _. refl)
            | inr (e, t) ↦ rw (new, t) h
          ]
        ])
        on

pub push-child :
    (c : Entry) (cs : List Entry) (s : Search) → Member c cs → Has (push_children cs s).seen c.id
unfolding push_children
push-child c [] s m = elim m [ ]
push-child c (b ∷ cs) s here = push-seen c.id cs (found b s) (ground (arith, same_refl c.id))
push-child c (b ∷ cs) s (there m) = push-child c cs (found b s) m

pub ids-snoc :
    (x : String) (bs : List Entry) (c : Entry)
    → includes (map (λ b. b.id) (bs ++ c ∷ [])) x ≡ (includes (map (λ b. b.id) bs) x || same c.id x)
ids-snoc x [] c = ground arith
ids-snoc x (b ∷ bs) c = ground (arith, ids-snoc x bs c)
