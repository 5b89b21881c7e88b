-- ===== src/Backup/Delete/Collect.antt =====
-- `collectDescendants` collects exactly the backups that lie above one, and ends.
use virt_pilot.Common.{
  ℕ, zero, suc, ◌+◌, ◌≤◌, ◌<◌, ◌≡◌, ◌≢◌, sym, ap, ◌∙◌, ◌⊎◌, inl, inr, String, some, List, [], ◌∷◌,
  length, Member, All, All-snoc, All-map, members, arith, same, same-cases, same_refl, includes,
  truthy, Bool-cases, List-cases, ◌||◌, map,
}
use virt_pilot.Backup.Types.{Entry}
use virt_pilot.Backup.Retention.Loop.{left, left-le-length, left-cons-lt}
use virt_pilot.Backup.Delete.{
  children_of, Search, push_children, descend, start_search, collect_descendants,
}
use virt_pilot.Backup.Delete.Push.{
  Has, Descends, IsChild, children_of_sound, children_of-complete, found, push-seen, push-stack,
  push-new, push-pending, push-child, ids-snoc, child, above,
}

module _ (bs : List Entry) (root : String) where
  -- The children of what has been seen have been seen, but for what is on the stack.
  abbrev IsClosed : Search → Type 0
  IsClosed s =
      (c : Entry) (p : String)
      → Member c bs
      → truthy c.parent_backup_id ≡ some p
      → Has s.seen p
      → Has s.stack p ⊎ Has s.seen c.id

  push-IsClosed :
      (id : String) (rest : List String) (s : Search)
      → s.stack ≡ id ∷ rest
      → IsClosed s
      → IsClosed (push_children (children_of bs id) (record s { stack = rest }))
  push-IsClosed id rest s top h c p m up seen =
      let cs = children_of bs id in
      let s' : Search = record s { stack = rest } in
      elim (push-new p cs s' seen) [
        | inr on_stack ↦ inl on_stack
        | inl before ↦ elim (h c p m up before) [
          | inr old ↦ inr (push-seen c.id cs s' old)
          | inl waiting ↦ elim (same-cases id p) [
            | inl (e, t) ↦ inr (push-child c cs s' (children_of-complete id c bs m (rw e up)))
            | inr (e, t) ↦ inl (push-stack p cs s' (ground (arith, top, t, waiting)))
          ]
        ]
      ]

  -- What has been seen is the root and what has been collected.
  abbrev IsCollected : Search → Type 0
  IsCollected s =
      (x : String) → includes s.seen x ≡ (same root x || includes (map (λ b. b.id) s.out) x)

  -- What has been collected is built on the root.
  abbrev IsAbove : Search → Type 0
  IsAbove s = All (Descends bs root) s.out

  push-IsCollected :
      (cs : List Entry) (s : Search) → IsCollected s → IsCollected (push_children cs s)
  unfolding push_children
  push-IsCollected [] s h = h
  push-IsCollected (c ∷ cs) s h =
      push-IsCollected cs (found c s) λ x. ground (arith, h x, ids-snoc x s.out c)

  push-IsAbove :
      (cs : List Entry) (s : Search)
      → All (Descends bs root) cs
      → IsAbove s
      → IsAbove (push_children cs s)
  unfolding push_children
  push-IsAbove [] s new h = h
  push-IsAbove (c ∷ cs) s (d, new) h =
      push-IsAbove cs (found c s) new (elim (Bool-cases (includes s.seen c.id)) [
        | inl old ↦ rw old h
        | inr fresh ↦ rw fresh (All-snoc (Descends bs root) s.out c h d)
      ])

  found_measure :
      (c : Entry) (s : Search)
      → Member c bs
      → length (found c s).stack + left (found c s).seen bs ≤ length s.stack + left s.seen bs
  found_measure c s m = elim (Bool-cases (includes s.seen c.id)) [
    | inl old ↦ ground (arith, old)
    | inr fresh ↦ ground (arith, fresh, left-cons-lt s.seen m fresh)
  ]

  push_measure :
      (cs : List Entry) (s : Search)
      → All (λ c. Member c bs) cs
      → length (push_children cs s).stack + left (push_children cs s).seen bs
        ≤ length s.stack + left s.seen bs
  unfolding push_children
  push_measure [] s m = omega arith
  push_measure (c ∷ cs) s (m, ms) =
      omega (arith, push_measure cs (found c s) ms, found_measure c s m)

  IsChild-Descends :
      (id : String) (s : Search) (cs : List Entry)
      → IsCollected s
      → IsAbove s
      → Has s.seen id
      → All (IsChild bs id) cs
      → All (Descends bs root) cs
  IsChild-Descends id s cs collected above_all seen h = All-map _ _ cs descends h
    where
      from :
          (c : Entry) (out : List Entry)
          → All (Descends bs root) out
          → IsChild bs id c
          → Has (map (λ b. b.id) out) id
          → Descends bs root c
      from c [] d child_of has = cc
      from c (b ∷ out) (d, ds) (m, up) has = elim (same-cases b.id id) [
        | inl (e, t) ↦ above b d m (rw e up)
        | inr (e, t) ↦ from c out ds (m, up) (ground (arith, has, t))
      ]

      descends : (c : Entry) → IsChild bs id c → Descends bs root c
      descends c (m, up) = elim (same-cases root id) [
        | inl (e, t) ↦ child m (rw e up)
        | inr (e, t) ↦ from c s.out above_all (m, up) (ground (arith, t, seen, collected id))
      ]

  -- The loop keeps its invariant, and with enough fuel it empties the stack.
  pub record IsSearch (s : Search) : Type 0 where
    pub closed : IsClosed s
    pub collected : IsCollected s
    pub above_root : IsAbove s
    pub pending : (x : String) → Has s.stack x → Has s.seen x

  push-IsSearch :
      (id : String) (rest : List String) (s : Search)
      → s.stack ≡ id ∷ rest
      → IsSearch s
      → IsSearch (push_children (children_of bs id) (record s { stack = rest }))
  push-IsSearch id rest s top h =
      let s' : Search = record s { stack = rest } in
      let own : Has s.seen id = h.pending id (ground (arith, top, same_refl id)) in
      let down =
        IsChild-Descends id s (children_of bs id) h.collected h.above_root own
          (children_of_sound bs id bs (members bs)) in
      record {
        closed = push-IsClosed id rest s top h.closed;
        collected = push-IsCollected (children_of bs id) s' h.collected;
        above_root = push-IsAbove (children_of bs id) s' down h.above_root;
        pending = λ x on.
            push-pending x (children_of bs id) s' (λ y. h.pending x (ground (arith, top, y))) on;
      }

  descend-done : (fuel : ℕ) (s : Search) → s.stack ≡ [] → descend bs (suc fuel) s ≡ s
  unfolding descend
  descend-done fuel s e = ground (arith, e)

  descend-round :
      (fuel : ℕ) (s : Search) (id : String) (rest : List String)
      → s.stack ≡ id ∷ rest
      → descend bs (suc fuel) s
        ≡ descend bs fuel (push_children (children_of bs id) (record s { stack = rest }))
  unfolding descend
  descend-round fuel s id rest e = ground (arith, e)

  descend-IsSearch : (fuel : ℕ) (s : Search) → IsSearch s → IsSearch (descend bs fuel s)
  unfolding descend
  descend-IsSearch zero s h = h
  descend-IsSearch (suc fuel) s h = elim (List-cases s.stack) [
    | inl e ↦ rw (descend-done fuel s e) h
    | inr (id, rest, e) ↦
        rw (descend-round fuel s id rest e) (descend-IsSearch fuel _ (push-IsSearch id rest s e h))
  ]

  descend-stack :
      (fuel : ℕ) (s : Search)
      → length s.stack + left s.seen bs < fuel
      → (descend bs fuel s).stack ≡ []
  unfolding descend
  descend-stack zero s h = absurd (omega arith)
  descend-stack (suc fuel) s h = elim (List-cases s.stack) [
    | inl e ↦ ap (λ t. t.stack) (descend-done fuel s e) ∙ e
    | inr (id, rest, e) ↦
        let s' : Search = record s { stack = rest } in
        let less =
          push_measure (children_of bs id) s'
            (All-map _ _ _ (λ c h. h.0) (children_of_sound bs id bs (members bs))) in
        let len : length s.stack ≡ suc (length rest) = ap length e in
        ap (λ t. t.stack) (descend-round fuel s id rest e) ∙ descend-stack fuel _ (omega arith)
  ]

  -- The root is not collected.
  abbrev IsFresh : Search → Type 0
  IsFresh s = Has s.seen root × All (λ b. b.id ≢ root) s.out

  push-IsFresh : (cs : List Entry) (s : Search) → IsFresh s → IsFresh (push_children cs s)
  unfolding push_children
  push-IsFresh [] s h = h
  push-IsFresh (c ∷ cs) s (seen, h) =
      push-IsFresh cs (found c s) (elim (Bool-cases (includes s.seen c.id)) [
        | inl old ↦ rw old (seen, h)
        | inr new ↦ elim (same-cases c.id root) [
          | inl (e, t) ↦ absurd (ground (arith, new, seen, ap (includes s.seen) e))
          | inr (e, t) ↦ rw (new, t) (seen, All-snoc (λ b. b.id ≢ root) s.out c h e)
        ]
      ])

  descend-IsFresh : (fuel : ℕ) (s : Search) → IsFresh s → IsFresh (descend bs fuel s)
  unfolding descend
  descend-IsFresh zero s h = h
  descend-IsFresh (suc fuel) s h = elim (List-cases s.stack) [
    | inl e ↦ rw (descend-done fuel s e) h
    | inr (id, rest, e) ↦
        rw (descend-round fuel s id rest e)
          (descend-IsFresh fuel _ (push-IsFresh (children_of bs id) (record s { stack = rest }) h))
  ]

  pub collect_descendants-fresh : All (λ b. b.id ≢ root) (collect_descendants bs root)
  unfolding collect_descendants
  collect_descendants-fresh =
      (descend-IsFresh (suc (suc (length bs))) (start_search root)
        (ground (arith, same_refl root), tt)).1

  -- What is built on the root, other than itself, shows a child of the root that is not the root.
  pub first_child :
      {b : Entry}
      → Descends bs root b
      → b.id ≢ root
      → (c : Entry) × Member c bs × (truthy c.parent_backup_id ≡ some root) × (c.id ≢ root)
  first_child (child {b = b} m up) other = (b, m, up, other)
  first_child (above {b = b} c d m up) other = elim (same-cases c.id root) [
    | inl (e, t) ↦ (b, m, up ∙ ap some e, other)
    | inr (e, t) ↦ first_child d e
  ]

  start-IsSearch : IsSearch (start_search root)
  start-IsSearch = record {
    closed = λ c p m up seen. inl seen;
    collected = λ x. ground arith;
    above_root = tt;
    pending = λ x on. on;
  }

  -- A backup is collected exactly when it is built on the root and is not the root itself: first, what is collected; then, that the children of the root and of what is collected are collected.
  pub collect_descendants_sound : All (Descends bs root) (collect_descendants bs root)
  unfolding collect_descendants
  collect_descendants_sound =
      (descend-IsSearch (suc (suc (length bs))) (start_search root) start-IsSearch).above_root

  pub collect_descendants-closed :
      (c : Entry) (p : String)
      → Member c bs
      → truthy c.parent_backup_id ≡ some p
      → Has (root ∷ map (λ b. b.id) (collect_descendants bs root)) p
      → Has (root ∷ map (λ b. b.id) (collect_descendants bs root)) c.id
  unfolding collect_descendants
  collect_descendants-closed c p m up has =
      let fuel = suc (suc (length bs)) in
      let done = descend-IsSearch fuel (start_search root) start-IsSearch in
      let empty =
        descend-stack fuel (start_search root) (ground (arith, left-le-length (root ∷ []) bs)) in
      elim (done.closed c p m up (done.collected p ∙ has)) [
        | inl on_stack ↦ absurd (ground (arith, empty, on_stack))
        | inr seen ↦ sym (done.collected c.id) ∙ seen
      ]
