-- ===== src/Backup/Retention/Loop.antt =====
-- The loops of `applyRetention` make the removals of `Steps`, end, and leave nothing to remove.
use virt_pilot.Common.{
  ℕ, zero, suc, ◌+◌, ◌≤◌, ◌<◌, ◌≡◌, refl, ◌∙◌, ◌⊎◌, inl, inr, String, Bool, true, false, List, [],
  ◌∷◌, length, subst, Member, here, there, All, arith, if◌then◌else◌, same_refl, includes,
  Bool-cases, ltb,
}
use virt_pilot.Backup.Types.{Entry}
use virt_pilot.Backup.Retention.{or_default, Peel, visit, pass, peel}
use virt_pilot.Backup.Retention.Steps.{Peeled, stop, remove, removed-remove_one}

-- The backups that are still there.
abbrev pub left : List String → List Entry → ℕ
left removed [] = 0
left removed (b ∷ bs) = (if includes removed b.id then 0 else 1) + left removed bs

pub left-le-length : (removed : List String) (bs : List Entry) → left removed bs ≤ length bs
left-le-length removed [] = omega arith
left-le-length removed (b ∷ bs) = ground (arith, left-le-length removed bs)

left-cons-le :
    (removed : List String) (id : String) (bs : List Entry)
    → left (id ∷ removed) bs ≤ left removed bs
left-cons-le removed id [] = omega arith
left-cons-le removed id (b ∷ bs) = ground (arith, left-cons-le removed id bs)

pub left-cons-lt :
    (removed : List String) {b : Entry} {bs : List Entry}
    → Member b bs
    → includes removed b.id ≡ false
    → left (b.id ∷ removed) bs < left removed bs
left-cons-lt removed {b} (here {xs = bs}) new =
    rw (new, same_refl b.id) (omega (arith, left-cons-le removed b.id bs))
left-cons-lt removed (there {y = c} m) new = ground (arith, left-cons-lt removed m new)

module _ (answers : String → Bool) (expired : Entry → Bool) (bs : List Entry) where
  pub Peeled-trans :
      {s t u : Peel}
      → Peeled answers expired bs s t
      → Peeled answers expired bs t u
      → Peeled answers expired bs s u
  Peeled-trans stop q = q
  Peeled-trans (remove b m new leaf old rest) q = remove b m new leaf old (Peeled-trans rest q)

  visit-Peeled :
      (b : Entry) (s : Peel)
      → Member b bs
      → Peeled answers expired bs s (visit answers expired b s).0
  unfolding visit
  visit-Peeled b s m = elim (Bool-cases (includes s.removed b.id)) [
    | inl gone ↦ rw gone stop
    | inr new ↦ elim (Bool-cases (ltb 0 (or_default (s.child_count b.id) 0))) [
      | inl used ↦ rw (new, used) stop
      | inr leaf ↦ elim (Bool-cases (expired b)) [
        | inl old ↦ rw (new, leaf, old) (remove b m new (ground arith) old stop)
        | inr young ↦ rw (new, leaf, young) stop
      ]
    ]
  ]

  pub pass-Peeled :
      (l : List Entry) (s : Peel)
      → All (λ b. Member b bs) l
      → Peeled answers expired bs s (pass answers expired l s).0
  unfolding pass
  pass-Peeled [] s h = stop
  pass-Peeled (b ∷ l) s (m, h) =
      Peeled-trans (visit-Peeled b s m) (pass-Peeled l (visit answers expired b s).0 h)

  pub left-Peeled :
      {s u : Peel} → Peeled answers expired bs s u → left u.removed bs ≤ left s.removed bs
  left-Peeled stop = omega arith
  left-Peeled {u} (remove {s = s} b m new leaf old rest) =
      let rest' : left u.removed bs ≤ left (b.id ∷ s.removed) bs =
        rw (← removed-remove_one answers b s) (left-Peeled rest) in
      omega (arith, left-cons-lt s.removed m new)

  visit-progress :
      (b : Entry) (s : Peel)
      → Member b bs
      → (visit answers expired b s).1 ≡ true
      → left (visit answers expired b s).0.removed bs < left s.removed bs
  unfolding visit
  visit-progress b s m = elim (Bool-cases (includes s.removed b.id)) [
    | inl gone ↦ rw gone (cc)
    | inr new ↦ elim (Bool-cases (ltb 0 (or_default (s.child_count b.id) 0))) [
      | inl used ↦ rw (new, used) (cc)
      | inr leaf ↦ elim (Bool-cases (expired b)) [
        | inl old ↦ rw (new, leaf, old, removed-remove_one) (λ _. left-cons-lt s.removed m new)
        | inr young ↦ rw (new, leaf, young) (cc)
      ]
    ]
  ]

  pub pass-progress :
      (l : List Entry) (s : Peel)
      → All (λ b. Member b bs) l
      → (pass answers expired l s).1 ≡ true
      → left (pass answers expired l s).0.removed bs < left s.removed bs
  unfolding pass
  pass-progress [] s h p = cc
  pass-progress (b ∷ l) s (m, h) p =
      let s' = (visit answers expired b s).0 in
      let down = left-Peeled (visit-Peeled b s m) in
      let down' = left-Peeled (pass-Peeled l s' h) in
      elim (Bool-cases (visit answers expired b s).1) [
        | inl e ↦ omega (arith, visit-progress b s m e)
        | inr e ↦ omega (arith, pass-progress l s' h (rw e at p))
      ]

  -- A round that does nothing has found a reason to.
  abbrev pub IsSettled : Peel → Entry → Type 0
  IsSettled s b =
      (includes s.removed b.id ≡ true)
      ⊎ ((0 < or_default (s.child_count b.id) 0) ⊎ (expired b ≡ false))

  visit-idle :
      (b : Entry) (s : Peel)
      → (visit answers expired b s).1 ≡ false
      → ((visit answers expired b s).0 ≡ s) × IsSettled s b
  unfolding visit
  visit-idle b s = elim (Bool-cases (includes s.removed b.id)) [
    | inl gone ↦ rw gone (λ _. (refl, inl refl))
    | inr new ↦ elim (Bool-cases (ltb 0 (or_default (s.child_count b.id) 0))) [
      | inl used ↦ rw (new, used) (λ _. (refl, inr (inl (ground arith))))
      | inr leaf ↦ elim (Bool-cases (expired b)) [
        | inl old ↦ rw (new, leaf, old) (cc)
        | inr young ↦ rw (new, leaf, young) (λ _. (refl, inr (inr refl)))
      ]
    ]
  ]

  pub pass-idle :
      (l : List Entry) (s : Peel)
      → (pass answers expired l s).1 ≡ false
      → ((pass answers expired l s).0 ≡ s) × All (IsSettled s) l
  unfolding pass
  pass-idle [] s h = (refl, tt)
  pass-idle (b ∷ l) s h = elim (Bool-cases (visit answers expired b s).1) [
    | inl e ↦ absurd (ground (arith, e))
    | inr e ↦
        let (unmoved, settled) = visit-idle b s e in
        let (unmoved', settled') = pass-idle l (visit answers expired b s).0 (rw e at h) in
        (unmoved' ∙ unmoved, (settled, subst (λ t. All (IsSettled t) l) unmoved settled'))
  ]

  pub peel-idle :
      (fuel : ℕ) (s : Peel)
      → All (λ b. Member b bs) bs
      → left s.removed bs < fuel
      → (pass answers expired bs (peel answers expired fuel bs s)).1 ≡ false
  unfolding peel
  peel-idle zero s all h = absurd (omega arith)
  peel-idle (suc fuel) s all h = elim (Bool-cases (pass answers expired bs s).1) [
    | inl more ↦ rw more (
        peel-idle fuel (pass answers expired bs s).0 all
          (omega (arith, pass-progress bs s all more)))
    | inr done ↦ rw done (rw (pass-idle bs s done).0 done)
  ]

  pub peel-Peeled :
      (fuel : ℕ) (s : Peel)
      → All (λ b. Member b bs) bs
      → Peeled answers expired bs s (peel answers expired fuel bs s)
  unfolding peel
  peel-Peeled zero s all = stop
  peel-Peeled (suc fuel) s all = elim (Bool-cases (pass answers expired bs s).1) [
    | inl more ↦
        rw more
          (Peeled-trans (pass-Peeled bs s all) (peel-Peeled fuel (pass answers expired bs s).0 all))
    | inr done ↦ rw done (pass-Peeled bs s all)
  ]
