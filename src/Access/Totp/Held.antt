-- ===== src/Access/Totp/Held.antt =====
-- What the map `used` remembers of a secret and a code.
use virt_pilot.Common.{
  ℕ, ◌+◌, ◌-◌, ◌≤◌, ◌≡◌, refl, sym, ap, ◌∙◌, inl, inr, true, false, not, Option, none, some, List,
  [], ◌∷◌, if◌then◌else◌, ltb, Bool-cases, arith,
}
use virt_pilot.Access.Totp.Code.{same_codes, same_codes_refl, same_codes_iff}
use virt_pilot.Access.Totp.Replay.{
  Used, key_of, used_at, is_some, is_replay, put, mark_used, sweep_used, Settings, readable,
}

pub apart :
    (i j k : List ℕ) → same_codes i j ≡ false → same_codes i k ≡ true → same_codes j k ≡ false
apart i j k e f = elim (Bool-cases (same_codes j k)) [
  | inl g ↦
      let i_is_j = (same_codes_iff i k).0 f ∙ sym ((same_codes_iff j k).0 g) in
      absurd (ground (arith, e, (same_codes_iff i j).1 i_is_j))
  | inr g ↦ g
]

pub used_at-put :
    (k j : List ℕ) (at : ℕ) (used : Used)
    → used_at k (put j at used) ≡ (if same_codes j k then some at else used_at k used)
unfolding used_at put
used_at-put k j at [] = refl
used_at-put k j at ((i, old) ∷ used) = elim (Bool-cases (same_codes i j)) [
  | inl e ↦ rw e (ground (arith, ap (λ x. same_codes x k) ((same_codes_iff i j).0 e)))
  | inr e ↦ rw e (elim (Bool-cases (same_codes i k)) [
    | inl f ↦
        ground (arith, f, e, ap (λ x. same_codes i x) ((same_codes_iff i k).0 f), apart i j k e f)
    | inr f ↦ ground (arith, f, used_at-put k j at used)
  ])
]

-- A sweep leaves what is at most two minutes old.
pub used_at-sweep :
    (k : List ℕ) (now : ℕ) (used : Used) (at : ℕ)
    → used_at k used ≡ some at
    → now ≤ at + 120000
    → used_at k (sweep_used now used) ≡ some at
unfolding used_at sweep_used
used_at-sweep k now [] at h fresh = h
used_at-sweep k now ((j, old) ∷ used) at h fresh = elim (Bool-cases (same_codes j k)) [
  | inl e ↦
      let here : old ≡ at = ground (arith, e, h) in
      let kept : not (ltb 120000 (now - old)) ≡ true = ground (arith, here, fresh) in
      rw kept (ground (arith, e, here))
  | inr e ↦
      let later : used_at k used ≡ some at = ground (arith, e, h) in
      let ih = used_at-sweep k now used at later fresh in
      elim (Bool-cases (not (ltb 120000 (now - old)))) [
        | inl f ↦ rw f (ground (arith, e, ih))
        | inr f ↦ rw f ih
      ]
]

pub secret_of : (s s' : Settings) → some s ≡ some s' → s.totp_secret ≡ s'.totp_secret
secret_of s s' e = ap (λ (o : Option Settings). elim o [ none ↦ none | some x ↦ x.totp_secret ]) e

pub readable-some :
    (o : Option (List ℕ)) (secret : List ℕ) → readable o ≡ some secret → o ≡ some secret
readable-some none secret e = absurd (ground (arith, e))
readable-some (some (c ∷ cs)) secret e = e
readable-some (some []) secret e = absurd (ground (arith, e))

-- The key has been there since `t` or later.
abbrev pub IsHeld : List ℕ → ℕ → Used → Type 0
IsHeld k t used = (at : ℕ) × (used_at k used ≡ some at) × (t ≤ at)

pub mark_used-IsHeld :
    (k secret code : List ℕ) (t now : ℕ) (used : Used)
    → t ≤ now
    → IsHeld k t used
    → IsHeld k t (mark_used secret code now used)
unfolding mark_used
mark_used-IsHeld k secret code t now used le (at, held, late) =
    elim (Bool-cases (same_codes (key_of secret code) k)) [
      | inl e ↦ (
        now,
        used_at-put k (key_of secret code) now used
            ∙ ap (λ b. if b then some now else used_at k used) e,
        le,
      )
      | inr e ↦ (
        at,
        used_at-put k (key_of secret code) now used
            ∙ ap (λ b. if b then some now else used_at k used) e
            ∙ held,
        late,
      )
    ]

pub mark_used-here :
    (secret code : List ℕ) (t : ℕ) (used : Used)
    → IsHeld (key_of secret code) t (mark_used secret code t used)
unfolding mark_used
mark_used-here secret code t used =
    let k = key_of secret code in
    (
      t,
      used_at-put k k t used ∙ ap (λ b. if b then some t else used_at k used) (same_codes_refl k),
      omega arith,
    )

pub held-ne-new :
    (secret code : List ℕ) (t : ℕ) (used : Used)
    → IsHeld (key_of secret code) t used
    → is_replay secret code used ≡ false
    → ⊥
unfolding is_replay
held-ne-new secret code t used (at, there, _) new = ground (arith, ap is_some there, new)
