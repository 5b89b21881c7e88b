-- ===== src/Vxlan/Limits.antt =====
-- The constants of packages/backend/src/lib/vxlan.ts, `nextFreeVni`, `defaultVxlanMtu` and the range
-- checks of the forms. A raw value is what `wholeNumber` reads from it, none for NaN.
use virt_pilot.Common.{
  ℕ, zero, suc, ◌+◌, ◌-◌, ◌≤◌, ◌<◌, ◌≡◌, sym, ap, ◌∙◌, inl, inr, min, max, Bool, true, false, ◌||◌,
  Option, none, some, List, [], ◌∷◌, if◌then◌else◌, ltb, ◌==◌, arith, Bool-cases, Option-cases, ◌↔◌,
  ◌⊎◌,
}

abbrev pub vni_min : ℕ
vni_min = 1

abbrev pub vni_max : ℕ
vni_max = 16777215

abbrev pub vni_first_auto : ℕ
vni_first_auto = 100

abbrev pub vxlan_overhead : ℕ
vxlan_overhead = 50

abbrev pub vxlan_tag_room : ℕ
vxlan_tag_room = 8

abbrev pub vxlan_default_mtu : ℕ
vxlan_default_mtu = 1500 - vxlan_overhead - vxlan_tag_room

abbrev pub vxlan_mtu_min : ℕ
vxlan_mtu_min = 576

abbrev pub vxlan_mtu_max : ℕ
vxlan_mtu_max = 9000

-- `throw` is none.
unfoldable pub parse_vni : Option ℕ → Option ℕ
parse_vni none = none
parse_vni (some n) = if ltb n vni_min || ltb vni_max n then none else some n

-- The host's link, none where its MTU is not known or not finite. The source's `-` may go below zero, under the minimum.
unfoldable pub default_vxlan_mtu : Option ℕ → ℕ
default_vxlan_mtu none = vxlan_default_mtu
default_vxlan_mtu (some m) =
    if m == 0
    then vxlan_default_mtu
    else max vxlan_mtu_min (min vxlan_default_mtu (m - vxlan_overhead - vxlan_tag_room))

-- `Set.prototype.has`
abbrev pub has : ℕ → List ℕ → Bool
has v [] = false
has v (t ∷ ts) = v == t || has v ts

-- `for (v = from; v < from + rounds; v++) if (!taken.has(v)) return v`
unfoldable pub first_free : ℕ → ℕ → List ℕ → Option ℕ
first_free zero from taken = none
first_free (suc rounds) from taken = elim (has from taken) [
  | false ↦ some from
  | true ↦ first_free rounds (suc from) taken
]

abbrev pub or_else : Option ℕ → Option ℕ → Option ℕ
or_else none b = b
or_else (some v) b = some v

unfoldable pub next_free_vni : List ℕ → ℕ → Option ℕ
next_free_vni used start_at =
    or_else (first_free (suc vni_max - start_at) start_at used)
      (first_free (start_at - vni_min) vni_min used)

first_free-found :
    (rounds from v : ℕ) (taken : List ℕ)
    → first_free rounds from taken ≡ some v
    → (from ≤ v) × (v < from + rounds) × (has v taken ≡ false)
unfolding first_free
first_free-found zero from v taken e = absurd (ground (arith, e))
first_free-found (suc rounds) from v taken e = elim (Bool-cases (has from taken)) [
  | inl t ↦
      let (low, high, free) = first_free-found rounds (suc from) v taken (ground (arith, e, t)) in
      (omega (arith, low), omega (arith, high), free)
  | inr t ↦
      let one : from ≡ v = ground (arith, e, t) in
      (omega (arith, one), omega (arith, one), ap (λ w. has w taken) (sym one) ∙ t)
]

first_free-none :
    (rounds from v : ℕ) (taken : List ℕ)
    → first_free rounds from taken ≡ none
    → from ≤ v
    → v < from + rounds
    → has v taken ≡ true
unfolding first_free
first_free-none zero from v taken e low high = absurd (omega (arith, low, high))
first_free-none (suc rounds) from v taken e low high = elim (Bool-cases (has from taken)) [
  | inr t ↦ absurd (ground (arith, e, t))
  | inl t ↦ elim (Bool-cases (from == v)) [
    | inl same_one ↦ ap (λ w. has w taken) (ground (arith, same_one)) ∙ t
    | inr other ↦
        first_free-none rounds (suc from) v taken (ground (arith, e, t))
          (ground (arith, low, other)) (omega (arith, high))
  ]
]

next_first :
    (used : List ℕ) (start_at w : ℕ)
    → first_free (suc vni_max - start_at) start_at used ≡ some w
    → next_free_vni used start_at ≡ some w
unfolding next_free_vni
next_first used start_at w e = ap (λ o. or_else o (first_free (start_at - vni_min) vni_min used)) e

next_second :
    (used : List ℕ) (start_at : ℕ)
    → first_free (suc vni_max - start_at) start_at used ≡ none
    → next_free_vni used start_at ≡ first_free (start_at - vni_min) vni_min used
unfolding next_free_vni
next_second used start_at e = ap (λ o. or_else o (first_free (start_at - vni_min) vni_min used)) e

some_inj : {a b : ℕ} → some a ≡ some b → a ≡ b
some_inj e = ground (arith, e)

-- From a start in range, an ID that is given out is in range and not used.
pub next_free_vni-free :
    (used : List ℕ) (start_at v : ℕ)
    → vni_min ≤ start_at
    → start_at ≤ vni_max
    → next_free_vni used start_at ≡ some v
    → (vni_min ≤ v) × (v ≤ vni_max) × (has v used ≡ false)
next_free_vni-free used start_at v low high e =
    elim (Option-cases (first_free (suc vni_max - start_at) start_at used)) [
      | inr (w, t) ↦
          let same_one = some_inj (sym (next_first used start_at w t) ∙ e) in
          let (above, below, free) = first_free-found (suc vni_max - start_at) start_at w used t in
          (
            omega (arith, same_one, above),
            omega (arith, same_one, below, high),
            ap (λ x. has x used) (sym same_one) ∙ free,
          )
      | inl t ↦
          let (above, below, free) =
            first_free-found (start_at - vni_min) vni_min v used
              (sym (next_second used start_at t) ∙ e) in
          (above, omega (arith, below, high), free)
    ]

module _ (used : List ℕ) (start_at : ℕ) (low : vni_min ≤ start_at) (high : start_at ≤ vni_max) where
  none-taken :
      next_free_vni used start_at ≡ none → (v : ℕ) → vni_min ≤ v → v ≤ vni_max → has v used ≡ true
  none-taken e v above below =
      elim (Option-cases (first_free (suc vni_max - start_at) start_at used)) [
        | inr (w, t) ↦ absurd (ground (arith, next_first used start_at w t, e))
        | inl t ↦ elim (Bool-cases (ltb v start_at)) [
          | inl early ↦
              first_free-none (start_at - vni_min) vni_min v used
                (sym (next_second used start_at t) ∙ e) above (ground (arith, early, low))
          | inr late ↦
              first_free-none (suc vni_max - start_at) start_at v used t (ground (arith, late))
                (omega (arith, below, high))
        ]
      ]

  taken-none :
      ((v : ℕ) → vni_min ≤ v → v ≤ vni_max → has v used ≡ true) → next_free_vni used start_at ≡ none
  taken-none full = elim (Option-cases (next_free_vni used start_at)) [
    | inl e ↦ e
    | inr (v, e) ↦
        let (above, below, free) = next_free_vni-free used start_at v low high e in
        absurd (ground (arith, free, full v above below))
  ]

-- From a start in range, none is given out exactly when every ID in range is used.
pub next_free_vni-none_iff :
    (used : List ℕ) (start_at : ℕ)
    → vni_min ≤ start_at
    → start_at ≤ vni_max
    → (next_free_vni used start_at ≡ none)
      ↔ ((v : ℕ) → vni_min ≤ v → v ≤ vni_max → has v used ≡ true)
next_free_vni-none_iff used start_at low high =
    (none-taken used start_at low high, taken-none used start_at low high)

-- For a link of known MTU, the default is 576 where a frame of 576 bytes with the overhead and two tags would not fit
-- the link; otherwise it is the largest with which such a frame fits both the link and a standard Ethernet network of
-- 1500 bytes.
pub default_vxlan_mtu-IsLargest :
    (m : ℕ)
    → 0 < m
    → ((m < 576 + 50 + 8) × (default_vxlan_mtu (some m) ≡ 576))
      ⊎ ((default_vxlan_mtu (some m) + 50 + 8 ≤ m)
          × (default_vxlan_mtu (some m) + 50 + 8 ≤ 1500)
          × ((k : ℕ) → k + 50 + 8 ≤ m → k + 50 + 8 ≤ 1500 → k ≤ default_vxlan_mtu (some m)))
unfolding default_vxlan_mtu
default_vxlan_mtu-IsLargest m known = elim (Bool-cases (ltb m 634)) [
  | inl small ↦ inl (ground (arith, small), ground (arith, small, known))
  | inr large ↦ inr (
    ground (arith, large, known),
    ground (arith, large, known),
    λ k in_link in_standard. ground (arith, large, known, in_link, in_standard),
  )
]
