-- ===== src/Net/Pool/Unique.antt =====
-- No address is given out twice on a network, and what is given out lies in it: the invariant of the two stores.
use virt_pilot.Common.{
  ℕ, ◌≡◌, refl, sym, ap, ◌∙◌, subst, ◌⊎◌, inl, inr, Bool, true, false, not, ◌&&◌, ◌||◌, Option,
  none, some, List, [], ◌∷◌, ◌++◌, keep, All, All-snoc, if◌then◌else◌, Bool-cases, String, same,
  same-cases, arith,
}
use virt_pilot.Net.Pool.Store.{
  Address, Network, IpAllocation, network_of, is_gateway, is_between, may_have, is_taken,
  allocate_specific_ip,
}

-- No row has the network and the text of a later one.
abbrev pub Distinct : List IpAllocation → Type 0
Distinct [] = Unit {0}
Distinct (x ∷ xs) = (is_taken x.network_id x.address xs ≡ false) × Distinct xs

-- An address that its network, where it is known, can give out.
abbrev pub Fits : Option Network → Address → Type 0
Fits none a = Unit {0}
Fits (some n) a = (is_between a n.cidr && not (is_gateway a n.gateway)) ≡ true

abbrev pub AllFit : List Network → List IpAllocation → Type 0
AllFit networks rows = All (λ r. Fits (network_of r.network_id networks) r.address) rows

is_taken-keep :
    (test : IpAllocation → Bool) (id : String) (a : Address) (rows : List IpAllocation)
    → is_taken id a rows ≡ false
    → is_taken id a (keep test rows) ≡ false
unfolding is_taken
is_taken-keep test id a [] h = refl
is_taken-keep test id a (x ∷ xs) h =
    let ih = is_taken-keep test id a xs (ground (arith, h)) in
    elim (Bool-cases (test x)) [ inl e ↦ rw e (ground (arith, h, ih)) | inr e ↦ rw e ih ]

pub Distinct-keep :
    (test : IpAllocation → Bool) (rows : List IpAllocation)
    → Distinct rows
    → Distinct (keep test rows)
Distinct-keep test [] h = tt
Distinct-keep test (x ∷ xs) h =
    elim (test x) as (λ b. Distinct (if b then x ∷ keep test xs else keep test xs)) [
      | true ↦ (is_taken-keep test x.network_id x.address xs h.0, Distinct-keep test xs h.1)
      | false ↦ Distinct-keep test xs h.1
    ]

All-keep :
    (P : IpAllocation → Type 0) (test : IpAllocation → Bool) (rows : List IpAllocation)
    → All P rows
    → All P (keep test rows)
All-keep P test [] h = tt
All-keep P test (x ∷ xs) h =
    elim (test x) as (λ b. All P (if b then x ∷ keep test xs else keep test xs)) [
      | true ↦ (h.0, All-keep P test xs h.1)
      | false ↦ All-keep P test xs h.1
    ]

pub AllFit-keep :
    (networks : List Network) (test : IpAllocation → Bool) (rows : List IpAllocation)
    → AllFit networks rows
    → AllFit networks (keep test rows)
AllFit-keep networks test rows h =
    All-keep (λ r. Fits (network_of r.network_id networks) r.address) test rows h

-- Sameness of a network and a text does not depend on the side.
pub flip_same : (a b : String) → same a b ≡ same b a
flip_same a b = elim (same-cases a b) [
  | inl (e, t) ↦ ap (λ x. same a x) (sym e) ∙ ap (λ x. same x a) e
  | inr (n, t) ↦ elim (same-cases b a) [
    | inl (e, t') ↦ absurd (n (sym e))
    | inr (n', t') ↦ t ∙ sym t'
  ]
]

pub is_taken-snoc :
    (id : String) (a : Address) (rows : List IpAllocation) (y : IpAllocation)
    → is_taken id a (rows ++ y ∷ [])
      ≡ (is_taken id a rows || (same y.network_id id && same y.address.text a.text))
unfolding is_taken
is_taken-snoc id a [] y = ground arith
is_taken-snoc id a (x ∷ xs) y = ground (arith, is_taken-snoc id a xs y)

Distinct-snoc :
    (rows : List IpAllocation) (y : IpAllocation)
    → Distinct rows
    → is_taken y.network_id y.address rows ≡ false
    → Distinct (rows ++ y ∷ [])
unfolding is_taken
Distinct-snoc [] y h new = (refl, tt)
Distinct-snoc (x ∷ xs) y h new = (
  is_taken-snoc x.network_id x.address xs y
      ∙ ground (
        arith,
        h.0,
        new,
        flip_same x.network_id y.network_id,
        flip_same x.address.text y.address.text,
      ),
  Distinct-snoc xs y h.1 (ground (arith, new)),
)

may_have-Fits :
    (o : Option Network) (a : Address) (is_in_use : Bool) → may_have o a is_in_use ≡ true → Fits o a
unfolding may_have
may_have-Fits none a is_in_use h = tt
may_have-Fits (some n) a is_in_use h = ground (arith, h)

module _ (networks : List Network) (network_id vm_uuid mac : String) (is_in_use : Bool) (now : ℕ)
    (rows : List IpAllocation) where
  -- A row that is added is new and fits; otherwise nothing changes.
  allocate-cases :
      (o : Option Address)
      → ((allocate_specific_ip networks network_id vm_uuid mac o is_in_use now rows).rows ≡ rows)
        ⊎ ((y : IpAllocation) × ((allocate_specific_ip networks network_id vm_uuid mac o is_in_use
                now rows).rows
              ≡ rows ++ y ∷ [])
            × (is_taken y.network_id y.address rows ≡ false)
            × Fits (network_of y.network_id networks) y.address)
  unfolding allocate_specific_ip
  allocate-cases none = inl refl
  allocate-cases (some a) =
      elim (Bool-cases (
        may_have (network_of network_id networks) a is_in_use
        && not (is_taken network_id a rows))) [
          | inl e ↦ inr (
            record {
              network_id = network_id;
              address = a;
              vm_uuid = vm_uuid;
              mac = mac;
              allocated_at = now;
            },
            rw e,
            ground (arith, e),
            may_have-Fits (network_of network_id networks) a is_in_use (ground (arith, e)),
          )
          | inr e ↦ inl (rw e)
        ]

  pub allocate_specific_ip-Distinct :
      (o : Option Address)
      → Distinct rows
      → Distinct (allocate_specific_ip networks network_id vm_uuid mac o is_in_use now rows).rows
  allocate_specific_ip-Distinct o h = elim (allocate-cases o) [
    | inl e ↦ subst Distinct (sym e) h
    | inr (y, e, new, fits) ↦ subst Distinct (sym e) (Distinct-snoc rows y h new)
  ]

  pub allocate_specific_ip-AllFit :
      (o : Option Address)
      → AllFit networks rows
      → AllFit networks
          (allocate_specific_ip networks network_id vm_uuid mac o is_in_use now rows).rows
  allocate_specific_ip-AllFit o h = elim (allocate-cases o) [
    | inl e ↦ subst (AllFit networks) (sym e) h
    | inr (y, e, new, fits) ↦
        subst (AllFit networks) (sym e)
          (All-snoc (λ r. Fits (network_of r.network_id networks) r.address) rows y h fits)
  ]
