-- ===== src/Net/Pool/Made.antt =====
-- What a NAT network that is made has to do with the networks that were there.
use virt_pilot.Common.{
  ℕ, ◌≤◌, ◌≡◌, ◌≢◌, refl, sym, ap, ◌∙◌, inl, inr, Bool, true, false, ◌&&◌, Option, none, some, List,
  [], ◌∷◌, ◌++◌, All, if◌then◌else◌, Bool-cases, String, arith,
}
use virt_pilot.Net.Cidr.{Ip, Cidr, cidrs_overlap, ip_in_cidr, is_gateway_usable}
use virt_pilot.Net.Cidr.Sizes.{IsIp, IsCidr}
use virt_pilot.Net.Cidr.Range.{cidrs_overlap_iff}
use virt_pilot.Net.Pool.Store.{Address, Network}
use virt_pilot.Net.Pool.Create.{
  has_cidr_conflict, over, next_bridge_index, GivenGateway, chosen_gateway, nat_network,
  create_with, create_nat_network,
}

-- No address is in both.
abbrev pub Apart : Cidr → Option Cidr → Type 0
Apart a none = Unit {0}
Apart a (some b) = IsCidr b → (ip : Ip) → IsIp ip → ip_in_cidr ip a ≡ true → ip_in_cidr ip b ≡ false

abbrev pub HasOther : Option ℕ → ℕ → Type 0
HasOther none index = Unit {0}
HasOther (some i) index = i ≢ index

-- The network shares no address and no bridge with another.
abbrev pub IsNewTo : Cidr → ℕ → Network → Type 0
IsNewTo c index n = Apart c n.cidr × HasOther n.bridge_number index

conflict-Apart :
    (a : Cidr) (o : Option Cidr)
    → IsCidr a
    → elim o [ none ↦ false | some c ↦ cidrs_overlap a c ] ≡ false
    → Apart a o
conflict-Apart a none va h = tt
conflict-Apart a (some b) va h = λ vb ip v in_a. elim (Bool-cases (ip_in_cidr ip b)) [
  | inl in_b ↦ absurd (ground (arith, h, (cidrs_overlap_iff a b va vb).1 (ip, v, in_a, in_b)))
  | inr out ↦ out
]

over-above : (o : Option ℕ) (index top : ℕ) → over o index ≤ top → HasOther o top
over-above none index top h = tt
over-above (some i) index top h = λ e. omega (arith, e, h)

over-keeps : (o : Option ℕ) (index : ℕ) → index ≤ over o index
over-keeps none index = omega arith
over-keeps (some i) index = omega arith

networks-IsNewTo :
    (c : Cidr) (top : ℕ) (ns : List Network)
    → IsCidr c
    → has_cidr_conflict c ns ≡ false
    → next_bridge_index ns ≤ top
    → All (IsNewTo c top) ns
unfolding has_cidr_conflict next_bridge_index
networks-IsNewTo c top [] v h l = tt
networks-IsNewTo c top (n ∷ ns) v h l = (
  (
    conflict-Apart c n.cidr v (ground (arith, h)),
    over-above n.bridge_number (next_bridge_index ns) top l,
  ),
  networks-IsNewTo c top ns v (ground (arith, h))
      (omega (arith, l, over-keeps n.bridge_number (next_bridge_index ns))),
)

module _ (show : Ip → String) (name_bridge : ℕ → String) (libvirt_name_for : String → String) where
  abbrev pub Made : String → Cidr → List Network → List Network → Type 0
  Made id c ns ns' =
      (gateway : Address) × (ns'
        ≡ ns ++ nat_network show name_bridge libvirt_name_for id c gateway ns ∷ [])
      × (is_gateway_usable gateway.ip c ≡ true)

  create_with-Made :
      (id : String) (c : Cidr) (defined : Bool) (ns : List Network) (o : Option Address)
      (ns' : List Network)
      → create_with show name_bridge libvirt_name_for id c defined ns o ≡ some ns'
      → Made id c ns ns'
  create_with-Made id c defined ns none ns' e = absurd (ground (arith, e))
  create_with-Made id c defined ns (some g) ns' e =
      elim (Bool-cases (is_gateway_usable g.ip c && defined)) [
        | inl t ↦ (
          g,
          ap (λ o. elim o [ none ↦ [] | some x ↦ x ])
              (sym e
                ∙ ap
                    (λ b.
                      if b
                      then some (ns ++ nat_network show name_bridge libvirt_name_for id c g ns ∷ [])
                      else none)
                    t),
          ground (arith, t),
        )
        | inr t ↦ absurd (
            ground (
              arith,
              sym e
                  ∙ ap
                      (λ b.
                        if b
                        then some
                            (ns ++ nat_network show name_bridge libvirt_name_for id c g ns ∷ [])
                        else none)
                      t,
            ))
      ]

  pub create_nat_network-snoc :
      (id : String) (o : Option Cidr) (gateway : GivenGateway) (defined : Bool)
      (ns ns' : List Network)
      → create_nat_network show name_bridge libvirt_name_for id o gateway defined ns ≡ some ns'
      → (n : Network) × (n.id ≡ id) × (ns' ≡ ns ++ n ∷ [])
  unfolding create_nat_network
  create_nat_network-snoc id none gateway defined ns ns' e = absurd (ground (arith, e))
  create_nat_network-snoc id (some c) gateway defined ns ns' e =
      elim (Bool-cases (has_cidr_conflict c ns)) [
        | inl t ↦ absurd (ground (arith, e, t))
        | inr t ↦
            let (g, made, _) =
              create_with-Made id c defined ns
                (chosen_gateway show name_bridge libvirt_name_for c gateway) ns'
                (ap
                    (λ b.
                      if b
                      then none
                      else create_with show name_bridge libvirt_name_for id c defined ns
                          (chosen_gateway show name_bridge libvirt_name_for c gateway))
                    (sym t)
                  ∙ e) in
            (nat_network show name_bridge libvirt_name_for id c g ns, refl, made)
      ]

  -- A NAT network with a valid CIDR that is made comes last, after the networks that were there. No address of it lies in one of theirs, its bridge number is none of theirs, and its gateway is an address that its CIDR can give a host.
  pub create_nat_network-IsNew :
      (id : String) (c : Cidr) (gateway : GivenGateway) (defined : Bool) (ns ns' : List Network)
      → IsCidr c
      → create_nat_network show name_bridge libvirt_name_for id (some c) gateway defined ns
        ≡ some ns'
      → Made id c ns ns' × All (IsNewTo c (next_bridge_index ns)) ns
  unfolding create_nat_network
  create_nat_network-IsNew id c gateway defined ns ns' v e =
      elim (Bool-cases (has_cidr_conflict c ns)) [
        | inl t ↦ absurd (ground (arith, e, t))
        | inr t ↦ (
          create_with-Made id c defined ns
              (chosen_gateway show name_bridge libvirt_name_for c gateway) ns'
              (ap
                  (λ b.
                    if b
                    then none
                    else create_with show name_bridge libvirt_name_for id c defined ns
                        (chosen_gateway show name_bridge libvirt_name_for c gateway))
                  (sym t)
                ∙ e),
          networks-IsNewTo c (next_bridge_index ns) ns v t (omega arith),
        )
      ]
