-- ===== src/Net/Pool/Lookup.antt =====
-- Finding a network by its id, in a list that has lost or gained one.
use virt_pilot.Common.{
  ◌≡◌, refl, sym, ap, ◌∙◌, subst, inl, inr, true, false, not, none, some, List, [], ◌∷◌, ◌++◌, find,
  if◌then◌else◌, Bool-cases, String, same, same→eq, arith,
}
use virt_pilot.Net.Pool.Store.{Address, Network, IpAllocation, network_of}
use virt_pilot.Net.Pool.Delete.{has_rows, without_network}
use virt_pilot.Net.Pool.Unique.{Fits, AllFit, flip_same}

pub no_more :
    (id k : String) (ns : List Network) → k ≡ id → network_of k (without_network id ns) ≡ none
unfolding network_of
no_more id k [] e = refl
no_more id k (n ∷ ns) e = elim (Bool-cases (same n.id id)) [
  | inl out ↦
      ap
        (λ b.
          find (λ x. same x.id k)
            (if not b then n ∷ without_network id ns else without_network id ns))
        out
      ∙ no_more id k ns e
  | inr stays ↦
      ap
        (λ b.
          find (λ x. same x.id k)
            (if not b then n ∷ without_network id ns else without_network id ns))
        stays
      ∙ ap (λ b. if b then some n else find (λ x. same x.id k) (without_network id ns))
          (ap (same n.id) e ∙ stays)
      ∙ no_more id k ns e
]

-- Fewer networks ask for less.
pub network_of-keep :
    (id k : String) (ns : List Network) (a : Address)
    → Fits (network_of k ns) a
    → Fits (network_of k (without_network id ns)) a
unfolding network_of
network_of-keep id k [] a h = h
network_of-keep id k (n ∷ ns) a h = elim (Bool-cases (same n.id k)) [
  | inl here ↦ elim (Bool-cases (same n.id id)) [
    | inl out ↦
        subst
          (λ b.
            Fits
              (find (λ x. same x.id k)
                (if not b then n ∷ without_network id ns else without_network id ns))
              a)
          (sym out)
          (subst (λ o. Fits o a)
            (sym (no_more id k ns (sym (same→eq n.id k here) ∙ same→eq n.id id out))) tt)
    | inr stays ↦
        subst
          (λ b.
            Fits
              (find (λ x. same x.id k)
                (if not b then n ∷ without_network id ns else without_network id ns))
              a)
          (sym stays)
          (subst
            (λ b. Fits (if b then some n else find (λ x. same x.id k) (without_network id ns)) a)
            (sym here)
            (subst (λ b. Fits (if b then some n else find (λ x. same x.id k) ns) a) here h))
  ]
  | inr later ↦
      let ih =
        network_of-keep id k ns a
          (subst (λ b. Fits (if b then some n else find (λ x. same x.id k) ns) a) later h) in
      elim (same n.id id)
        as (λ b.
          Fits
            (find (λ x. same x.id k)
              (if not b then n ∷ without_network id ns else without_network id ns))
            a) [
              | true ↦ ih
              | false ↦
                  subst
                    (λ b.
                      Fits (if b then some n else find (λ x. same x.id k) (without_network id ns))
                        a)
                    (sym later) ih
            ]
]

pub network_of-snoc :
    (k : String) (ns : List Network) (n : Network) (a : Address)
    → same n.id k ≡ false
    → Fits (network_of k ns) a
    → Fits (network_of k (ns ++ n ∷ [])) a
unfolding network_of
network_of-snoc k [] n a other h = subst (λ b. Fits (if b then some n else none) a) (sym other) tt
network_of-snoc k (m ∷ ns) n a other h = elim (Bool-cases (same m.id k)) [
  | inl here ↦
      subst (λ b. Fits (if b then some m else find (λ x. same x.id k) (ns ++ n ∷ [])) a) (sym here)
        (subst (λ b. Fits (if b then some m else find (λ x. same x.id k) ns) a) here h)
  | inr later ↦
      subst (λ b. Fits (if b then some m else find (λ x. same x.id k) (ns ++ n ∷ [])) a) (sym later)
        (network_of-snoc k ns n a other
          (subst (λ b. Fits (if b then some m else find (λ x. same x.id k) ns) a) later h))
]

pub AllFit-without :
    (id : String) (ns : List Network) (rows : List IpAllocation)
    → AllFit ns rows
    → AllFit (without_network id ns) rows
AllFit-without id ns [] h = tt
AllFit-without id ns (r ∷ rows) h =
    (network_of-keep id r.network_id ns r.address h.0, AllFit-without id ns rows h.1)

pub AllFit-snoc :
    (ns : List Network) (n : Network) (rows : List IpAllocation)
    → has_rows n.id rows ≡ false
    → AllFit ns rows
    → AllFit (ns ++ n ∷ []) rows
unfolding has_rows
AllFit-snoc ns n [] new h = tt
AllFit-snoc ns n (r ∷ rows) new h = (
  network_of-snoc r.network_id ns n r.address (flip_same n.id r.network_id ∙ ground (arith, new))
      h.0,
  AllFit-snoc ns n rows (ground (arith, new)) h.1,
)
