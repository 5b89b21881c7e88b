-- ===== src/Forwards/Locked.antt =====
-- What `ensureReservation` gives, against the reservations before it.
use virt_pilot.Common.{
  ◌≡◌, refl, sym, ap, subst, ◌∙◌, inl, inr, Bool, true, false, not, ◌||◌, Option, none, some, List,
  [], ◌∷◌, ◌++◌, find, arith, String, same_refl, All, All-map, Bool-cases, Option-cases,
}
use virt_pilot.Forwards.{PortForward}
use virt_pilot.Forwards.Reserve.{
  DhcpReservation, is_for, Nat, Ensured, refused, at, ensure_reservation, existing_or, reserve,
  available, taken_ips, reservations_of,
}
use virt_pilot.Forwards.Valid.{IsBacked, find-append, find-snoc}

-- An answer of `ensureReservation`: the address is now locked, and a reservation it made is the last.
abbrev pub IsEnsured : String → String → List DhcpReservation → Ensured → Type 0
IsEnsured network_id mac rs refused = Unit
IsEnsured network_id mac rs (at ip false rs') =
    (rs' ≡ rs) × ((r : DhcpReservation) × (find (is_for network_id mac) rs ≡ some r) × (r.ip ≡ ip))
IsEnsured network_id mac rs (at ip true rs') =
    (find (is_for network_id mac) rs ≡ none)
    × ((r : DhcpReservation) × (rs' ≡ rs ++ r ∷ [])
        × (is_for network_id mac r ≡ true)
        × (r.ip ≡ ip))

pub reserve-IsEnsured :
    (nat : Nat) (network_id vm_uuid mac : String) (rs : List DhcpReservation) (o : Option String)
    → find (is_for network_id mac) rs ≡ none
    → IsEnsured network_id mac rs (reserve nat network_id vm_uuid mac rs o)
reserve-IsEnsured nat network_id vm_uuid mac rs none e = tt
reserve-IsEnsured nat network_id vm_uuid mac rs (some ip) e = elim (Bool-cases nat.accepts) [
  | inl t ↦ rw t (
    e,
    (
      record { network_id = network_id; mac = mac; ip = ip; vm_uuid = vm_uuid },
      refl,
      ground (arith, same_refl network_id, same_refl mac),
      refl,
    ),
  )
  | inr t ↦ rw t tt
]

pub ensure_reservation-IsEnsured :
    (nat : Nat) (network_id vm_uuid mac : String) (rs : List DhcpReservation)
    → IsEnsured network_id mac rs (ensure_reservation nat network_id vm_uuid mac rs)
unfolding ensure_reservation
ensure_reservation-IsEnsured nat network_id vm_uuid mac rs =
    let new =
      reserve nat network_id vm_uuid mac rs (available nat (taken_ips nat network_id mac rs)) in
    elim (Bool-cases (not nat.is_nat || not nat.has_nic || nat.only_live)) [
      | inl t ↦ rw t tt
      | inr t ↦ rw t (elim (Option-cases (find (is_for network_id mac) rs)) [
        | inl e ↦
            subst (λ o. IsEnsured network_id mac rs (existing_or rs new o)) (sym e)
              (reserve-IsEnsured nat network_id vm_uuid mac rs
                (available nat (taken_ips nat network_id mac rs)) e)
        | inr (r, e) ↦
            subst (λ o. IsEnsured network_id mac rs (existing_or rs new o)) (sym e)
              (refl, (r, e, refl))
      ])
    ]

-- The forwards keep their addresses.
pub ensured-IsBacked :
    (network_id mac : String) (rs : List DhcpReservation) (ip : String) (made : Bool)
    (rs' : List DhcpReservation) (fs : List PortForward)
    → IsEnsured network_id mac rs (at ip made rs')
    → All (IsBacked rs) fs
    → All (IsBacked rs') fs
ensured-IsBacked network_id mac rs ip false rs' fs (e, r) h = rw e h
ensured-IsBacked network_id mac rs ip true rs' fs (fresh, (r, e, is, addr)) h = rw e (
    All-map (IsBacked rs) (IsBacked (rs ++ r ∷ [])) fs
      (λ f (old, found, same_ip).
        (old, find-append (is_for f.network_id f.mac) rs (r ∷ []) old found, same_ip))
      h)

pub ensured-found :
    (network_id mac : String) (rs : List DhcpReservation) (ip : String) (made : Bool)
    (rs' : List DhcpReservation)
    → IsEnsured network_id mac rs (at ip made rs')
    → (r : DhcpReservation) × (find (is_for network_id mac) rs' ≡ some r) × (r.ip ≡ ip)
ensured-found network_id mac rs ip false rs' (e, (r, found, addr)) =
    (r, ap (find (is_for network_id mac)) e ∙ found, addr)
ensured-found network_id mac rs ip true rs' (fresh, (r, e, is, addr)) =
    (r, ap (find (is_for network_id mac)) e ∙ find-snoc (is_for network_id mac) rs r fresh is, addr)

pub reserved-IsBacked :
    (network_id mac : String) (rs : List DhcpReservation) (fs : List PortForward) (a : Ensured)
    → IsEnsured network_id mac rs a
    → All (IsBacked rs) fs
    → All (IsBacked (reservations_of a rs)) fs
reserved-IsBacked network_id mac rs fs refused known h = h
reserved-IsBacked network_id mac rs fs (at ip made rs') known h =
    ensured-IsBacked network_id mac rs ip made rs' fs known h
