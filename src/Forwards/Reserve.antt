-- ===== src/Forwards/Reserve.antt =====
-- `ensureReservation` of packages/backend/src/services/portForwardService.ts. What it reads of the network, the
-- VM and libvirt is an argument.
use virt_pilot.Common.{
  Bool, true, false, not, ◌&&◌, ◌||◌, Option, none, some, List, [], ◌∷◌, ◌++◌, map, keep, find,
  if◌then◌else◌, String, same, includes,
}

pub record DhcpReservation : Type 0 where
  pub network_id : String
  pub mac : String
  pub ip : String
  pub vm_uuid : String

pub record Lease : Type 0 where
  pub mac : String
  pub ip : String

pub record Nat : Type 0 where
  -- A network of type `nat` with a libvirt name.
  pub is_nat : Bool
  pub gateway : String
  -- The VM has a NIC with this MAC on the network's bridge, and not only until its next start.
  pub has_nic : Bool
  pub only_live : Bool
  pub leases : List Lease
  -- `resolveCurrentVmIp`, where it is an address of the network.
  pub current_ip : Option String
  -- `enumerateUsableIps` from the start of the DHCP range on.
  pub usable : List String
  -- libvirt takes the reservation and the file is written.
  pub accepts : Bool

abbrev pub is_for : String → String → DhcpReservation → Bool
is_for network_id mac r = same r.network_id network_id && same r.mac mac

-- A `throw`, or the address, whether this call reserved it, and the reservations then.
pub data Ensured : Type 0 where
  refused : Ensured
  at : (ip : String) (made : Bool) (reservations : List DhcpReservation) → Ensured

abbrev pub reservations_of : Ensured → List DhcpReservation → List DhcpReservation
reservations_of refused rs = rs
reservations_of (at ip made rs') rs = rs'

unfoldable pub taken_ips : Nat → String → String → List DhcpReservation → List String
taken_ips nat network_id mac reservations =
    nat.gateway
    ∷ (map (λ r. r.ip) (keep (λ r. same r.network_id network_id) reservations)
        ++ map (λ l. l.ip) (keep (λ l. not (same l.mac mac)) nat.leases))

abbrev pub first_usable : List String → List String → Option String
first_usable taken usable = find (λ ip. not (includes taken ip)) usable

unfoldable pub available : Nat → List String → Option String
available nat taken = elim nat.current_ip [
  | none ↦ first_usable taken nat.usable
  | some ip ↦ if includes taken ip then first_usable taken nat.usable else some ip
]

abbrev pub reserve : Nat → String → String → String → List DhcpReservation → Option String → Ensured
reserve nat network_id vm_uuid mac reservations none = refused
reserve nat network_id vm_uuid mac reservations (some ip) =
    if nat.accepts
    then at ip true (
        reservations
        ++ record { network_id = network_id; mac = mac; ip = ip; vm_uuid = vm_uuid } ∷ [])
    else refused

abbrev pub existing_or : List DhcpReservation → Ensured → Option DhcpReservation → Ensured
existing_or reservations new none = new
existing_or reservations new (some existing) = at existing.ip false reservations

unfoldable pub ensure_reservation : Nat → String → String → String → List DhcpReservation → Ensured
unfolding taken_ips available
ensure_reservation nat network_id vm_uuid mac reservations =
    if not nat.is_nat || not nat.has_nic || nat.only_live
    then refused
    else existing_or reservations
        (reserve nat network_id vm_uuid mac reservations
          (available nat (taken_ips nat network_id mac reservations)))
        (find (is_for network_id mac) reservations)
