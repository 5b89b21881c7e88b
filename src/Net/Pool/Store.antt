-- ===== src/Net/Pool/Store.antt =====
-- `networks.json`, `ip-allocations.json` and the operations of changeAllocations. What libvirt and the wire say is an argument.
use virt_pilot.Common.{
  ℕ, Bool, true, false, not, ◌&&◌, ◌||◌, Option, none, some, List, [], ◌∷◌, ◌++◌, keep, find,
  if◌then◌else◌, ltb, String, same,
}
use virt_pilot.Net.Cidr.{Ip, Cidr, ip_to_num, parse_cidr}

-- A text that `validateIpv4` lets through, and the address that it reads as: zeros in front of an octet are allowed.
pub record Address : Type 0 where
  pub text : String
  pub ip : Ip

pub data NetworkType : Type 0 where
  nat bridge existing_bridge vxlan : NetworkType

pub data IpMode : Type 0 where
  dhcp static unassigned : IpMode

-- `bridge_number` is the number of a bridge `vp<n>`, none for any other name.
pub record Network : Type 0 where
  pub id : String
  pub type : NetworkType
  pub ip_mode : Option IpMode
  pub cidr : Option Cidr
  pub gateway : Option Address
  pub bridge_name : String
  pub bridge_number : Option ℕ
  pub libvirt_name : Option String

-- A time is milliseconds since the epoch.
pub record IpAllocation : Type 0 where
  pub network_id : String
  pub address : Address
  pub vm_uuid : String
  pub mac : String
  pub allocated_at : ℕ

-- A VM on its way onto networks, known by their id, bridge or libvirt name.
pub record Hold : Type 0 where
  pub networks : List String
  pub vm : String

pub record Pool : Type 0 where
  pub networks : List Network
  pub allocations : List IpAllocation
  pub arriving : List Hold

-- `readNetworks`, with none for a file that is not there or cannot be read.
abbrev pub read_networks : Option (List Network) → List Network
read_networks none = []
read_networks (some networks) = networks

-- `networks.find((n) => n.id === id)`
unfoldable pub network_of : String → List Network → Option Network
network_of id networks = find (λ n. same n.id id) networks

abbrev pub is_gateway : Address → Option Address → Bool
is_gateway a none = false
is_gateway a (some g) = same a.text g.text

abbrev pub is_between : Address → Option Cidr → Bool
is_between a none = false
is_between a (some c) =
    let p = parse_cidr c in
    ltb (ip_to_num p.network_addr) (ip_to_num a.ip) && ltb (ip_to_num a.ip) (ip_to_num p.broadcast)

-- The test of `allocateSpecificIp` on the address; on a network that is not known it asks nothing.
unfoldable pub may_have : Option Network → Address → (is_in_use : Bool) → Bool
may_have none a is_in_use = true
may_have (some n) a is_in_use = is_between a n.cidr && not (is_gateway a n.gateway) && not is_in_use

unfoldable pub is_taken : String → Address → List IpAllocation → Bool
is_taken network_id a [] = false
is_taken network_id a (x ∷ xs) =
    (same x.network_id network_id && same x.address.text a.text) || is_taken network_id a xs

-- Whether the call returned, and the rows after it.
pub record Allocated : Type 0 where
  pub returned : Bool
  pub rows : List IpAllocation

-- `networks` is what `readNetworks` gives. The address is none where `validateIpv4` throws; `is_in_use` is what `refuseIfInUse` finds out.
unfoldable pub allocate_specific_ip :
    List Network
    → String
    → String
    → String
    → Option Address
    → (is_in_use : Bool) → ℕ
    → List IpAllocation
    → Allocated
allocate_specific_ip networks network_id vm_uuid mac none is_in_use now rows = record {
  returned = false;
  rows = rows;
}
allocate_specific_ip networks network_id vm_uuid mac (some a) is_in_use now rows =
    if may_have (network_of network_id networks) a is_in_use && not (is_taken network_id a rows)
    then record {
      returned = true;
      rows =
          rows
          ++ record {
            network_id = network_id;
            address = a;
            vm_uuid = vm_uuid;
            mac = mac;
            allocated_at = now;
          }
            ∷ [];
    }
    else record { returned = false; rows = rows }

unfoldable pub deallocate_vm_ips : String → List IpAllocation → List IpAllocation
deallocate_vm_ips vm_uuid rows = keep (λ a. not (same a.vm_uuid vm_uuid)) rows

unfoldable pub deallocate_by_mac : String → List IpAllocation → List IpAllocation
deallocate_by_mac mac rows = keep (λ a. not (same a.mac mac)) rows

-- `is_missing` says of a VM that libvirt has no record of it.
unfoldable pub drop_allocations_of_missing_vms :
    (String → Bool) → ℕ → List IpAllocation → List IpAllocation
drop_allocations_of_missing_vms is_missing started rows =
    keep (λ a. not (is_missing a.vm_uuid && ltb a.allocated_at started)) rows
