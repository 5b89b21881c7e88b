-- ===== src/Net/Pool/Create.antt =====
-- `createNatNetwork`.
use virt_pilot.Common.{
  ℕ, ◌+◌, Bool, false, ◌&&◌, ◌||◌, Option, none, some, List, [], ◌∷◌, ◌++◌, if◌then◌else◌, String,
  max,
}
use virt_pilot.Net.Cidr.{Ip, Cidr, cidrs_overlap, parse_cidr, is_gateway_usable}
use virt_pilot.Net.Pool.Store.{Address, Network, nat}

-- `checkCidrConflict`: true is the `throw`.
unfoldable pub has_cidr_conflict : Cidr → List Network → Bool
has_cidr_conflict cidr [] = false
has_cidr_conflict cidr (n ∷ ns) =
    elim n.cidr [ none ↦ false | some c ↦ cidrs_overlap cidr c ] || has_cidr_conflict cidr ns

abbrev pub over : Option ℕ → ℕ → ℕ
over none index = index
over (some i) index = max (i + 1) index

unfoldable pub next_bridge_index : List Network → ℕ
next_bridge_index [] = 0
next_bridge_index (n ∷ ns) = over n.bridge_number (next_bridge_index ns)

-- The body of the request. The CIDR is none where `isValidCidr` refuses it; the gateway is left out, not an address, or one.
pub data GivenGateway : Type 0 where
  left_out bad : GivenGateway
  at : Address → GivenGateway

-- `show` writes an address as text, and `name_bridge` a bridge by its number.
module _ (show : Ip → String) (name_bridge : ℕ → String) (libvirt_name_for : String → String) where
  abbrev pub chosen_gateway : Cidr → GivenGateway → Option Address
  chosen_gateway c left_out =
      let first = (parse_cidr c).first in some (record { text = show first; ip = first })
  chosen_gateway c bad = none
  chosen_gateway c (at a) = some a

  abbrev pub nat_network : String → Cidr → Address → List Network → Network
  nat_network id c gateway networks = record {
    id = id;
    type = nat;
    ip_mode = none;
    cidr = some c;
    gateway = some gateway;
    bridge_name = name_bridge (next_bridge_index networks);
    bridge_number = some (next_bridge_index networks);
    libvirt_name = some (libvirt_name_for id);
  }

  abbrev pub create_with :
      String → Cidr → (defined : Bool) → List Network → Option Address → Option (List Network)
  create_with id c defined networks none = none
  create_with id c defined networks (some gateway) =
      if is_gateway_usable gateway.ip c && defined
      then some (networks ++ nat_network id c gateway networks ∷ [])
      else none

  -- None is the `throw`. `defined` says that libvirt took the network and started it.
  unfoldable pub create_nat_network :
      String → Option Cidr → GivenGateway → (defined : Bool) → List Network → Option (List Network)
  create_nat_network id none gateway defined networks = none
  create_nat_network id (some c) gateway defined networks =
      if has_cidr_conflict c networks
      then none
      else create_with id c defined networks (chosen_gateway c gateway)
