-- ===== src/Net/Pool/Delete.antt =====
-- `deleteNetwork`, `vmsArriving` and `holdNetworks`. What the deletion does to devices is not modelled.
use virt_pilot.Common.{
  ℕ, ◌-◌, Bool, true, false, not, ◌||◌, Option, none, some, List, [], ◌∷◌, keep, if◌then◌else◌, ltb,
  String, same, includes,
}
use virt_pilot.Net.Pool.Store.{Network, nat, bridge, vxlan, IpAllocation, Hold, Pool, network_of}

-- `namesOf`
abbrev pub names_of : Network → List String
names_of n = n.id ∷ n.bridge_name ∷ elim n.libvirt_name [ none ↦ [] | some name ↦ name ∷ [] ]

abbrev pub names_some : List String → List String → Bool
names_some names [] = false
names_some names (x ∷ xs) = includes names x || names_some names xs

-- The holds behind `vmsArriving`.
unfoldable pub arriving_on : Network → List Hold → List Hold
arriving_on n holds = keep (λ h. names_some (names_of n) h.networks) holds

-- `holdNetworks`, with no deletion of these networks under way.
unfoldable pub hold_networks : List String → String → Pool → Pool
hold_networks networks vm p = record p {
  arriving = record { networks = networks; vm = vm } ∷ p.arriving;
}

abbrev pub is_some_number : Option ℕ → Bool
is_some_number none = false
is_some_number (some i) = true

-- `isManagedBridge`
abbrev pub is_managed_bridge : Network → Bool
is_managed_bridge n = elim n.type [ bridge ↦ is_some_number n.bridge_number | _ ↦ false ]

-- The networks whose deletion is refused while a VM is on them or coming.
unfoldable pub needs_no_vms : Network → Bool
needs_no_vms n = elim n.type [ nat ↦ true | vxlan ↦ true | _ ↦ false ] || is_managed_bridge n

abbrev pub settle_ms : ℕ
settle_ms = 300000

-- The rows of the network that are five minutes old go.
unfoldable pub release_settled : String → ℕ → List IpAllocation → List IpAllocation
release_settled id now rows =
    keep (λ a. not (same a.network_id id) || ltb (now - settle_ms) a.allocated_at) rows

unfoldable pub has_rows : String → List IpAllocation → Bool
has_rows id [] = false
has_rows id (a ∷ rows) = same a.network_id id || has_rows id rows

abbrev pub is_nil : List Hold → Bool
is_nil [] = true
is_nil (h ∷ hs) = false

abbrev pub without_network : String → List Network → List Network
without_network id networks = keep (λ n. not (same n.id id)) networks

pub record Deleted : Type 0 where
  pub returned : Bool
  pub pool : Pool

abbrev pub refused : Pool → Deleted
refused p = record { returned = false; pool = p }

abbrev pub delete_if_free : String → Pool → Deleted
delete_if_free id p =
    if has_rows id p.allocations
    then refused p
    else record { returned = true; pool = record p { networks = without_network id p.networks } }

-- `connected` says whether a VM has a NIC on the bridge, none if libvirt can't say.
abbrev pub delete_bridge : String → Option Bool → ℕ → Pool → Deleted
delete_bridge id (some false) now p =
    delete_if_free id (record p { allocations = release_settled id now p.allocations })
delete_bridge id (some true) now p = refused p
delete_bridge id none now p = refused p

abbrev pub delete_known : Option Bool → ℕ → Pool → Option Network → Deleted
delete_known connected now p none = refused p
delete_known connected now p (some n) =
    if needs_no_vms n
    then if is_nil (arriving_on n p.arriving) then delete_bridge n.id connected now p else refused p
    else delete_if_free n.id p

unfoldable pub delete_network : String → Option Bool → ℕ → Pool → Deleted
delete_network id connected now p = delete_known connected now p (network_of id p.networks)
