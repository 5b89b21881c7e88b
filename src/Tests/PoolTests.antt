-- ===== src/Tests/PoolTests.antt =====
-- One NAT network, 10.0.0.0/24, with an address given out on it.
use virt_pilot.Common.{
  ℕ, ◌≡◌, ◌≢◌, refl, true, false, some, [], ◌∷◌, length, All, String, same-ne, arith,
}
use virt_pilot.Net.Bits.{land, lor}
use virt_pilot.Net.Cidr.{
  Ip, Cidr, ip_to_num, num_to_ip, mask, network_num, broadcast_num, parse_cidr, is_gateway_usable,
}
use virt_pilot.Net.Cidr.Sizes.{IsCidr}
use virt_pilot.Net.Pool.Store.{
  Address, Network, Pool, network_of, is_taken, may_have, allocate_specific_ip, bridge, static,
}
use virt_pilot.Net.Pool.Create.{
  left_out, create_nat_network, has_cidr_conflict, next_bridge_index, nat_network,
}
use virt_pilot.Net.Pool.Delete.{has_rows}
use virt_pilot.Net.Pool.Made.{Made, IsNewTo, create_nat_network-IsNew}
use virt_pilot.Net.Pool.Reach.{allocates, adds, empty, next, empty_pool, IsTidy, Reached-IsTidy}
use virt_pilot.Net.Pool.Twins.{allocate_specific_ip-twin}

abbrev ip : ℕ → Ip
ip last = record { a = 10; b = 0; c = 0; d = last }

abbrev lan : Cidr
lan = record { base = ip 0; prefix = 24 }

abbrev five : Address
five = record { text = "10.0.0.5"; ip = ip 5 }

abbrev five_again : Address
five_again = record { text = "10.0.0.05"; ip = ip 5 }

abbrev show : Ip → String
show x = "10.0.0.1"

abbrev name_bridge : ℕ → String
name_bridge n = "vp"

abbrev libvirt_name_for : String → String
libvirt_name_for id = id

abbrev network : Network
network =
    nat_network show name_bridge libvirt_name_for "n" lan (record { text = "10.0.0.1"; ip = ip 1 })
      []

lan-IsCidr : IsCidr lan
lan-IsCidr = record { base = omega arith; prefix = omega arith }

made :
    create_nat_network show name_bridge libvirt_name_for "n" (some lan) left_out true []
    ≡ some (network ∷ [])
unfolding create_nat_network has_cidr_conflict next_bridge_index is_gateway_usable parse_cidr
    network_num broadcast_num mask ip_to_num num_to_ip land lor
made = refl

create_nat_network-IsNew_example :
    Made show name_bridge libvirt_name_for "n" lan [] (network ∷ [])
    × All (IsNewTo lan (next_bridge_index [])) []
create_nat_network-IsNew_example =
    create_nat_network-IsNew show name_bridge libvirt_name_for "n" lan left_out true []
      (network ∷ []) lan-IsCidr made

abbrev pool : Pool
pool = record { networks = network ∷ []; allocations = []; arriving = [] }

-- A bridge whose addresses are given out from a pool.
abbrev static_network : Network
static_network = record network { type = bridge; ip_mode = some static }

abbrev static_pool : Pool
static_pool = record empty_pool { networks = static_network ∷ [] }

abbrev allocated_pool : Pool
allocated_pool = record static_pool {
  allocations =
      (allocate_specific_ip (static_network ∷ []) "n" "a" "m" (some five) false 0 []).rows;
}

five_given : length allocated_pool.allocations ≡ 1
unfolding allocate_specific_ip network_of may_have is_taken parse_cidr network_num broadcast_num
    mask ip_to_num num_to_ip land lor next_bridge_index
five_given = refl

no_rows : has_rows "n" empty_pool.allocations ≡ false
unfolding has_rows
no_rows = refl

Reached-IsTidy_example : IsTidy true allocated_pool
Reached-IsTidy_example = Reached-IsTidy show name_bridge libvirt_name_for true allocated_pool (
    next (next empty (adds true empty_pool static_network no_rows))
      (allocates true static_pool "n" "a" "m" (some five) false 0))

other_text : ◌≢◌ {A = String} "10.0.0.5" "10.0.0.05"
other_text = same-ne "10.0.0.5" "10.0.0.05" refl

first_given :
    (allocate_specific_ip (network ∷ []) "n" "a" "m" (some five) false 0 []).returned ≡ true
unfolding allocate_specific_ip network_of may_have is_taken parse_cidr network_num broadcast_num
    mask ip_to_num num_to_ip land lor next_bridge_index
first_given = refl

known : network_of "n" (network ∷ []) ≡ some network
unfolding network_of
known = refl

free : is_taken "n" five_again [] ≡ false
unfolding is_taken
free = refl

allocate_specific_ip-twin_example :
    (allocate_specific_ip
      (network ∷ [])
      "n"
      "b"
      "k"
      (some five_again)
      false
      1
      (allocate_specific_ip (network ∷ []) "n" "a" "m" (some five) false 0 []).rows).returned
    ≡ true
allocate_specific_ip-twin_example =
    allocate_specific_ip-twin (network ∷ []) network "n" "a" "b" "m" "k" five five_again 0 1 []
      known refl other_text refl free first_given
