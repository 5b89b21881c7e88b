-- ===== src/Forwards/Reach.antt =====
-- The stores that portForwardService's operations reach, whatever the host answers to them.
use virt_pilot.Common.{◌≡◌, some, [], String}
use virt_pilot.Forwards.{
  NewForward, Firewall, Store, Host, create_port_forward, delete_port_forward, delete_for_vm,
  delete_for_nic, delete_for_network, reserve_vm_ip,
}
use virt_pilot.Forwards.Reserve.{Nat}

module _ {ℓ} {F : Type ℓ} (firewall : Firewall F) where
  pub data Reached (tables : F) : Store F → Type ℓ where
    installed : Reached tables (record { forwards = []; reservations = []; tables = tables })
    -- The file of the forwards is lost or spoilt.
    forwards_lost : {s : Store F} → Reached tables s → Reached tables (record s { forwards = [] })
    create :
        {s : Store F}
        → Reached tables s
        → (nat : Nat) (host : Host) (id : String) (opts : NewForward)
        → Reached tables (create_port_forward firewall nat host id opts s).1
    remove :
        {s : Store F}
        → Reached tables s
        → (id : String) (t : Store F) → delete_port_forward firewall id s ≡ some t
        → Reached tables t
    vm_gone :
        {s : Store F}
        → Reached tables s
        → (vm_uuid : String) → Reached tables (delete_for_vm firewall vm_uuid s)
    nic_gone :
        {s : Store F}
        → Reached tables s
        → (vm_uuid mac : String) → Reached tables (delete_for_nic firewall vm_uuid mac s)
    network_gone :
        {s : Store F}
        → Reached tables s
        → (network_id : String) → Reached tables (delete_for_network firewall network_id s)
    lock_ip :
        {s : Store F}
        → Reached tables s
        → (nat : Nat) (network_id vm_uuid mac : String)
        → Reached tables (reserve_vm_ip firewall nat network_id vm_uuid mac s)
