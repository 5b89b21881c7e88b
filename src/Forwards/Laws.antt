-- ===== src/Forwards/Laws.antt =====
-- The other operations of portForwardService keep the store valid.
use virt_pilot.Common.{
  ◌≡◌, sym, ap, subst, ◌∙◌, inl, inr, Bool, not, ◌&&◌, none, some, keep, find, arith, String, same,
  Option-cases,
}
use virt_pilot.Forwards.{
  PortForward, Firewall, Store, release_if_unused, delete_found, delete_where, delete_port_forward,
  delete_for_vm, delete_for_nic, delete_for_network, reserve_vm_ip,
}
use virt_pilot.Forwards.Reserve.{Nat, ensure_reservation}
use virt_pilot.Forwards.Valid.{
  IsBacked, IsValid, All-keep, PortsDistinct-keep, release_if_unused-IsBacked, release_all-IsBacked,
  release_chosen-IsBacked,
}
use virt_pilot.Forwards.Locked.{ensure_reservation-IsEnsured, reserved-IsBacked}

some_inj {ℓ} : {A : Type ℓ} {a b : A} → some a ≡ some b → a ≡ b
some_inj {a = a} e = ap (λ o. elim o [ none ↦ a | some x ↦ x ]) e

module _ {ℓ} {F : Type ℓ} (firewall : Firewall F) where
  pub delete_where-IsValid :
      (p : PortForward → Bool) (s : Store F)
      → IsValid firewall s
      → IsValid firewall (delete_where firewall p s)
  unfolding delete_where
  delete_where-IsValid p s v = record {
    ports = PortsDistinct-keep (λ f. not (p f)) s.forwards v.ports;
    backed =
        release_all-IsBacked firewall (keep (λ f. not (p f)) s.forwards) (keep p s.forwards)
          s.reservations (All-keep (IsBacked s.reservations) (λ f. not (p f)) s.forwards v.backed);
  }

  pub delete_for_vm-IsValid :
      (vm_uuid : String) (s : Store F)
      → IsValid firewall s
      → IsValid firewall (delete_for_vm firewall vm_uuid s)
  unfolding delete_for_vm
  delete_for_vm-IsValid vm_uuid s v = delete_where-IsValid (λ f. same f.vm_uuid vm_uuid) s v

  pub delete_for_nic-IsValid :
      (vm_uuid mac : String) (s : Store F)
      → IsValid firewall s
      → IsValid firewall (delete_for_nic firewall vm_uuid mac s)
  unfolding delete_for_nic
  delete_for_nic-IsValid vm_uuid mac s v =
      let t = delete_where firewall (λ f. same f.vm_uuid vm_uuid && same f.mac mac) s in
      let w = delete_where-IsValid (λ f. same f.vm_uuid vm_uuid && same f.mac mac) s v in
      record {
        ports = w.ports;
        backed =
            release_chosen-IsBacked firewall (λ r. same r.vm_uuid vm_uuid && same r.mac mac)
              t.forwards t.reservations t.reservations w.backed;
      }

  pub delete_for_network-IsValid :
      (network_id : String) (s : Store F)
      → IsValid firewall s
      → IsValid firewall (delete_for_network firewall network_id s)
  unfolding delete_for_network
  delete_for_network-IsValid network_id s v =
      let t = delete_where firewall (λ f. same f.network_id network_id) s in
      let w = delete_where-IsValid (λ f. same f.network_id network_id) s v in
      record {
        ports = w.ports;
        backed =
            release_chosen-IsBacked firewall (λ r. same r.network_id network_id) t.forwards
              t.reservations t.reservations w.backed;
      }

  pub delete_port_forward-IsValid :
      (id : String) (s t : Store F)
      → IsValid firewall s
      → delete_port_forward firewall id s ≡ some t
      → IsValid firewall t
  unfolding delete_port_forward
  delete_port_forward-IsValid id s t v done =
      elim (Option-cases (find (λ f. same f.id id) s.forwards)) [
        | inl e ↦ absurd (ground (arith, ap (delete_found firewall id s) e, done))
        | inr (f, e) ↦
            let left = keep (λ g. not (same g.id id)) s.forwards in
            let w : IsValid firewall (record {
              forwards = left;
              reservations = release_if_unused f.network_id f.mac left s.reservations;
              tables = firewall.remove f s.tables;
            }) =
              record {
                ports = PortsDistinct-keep (λ g. not (same g.id id)) s.forwards v.ports;
                backed = release_if_unused-IsBacked f.network_id f.mac left s.reservations (
                    All-keep (IsBacked s.reservations) (λ g. not (same g.id id)) s.forwards
                      v.backed);
              } in
            subst (IsValid firewall) (some_inj (sym (ap (delete_found firewall id s) e) ∙ done)) w
      ]

  pub reserve_vm_ip-IsValid :
      (nat : Nat) (network_id vm_uuid mac : String) (s : Store F)
      → IsValid firewall s
      → IsValid firewall (reserve_vm_ip firewall nat network_id vm_uuid mac s)
  unfolding reserve_vm_ip
  reserve_vm_ip-IsValid nat network_id vm_uuid mac s v = record {
    ports = v.ports;
    backed =
        reserved-IsBacked network_id mac s.reservations s.forwards
          (ensure_reservation nat network_id vm_uuid mac s.reservations)
          (ensure_reservation-IsEnsured nat network_id vm_uuid mac s.reservations) v.backed;
  }
