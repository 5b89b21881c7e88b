-- ===== src/Forwards/Create.antt =====
-- `createPortForwardNow` keeps the store valid.
use virt_pilot.Common.{
  ◌≡◌, refl, ap, inl, inr, ◌⊎◌, Bool, true, false, not, ◌&&◌, ◌||◌, none, List, [], ◌∷◌, ◌++◌, find,
  if◌then◌else◌, String, All, All-snoc, Bool-cases, Option-cases,
}
use virt_pilot.Forwards.{
  PortForward, NewForward, Firewall, Store, Host, is_port, is_on_port, release_if_unused,
  not_created, created, forward_of, roll_back, install, place, unless_conflict, create_port_forward,
}
use virt_pilot.Forwards.Reserve.{DhcpReservation, Nat, Ensured, refused, at, ensure_reservation}
use virt_pilot.Forwards.Valid.{
  PortsDistinct, IsBacked, IsValid, find-All, PortsDistinct-snoc, release_if_unused-IsBacked,
}
use virt_pilot.Forwards.Locked.{
  IsEnsured, ensure_reservation-IsEnsured, ensured-IsBacked, ensured-found,
}

rolled_back-IsBacked :
    (f : PortForward) (made : Bool) (fs : List PortForward) (rs : List DhcpReservation)
    → All (IsBacked rs) fs
    → All (IsBacked (if made then release_if_unused f.network_id f.mac fs rs else rs)) fs
rolled_back-IsBacked f true fs rs h = release_if_unused-IsBacked f.network_id f.mac fs rs h
rolled_back-IsBacked f false fs rs h = h

module _ {ℓ} {F : Type ℓ} (firewall : Firewall F) where
  -- The two ends of `install`.
  pub install_done :
      (f : PortForward) (made releases writes : Bool) (s : Store F)
      → ((firewall.add f s.tables).0 && writes) ≡ true
      → install firewall f made releases writes s ≡ (
        created f,
        record s { forwards = s.forwards ++ f ∷ []; tables = (firewall.add f s.tables).1 },
      )
  unfolding install
  install_done f made releases writes s e = rw e refl

  pub install_undone :
      (f : PortForward) (made releases writes : Bool) (s : Store F)
      → ((firewall.add f s.tables).0 && writes) ≡ false
      → install firewall f made releases writes s ≡ (
        not_created,
        roll_back firewall f made releases (record s { tables = (firewall.add f s.tables).1 }),
      )
  unfolding install
  install_undone f made releases writes s e = rw e refl

  module _ (f : PortForward) (made releases writes : Bool) (s : Store F) where
    install-IsValid :
        All (IsBacked s.reservations) s.forwards
        → IsBacked s.reservations f
        → PortsDistinct s.forwards
        → All (λ g. is_on_port f.host_port f.protocol g ≡ false) s.forwards
        → IsValid firewall (install firewall f made releases writes s).1
    unfolding roll_back
    install-IsValid backed own ports free =
        elim (Bool-cases ((firewall.add f s.tables).0 && writes)) [
          | inl e ↦ rw (install_done f made releases writes s e) (record {
            ports = PortsDistinct-snoc s.forwards f ports free;
            backed = All-snoc (IsBacked s.reservations) s.forwards f backed own;
          })
          | inr e ↦ rw (install_undone f made releases writes s e) (record {
            ports = ports;
            backed = rolled_back-IsBacked f (made && releases) s.forwards s.reservations backed;
          })
        ]

  place-IsValid :
      (host : Host) (id : String) (opts : NewForward) (a : Ensured) (s : Store F)
      → IsEnsured opts.network_id opts.mac s.reservations a
      → All (λ g. is_on_port opts.host_port opts.protocol g ≡ false) s.forwards
      → IsValid firewall s
      → IsValid firewall (place firewall host id opts a s).1
  unfolding place
  place-IsValid host id opts refused s known free v = v
  place-IsValid host id opts (at ip made rs') s known free v =
      let u : Store F = record s { reservations = rs' } in
      let backed =
        ensured-IsBacked opts.network_id opts.mac s.reservations ip made rs' s.forwards known
          v.backed in
      elim (Bool-cases host.knows_nic) [
        | inl e ↦ rw e (
            install-IsValid (forward_of firewall id ip opts) made host.releases host.writes u backed
              (ensured-found opts.network_id opts.mac s.reservations ip made rs' known) v.ports
              free)
        | inr e ↦ rw e (record { ports = v.ports; backed = backed })
      ]

  pub create_port_forward-cases :
      (nat : Nat) (host : Host) (id : String) (opts : NewForward) (s : Store F)
      → (create_port_forward firewall nat host id opts s ≡ (not_created, s))
        ⊎ ((create_port_forward firewall nat host id opts s
              ≡ place firewall host id opts
                  (ensure_reservation nat opts.network_id opts.vm_uuid opts.mac s.reservations)
                  s)
            × (find (is_on_port opts.host_port opts.protocol) s.forwards ≡ none))
  unfolding create_port_forward
  create_port_forward-cases nat host id opts s =
      let go_on =
        place firewall host id opts
          (ensure_reservation nat opts.network_id opts.vm_uuid opts.mac s.reservations) s in
      elim (Bool-cases (not (is_port opts.host_port) || not (is_port opts.vm_port))) [
        | inl t ↦ inl (rw t refl)
        | inr t ↦ elim (Option-cases (find (is_on_port opts.host_port opts.protocol) s.forwards)) [
          | inl e ↦ inr (rw t (ap (unless_conflict firewall s go_on) e), e)
          | inr (f, e) ↦ inl (rw t (ap (unless_conflict firewall s go_on) e))
        ]
      ]

  -- Whatever the network, the firewall and the disk answer, a create keeps the store valid.
  pub create_port_forward-IsValid :
      (nat : Nat) (host : Host) (id : String) (opts : NewForward) (s : Store F)
      → IsValid firewall s
      → IsValid firewall (create_port_forward firewall nat host id opts s).1
  create_port_forward-IsValid nat host id opts s v =
      elim (create_port_forward-cases nat host id opts s) [
        | inl e ↦ rw e v
        | inr (e, free) ↦ rw e (
            place-IsValid host id opts
              (ensure_reservation nat opts.network_id opts.vm_uuid opts.mac s.reservations) s
              (ensure_reservation-IsEnsured nat opts.network_id opts.vm_uuid opts.mac
                s.reservations)
              (find-All (is_on_port opts.host_port opts.protocol) s.forwards free) v)
      ]
