-- ===== src/Forwards/Failed.antt =====
-- What a create that fails leaves behind.
use virt_pilot.Common.{◌≡◌, ◌⊎◌, true, false, List, [], ◌∷◌, ◌++◌, String, same}
use virt_pilot.Forwards.{NewForward, Firewall, Store, Host}
use virt_pilot.Forwards.Reserve.{DhcpReservation, is_for}

-- One row more, for this NIC.
abbrev pub HasOneMore : String → String → List DhcpReservation → List DhcpReservation → Type 0
HasOneMore network_id mac rs rs' =
    (r : DhcpReservation) × (rs' ≡ rs ++ r ∷ []) × (is_for network_id mac r ≡ true)

module _ {ℓ} {F : Type ℓ} (firewall : Firewall F) where
  -- The store before and after a create of the forward `id`.
  pub record IsUndone (host : Host) (id : String) (opts : NewForward) (s t : Store F) : Type ℓ where
    pub forwards : t.forwards ≡ s.forwards
    pub reservations :
        (t.reservations ≡ s.reservations)
        ⊎ (((host.knows_nic ≡ false) ⊎ (host.releases ≡ false))
            × HasOneMore opts.network_id opts.mac s.reservations t.reservations)
    pub others :
        (q : String) → same id q ≡ false → firewall.live q t.tables ≡ firewall.live q s.tables
