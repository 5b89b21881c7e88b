-- ===== src/Forwards.antt =====
-- packages/backend/src/services/portForwardService.ts: port forwards and the addresses locked for
-- them. `oneChangeAtATime` runs the operations one after another, so each is a step on the store.
-- UUIDs and MACs are those that `validateVmUuid` and `validateMac` have passed, in lower case.
pub mod Reserve
pub mod Valid
pub mod Locked
pub mod Create
pub mod Laws
pub mod Reach
pub mod Failed
use virt_pilot.Common.{
  ℕ, ◌<◌, ◌≡◌, Bool, true, false, not, ◌&&◌, ◌||◌, Option, none, some, List, [], ◌∷◌, ◌++◌, keep,
  find, if◌then◌else◌, ltb, ◌==◌, String, same,
}
use virt_pilot.Forwards.Reserve.{
  DhcpReservation, is_for, Nat, ensure_reservation, Ensured, refused, at, reservations_of,
}

pub data Protocol : Type 0 where
  tcp : Protocol
  udp : Protocol

abbrev pub same_protocol : Protocol → Protocol → Bool
same_protocol tcp tcp = true
same_protocol tcp udp = false
same_protocol udp tcp = false
same_protocol udp udp = true

pub record PortForward : Type 0 where
  pub id : String
  pub network_id : String
  pub vm_uuid : String
  pub mac : String
  pub vm_ip : String
  pub protocol : Protocol
  pub host_port : ℕ
  pub vm_port : ℕ

pub record NewForward : Type 0 where
  pub network_id : String
  pub vm_uuid : String
  pub mac : String
  pub protocol : Protocol
  pub host_port : ℕ
  pub vm_port : ℕ

-- The host's netfilter tables: `addIptablesRules`, which may fail having installed some of its
-- rules, and `removeIptablesRules`, which only deletes rules of the forward and goes on where iptables fails, so
-- some may stay live.
pub record Firewall {ℓ} (F : Type ℓ) : Type ℓ where
  pub add : PortForward → F → Bool × F
  pub remove : PortForward → F → F
  pub live : String → F → Bool
  pub add-others :
      (f : PortForward) (q : String) (t : F) → same f.id q ≡ false → live q (add f t).1 ≡ live q t
  pub remove-others :
      (f : PortForward) (q : String) (t : F) → same f.id q ≡ false → live q (remove f t) ≡ live q t

-- port-forwards.json, read as no forwards where it cannot be, dhcp-reservations.json and the tables.
pub record Store {ℓ} (F : Type ℓ) : Type ℓ where
  pub forwards : List PortForward
  pub reservations : List DhcpReservation
  pub tables : F

unfoldable pub is_port : ℕ → Bool
is_port n = not (ltb n 1) && not (ltb 65535 n)

-- `f.hostPort === hostPort && f.protocol === protocol`
abbrev pub is_on_port : ℕ → Protocol → PortForward → Bool
is_on_port port protocol f = (f.host_port == port) && same_protocol f.protocol protocol

abbrev pub is_for_nic : String → String → PortForward → Bool
is_for_nic network_id mac f = same f.network_id network_id && same f.mac mac

-- `Array.prototype.some`
abbrev pub some_of {ℓ} : {A : Type ℓ} → (A → Bool) → List A → Bool
some_of p [] = false
some_of p (x ∷ xs) = p x || some_of p xs

-- `releaseReservationIfUnused`: the forwards it reads back decide. libvirt's refusal to delete is ignored.
unfoldable pub release_if_unused :
    String → String → List PortForward → List DhcpReservation → List DhcpReservation
release_if_unused network_id mac forwards reservations =
    if some_of (is_for_nic network_id mac) forwards
    then reservations
    else keep (λ r. not (is_for network_id mac r)) reservations

pub data Created : Type 0 where
  not_created : Created
  created : PortForward → Created

-- What a create finds out or meets: whether `isFirstNic` answers, the file can be written, and a release works.
pub record Host : Type 0 where
  pub knows_nic : Bool
  pub writes : Bool
  pub releases : Bool

module _ {ℓ} {F : Type ℓ} (firewall : Firewall F) where
  abbrev pub forward_of : String → String → NewForward → PortForward
  forward_of id ip opts = record {
    id = id;
    network_id = opts.network_id;
    vm_uuid = opts.vm_uuid;
    mac = opts.mac;
    vm_ip = ip;
    protocol = opts.protocol;
    host_port = opts.host_port;
    vm_port = opts.vm_port;
  }

  -- The `catch`: the rules go, and the reservation if this call made it; `releases` is whether the release works.
  unfoldable pub roll_back : PortForward → Bool → Bool → Store F → Store F
  roll_back forward made releases s = record s {
    reservations =
        if made && releases
        then release_if_unused forward.network_id forward.mac s.forwards s.reservations
        else s.reservations;
    tables = firewall.remove forward s.tables;
  }

  -- The rules, then the record, then `throw` or the forward. `writes` is whether the file is written.
  unfoldable pub install : PortForward → Bool → Bool → Bool → Store F → Created × Store F
  install forward made releases writes s =
      let (ok, tables) = firewall.add forward s.tables in
      if ok && writes
      then (created forward, record s { forwards = s.forwards ++ forward ∷ []; tables = tables })
      else (not_created, roll_back forward made releases (record s { tables = tables }))

  -- `isFirstNic` is asked with the address locked and outside of the `try`: where it throws, `knows_nic` is false.
  unfoldable pub place : Host → String → NewForward → Ensured → Store F → Created × Store F
  place host id opts refused s = (not_created, s)
  place host id opts (at ip made reservations) s =
      if host.knows_nic
      then install (forward_of id ip opts) made host.releases host.writes
          (record s { reservations = reservations })
      else (not_created, record s { reservations = reservations })

  abbrev pub unless_conflict : Store F → Created × Store F → Option PortForward → Created × Store F
  unless_conflict s go_on none = go_on
  unless_conflict s go_on (some conflict) = (not_created, s)

  -- `createPortForwardNow`
  unfoldable pub create_port_forward :
      Nat → Host → String → NewForward → Store F → Created × Store F
  create_port_forward nat host id opts s =
      if not (is_port opts.host_port) || not (is_port opts.vm_port)
      then (not_created, s)
      else unless_conflict s
          (place host id opts
            (ensure_reservation nat opts.network_id opts.vm_uuid opts.mac s.reservations) s)
          (find (is_on_port opts.host_port opts.protocol) s.forwards)

  abbrev pub remove_all_rules : List PortForward → F → F
  remove_all_rules [] t = t
  remove_all_rules (f ∷ fs) t = remove_all_rules fs (firewall.remove f t)

  abbrev pub release_all :
      List PortForward → List PortForward → List DhcpReservation → List DhcpReservation
  release_all forwards [] rs = rs
  release_all forwards (f ∷ fs) rs =
      release_all forwards fs (release_if_unused f.network_id f.mac forwards rs)

  -- `deleteForwardsWhere`; with none to delete it changes nothing either way.
  unfoldable pub delete_where : (PortForward → Bool) → Store F → Store F
  delete_where match_by s =
      let mine = keep match_by s.forwards in
      let left = keep (λ f. not (match_by f)) s.forwards in
      record {
        forwards = left;
        reservations = release_all left mine s.reservations;
        tables = remove_all_rules mine s.tables;
      }

  abbrev pub delete_found : String → Store F → Option PortForward → Option (Store F)
  delete_found id s none = none
  delete_found id s (some forward) =
      let left = keep (λ f. not (same f.id id)) s.forwards in
      some (record {
        forwards = left;
        reservations = release_if_unused forward.network_id forward.mac left s.reservations;
        tables = firewall.remove forward s.tables;
      })

  -- `deletePortForward`: none is the `throw`.
  unfoldable pub delete_port_forward : String → Store F → Option (Store F)
  delete_port_forward id s = delete_found id s (find (λ f. same f.id id) s.forwards)

  unfoldable pub delete_for_vm : String → Store F → Store F
  delete_for_vm vm_uuid = delete_where (λ f. same f.vm_uuid vm_uuid)

  -- The loop over the reservations read once, releasing those chosen.
  abbrev pub release_chosen :
      (DhcpReservation → Bool)
      → List PortForward
      → List DhcpReservation
      → List DhcpReservation
      → List DhcpReservation
  release_chosen chosen forwards [] rs = rs
  release_chosen chosen forwards (r ∷ read) rs =
      release_chosen chosen forwards read
        (if chosen r then release_if_unused r.network_id r.mac forwards rs else rs)

  unfoldable pub delete_for_nic : String → String → Store F → Store F
  delete_for_nic vm_uuid mac s =
      let t = delete_where (λ f. same f.vm_uuid vm_uuid && same f.mac mac) s in
      record t {
        reservations =
            release_chosen (λ r. same r.vm_uuid vm_uuid && same r.mac mac) t.forwards t.reservations
              t.reservations;
      }

  unfoldable pub delete_for_network : String → Store F → Store F
  delete_for_network network_id s =
      let t = delete_where (λ f. same f.network_id network_id) s in
      record t {
        reservations =
            release_chosen (λ r. same r.network_id network_id) t.forwards t.reservations
              t.reservations;
      }

  -- `reserveVmIp`, "Lock IP".
  unfoldable pub reserve_vm_ip : Nat → String → String → String → Store F → Store F
  reserve_vm_ip nat network_id vm_uuid mac s = record s {
    reservations =
        reservations_of (ensure_reservation nat network_id vm_uuid mac s.reservations)
          s.reservations;
  }
