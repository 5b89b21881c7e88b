-- ===== src/Net/Pool/Twins.antt =====
-- Two texts of one address.
use virt_pilot.Common.{
  ℕ, ◌≡◌, ◌≢◌, refl, sym, ap, ◌∙◌, inl, inr, Bool, true, false, not, ◌&&◌, ◌||◌, Option, none, some,
  List, [], ◌∷◌, ◌++◌, Bool-cases, String, same, same-cases, ltb, arith,
}
use virt_pilot.Net.Cidr.{Cidr, ip_to_num, parse_cidr}
use virt_pilot.Net.Pool.Store.{
  Address, Network, IpAllocation, network_of, is_gateway, is_between, may_have, is_taken,
  allocate_specific_ip,
}
use virt_pilot.Net.Pool.Unique.{is_taken-snoc}

between_ip : (a b : Address) (o : Option Cidr) → a.ip ≡ b.ip → is_between a o ≡ is_between b o
between_ip a b none e = refl
between_ip a b (some c) e =
    let p = parse_cidr c in
    ap
      (λ ip.
        ltb (ip_to_num p.network_addr) (ip_to_num ip) && ltb (ip_to_num ip) (ip_to_num p.broadcast))
      e

module _ (networks : List Network) (network_id vm_uuid mac : String) (is_in_use : Bool) (now : ℕ)
    (rows : List IpAllocation) (a : Address) where
  abbrev row : IpAllocation
  row = record {
    network_id = network_id;
    address = a;
    vm_uuid = vm_uuid;
    mac = mac;
    allocated_at = now;
  }

  -- A call returns just if the address fits and no row has its text.
  returned_iff :
      (allocate_specific_ip networks network_id vm_uuid mac (some a) is_in_use now rows).returned
      ≡ (may_have (network_of network_id networks) a is_in_use && not (is_taken network_id a rows))
  unfolding allocate_specific_ip
  returned_iff =
      elim (Bool-cases (
        may_have (network_of network_id networks) a is_in_use
        && not (is_taken network_id a rows))) [ inl e ↦ rw e refl | inr e ↦ rw e refl ]

  rows_of :
      (may_have (network_of network_id networks) a is_in_use && not (is_taken network_id a rows))
        ≡ true
      → (allocate_specific_ip networks network_id vm_uuid mac (some a) is_in_use now rows).rows
        ≡ rows ++ row ∷ []
  unfolding allocate_specific_ip
  rows_of e = rw e

may_have_ip :
    (n : Network) (a b : Address)
    → a.ip ≡ b.ip
    → is_gateway b n.gateway ≡ false
    → may_have (some n) a false ≡ true
    → may_have (some n) b false ≡ true
unfolding may_have
may_have_ip n a b e gate h = ground (arith, h, gate, between_ip a b n.cidr e)

apart_text :
    (s t : String) (taken here : Bool)
    → s ≢ t
    → taken ≡ false
    → (taken || (here && same s t)) ≡ false
apart_text s t taken here n h = elim (same-cases s t) [
  | inl (e, _) ↦ absurd (n e)
  | inr (_, e) ↦ ground (arith, e, h)
]

-- Once an address has been given out on a known network, the same address in another text that no row has and that is not the gateway's is given out again, to any VM, where no test of the wire finds it in use.
pub allocate_specific_ip-twin :
    (networks : List Network) (n : Network) (network_id vm_uuid vm_uuid' mac mac' : String)
    (a b : Address) (now now' : ℕ) (rows : List IpAllocation)
    → network_of network_id networks ≡ some n
    → a.ip ≡ b.ip
    → a.text ≢ b.text
    → is_gateway b n.gateway ≡ false
    → is_taken network_id b rows ≡ false
    → (allocate_specific_ip networks network_id vm_uuid mac (some a) false now rows).returned ≡ true
    → (allocate_specific_ip networks network_id vm_uuid' mac'
        (some b)
        false
        now'
        (allocate_specific_ip networks network_id vm_uuid mac
          (some a)
          false
          now
          rows).rows).returned
      ≡ true
allocate_specific_ip-twin networks n network_id vm_uuid vm_uuid' mac mac' a b now now' rows known
      one other gate free first =
    let test = sym (returned_iff networks network_id vm_uuid mac false now rows a) ∙ first in
    let fits_a : may_have (network_of network_id networks) a false ≡ true = ground (arith, test) in
    let fits_b =
      ap (λ o. may_have o b false) known
      ∙ may_have_ip n a b one gate (sym (ap (λ o. may_have o a false) known) ∙ fits_a) in
    let grown = rows_of networks network_id vm_uuid mac false now rows a test in
    let new : is_taken network_id b
          (rows ++ row networks network_id vm_uuid mac false now rows a ∷ [])
        ≡ false =
      is_taken-snoc network_id b rows (row networks network_id vm_uuid mac false now rows a)
      ∙ apart_text a.text b.text (is_taken network_id b rows) (same network_id network_id) other
          free in
    returned_iff networks network_id vm_uuid' mac' false now'
      (allocate_specific_ip networks network_id vm_uuid mac (some a) false now rows).rows b
    ∙ ap (λ xs. may_have (network_of network_id networks) b false && not (is_taken network_id b xs))
        grown
    ∙ ground (arith, fits_b, new)
