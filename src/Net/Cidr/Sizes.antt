-- ===== src/Net/Cidr/Sizes.antt =====
-- The first address of a network and how many it holds, from its masks.
use virt_pilot.Common.{
  ℕ, ◌+◌, ◌-◌, ◌*◌, ◌^◌, ◌≤◌, ◌<◌, ◌≡◌, refl, ap, ◌∙◌, inl, inr, ◌↔◌, true, ◌&&◌, leb, ◌==◌, arith,
  Bool-cases,
}
use virt_pilot.Net.Bits.{
  land, lor, above_bits, bits_split, land_mask, lor_disjoint, lor_bound, pow_le, pow_pos,
}
use virt_pilot.Net.Cidr.{
  Ip, Cidr, shl, ip_to_num, num_to_ip, mask, network_num, broadcast_num, ip_in_cidr, cidrs_overlap,
}

-- Four octets.
pub record IsIp (ip : Ip) : Type 0 where
  pub a : ip.a ≤ 255
  pub b : ip.b ≤ 255
  pub c : ip.c ≤ 255
  pub d : ip.d ≤ 255

-- What `isValidCidr` lets through.
pub record IsCidr (c : Cidr) : Type 0 where
  pub base : IsIp c.base
  pub prefix : c.prefix ≤ 32

pub ip_to_num-sum :
    (ip : Ip) → IsIp ip → ip_to_num ip ≡ ((ip.a * 256 + ip.b) * 256 + ip.c) * 2 ^ 8 + ip.d
unfolding ip_to_num
ip_to_num-sum ip h =
    let first : lor 32 (shl ip.a 24) (shl ip.b 16) ≡ (ip.a * 256 + ip.b) * 2 ^ 16 =
      ap (λ x. lor 32 x (shl ip.b 16)) {x = shl ip.a 24} {y = ip.a * 2 ^ 24} (omega (arith, h.a))
      ∙ lor_disjoint 32 24 ip.a (shl ip.b 16) (omega arith) (omega (arith, h.b))
          (omega (arith, h.a))
      ∙ omega (arith, h.b) in
    let second : lor 32 (lor 32 (shl ip.a 24) (shl ip.b 16)) (shl ip.c 8)
        ≡ ((ip.a * 256 + ip.b) * 256 + ip.c) * 2 ^ 8 =
      ap (λ x. lor 32 x (shl ip.c 8)) first
      ∙ lor_disjoint 32 16 (ip.a * 256 + ip.b) (shl ip.c 8) (omega arith) (omega (arith, h.c))
          (omega (arith, h.a, h.b))
      ∙ omega (arith, h.c) in
    ap (λ x. lor 32 x ip.d) second
    ∙ lor_disjoint 32 8 ((ip.a * 256 + ip.b) * 256 + ip.c) ip.d (omega arith) (omega (arith, h.d))
        (omega (arith, h.a, h.b, h.c))

pub num_to_ip-IsIp : (n : ℕ) → IsIp (num_to_ip n)
unfolding num_to_ip
num_to_ip-IsIp n = record { a = omega arith; b = omega arith; c = omega arith; d = omega arith }

pub digits :
    (n : ℕ)
    → n < 2 ^ 32
    → (((num_to_ip n).a * 256 + (num_to_ip n).b) * 256 + (num_to_ip n).c) * 2 ^ 8 + (num_to_ip n).d
      ≡ n
unfolding num_to_ip
digits n h = omega (arith, h)

-- An address survives being written and read.
pub ip_to_num-num_to_ip : (n : ℕ) → n < 2 ^ 32 → ip_to_num (num_to_ip n) ≡ n
ip_to_num-num_to_ip n h = ip_to_num-sum (num_to_ip n) (num_to_ip-IsIp n) ∙ digits n h

pub ip_to_num_bound : (ip : Ip) → ip_to_num ip < 2 ^ 32
unfolding ip_to_num
ip_to_num_bound ip = lor_bound 32 (lor 32 (lor 32 (shl ip.a 24) (shl ip.b 16)) (shl ip.c 8)) ip.d

pub mask_lem : (prefix : ℕ) → prefix ≤ 32 → mask prefix ≡ 2 ^ 32 - 2 ^ (32 - prefix)
unfolding mask
mask_lem prefix h = elim (Bool-cases (prefix == 0)) [
  | inl e ↦ let none_set : prefix ≡ 0 = ground (arith, e) in rw none_set refl
  | inr e ↦ rw e refl
]

-- The size of a network and which it is of those of its size.
abbrev pub size_of : Cidr → ℕ
size_of c = 2 ^ (32 - c.prefix)

abbrev pub start_of : Cidr → ℕ
start_of c = above_bits (32 - c.prefix) (ip_to_num c.base) * size_of c

pub masked :
    (n prefix : ℕ)
    → n < 2 ^ 32
    → prefix ≤ 32
    → land 32 n (mask prefix) ≡ above_bits (32 - prefix) n * 2 ^ (32 - prefix)
masked n prefix small h =
    ap (land 32 n) (mask_lem prefix h) ∙ land_mask 32 (32 - prefix) n (omega arith) small

pub network_num_lem : (c : Cidr) → IsCidr c → network_num c ≡ start_of c
unfolding network_num
network_num_lem c h = masked (ip_to_num c.base) c.prefix (ip_to_num_bound c.base) h.prefix

pub start_fits : (c : Cidr) → IsCidr c → start_of c < 2 ^ 32
start_fits c h =
    omega (arith, bits_split (32 - c.prefix) (ip_to_num c.base), ip_to_num_bound c.base)

pub broadcast_num_lem : (c : Cidr) → IsCidr c → broadcast_num c ≡ start_of c + (size_of c - 1)
unfolding broadcast_num
broadcast_num_lem c h =
    let fits : size_of c ≤ 2 ^ 32 = pow_le (32 - c.prefix) 32 (omega arith) in
    let positive = pow_pos (32 - c.prefix) in
    ap (λ x. lor 32 x (2 ^ 32 - 1 - mask c.prefix)) (network_num_lem c h)
    ∙ ap (lor 32 (start_of c)) {x = 2 ^ 32 - 1 - mask c.prefix} {y = size_of c - 1}
        (omega (arith, mask_lem c.prefix h.prefix, fits, positive))
    ∙ lor_disjoint 32 (32 - c.prefix) (above_bits (32 - c.prefix) (ip_to_num c.base))
        (size_of c - 1) (omega arith) (omega (arith, positive)) (start_fits c h)

-- The addresses of the network, as `parseCidr` gives them.
pub network_addr_lem : (c : Cidr) → IsCidr c → ip_to_num (num_to_ip (network_num c)) ≡ start_of c
network_addr_lem c h =
    let e = network_num_lem c h in
    ip_to_num-num_to_ip (network_num c) (omega (arith, e, start_fits c h)) ∙ e

pub broadcast_bound : (c : Cidr) → broadcast_num c < 2 ^ 32
unfolding broadcast_num
broadcast_bound c = lor_bound 32 (network_num c) (2 ^ 32 - 1 - mask c.prefix)

pub broadcast_lem :
    (c : Cidr) → IsCidr c → ip_to_num (num_to_ip (broadcast_num c)) ≡ start_of c + (size_of c - 1)
broadcast_lem c h =
    ip_to_num-num_to_ip (broadcast_num c) (broadcast_bound c) ∙ broadcast_num_lem c h

pub leb-and : (a b c : ℕ) → ((leb a b && leb b c) ≡ true) ↔ ((a ≤ b) × (b ≤ c))
leb-and a b c = ground arith

pub ip_in_cidr_lem :
    (ip : Ip) (c : Cidr)
    → IsCidr c
    → ip_in_cidr ip c
      ≡ (leb (start_of c) (ip_to_num ip) && leb (ip_to_num ip) (start_of c + (size_of c - 1)))
unfolding ip_in_cidr
ip_in_cidr_lem ip c h =
    ap (λ x. leb x (ip_to_num ip) && leb (ip_to_num ip) (ip_to_num (num_to_ip (broadcast_num c))))
      (network_addr_lem c h)
    ∙ ap (λ x. leb (start_of c) (ip_to_num ip) && leb (ip_to_num ip) x) (broadcast_lem c h)

pub cidrs_overlap_lem :
    (a b : Cidr)
    → IsCidr a
    → IsCidr b
    → cidrs_overlap a b ≡ (
        leb (start_of a) (start_of b + (size_of b - 1))
        && leb (start_of b) (start_of a + (size_of a - 1)))
unfolding cidrs_overlap
cidrs_overlap_lem a b ha hb =
    ap
      (λ x.
        leb x (ip_to_num (num_to_ip (broadcast_num b)))
        && leb (ip_to_num (num_to_ip (network_num b))) (ip_to_num (num_to_ip (broadcast_num a))))
      (network_addr_lem a ha)
    ∙ ap
        (λ x.
          leb (start_of a) x
          && leb (ip_to_num (num_to_ip (network_num b))) (ip_to_num (num_to_ip (broadcast_num a))))
        (broadcast_lem b hb)
    ∙ ap
        (λ x.
          leb (start_of a) (start_of b + (size_of b - 1))
          && leb x (ip_to_num (num_to_ip (broadcast_num a))))
        (network_addr_lem b hb)
    ∙ ap (λ x. leb (start_of a) (start_of b + (size_of b - 1)) && leb (start_of b) x)
        (broadcast_lem a ha)

pub leb-and2 : (a b c d : ℕ) → ((leb a b && leb c d) ≡ true) ↔ ((a ≤ b) × (c ≤ d))
leb-and2 a b c d = ground arith
