-- ===== src/Net/Cidr.antt =====
-- `parseCidr`, `ipInCidr`, `cidrsOverlap` and the conversions of packages/backend/src/services/networkService.ts, and
-- `ipInCidr` of packages/backend/src/middleware/auth.ts. An address is what `split('.')` and `Number` make of it.
pub mod Sizes
pub mod Range
use virt_pilot.Common.{
  ℕ, ◌+◌, ◌-◌, ◌*◌, ◌/◌, ◌%◌, ◌^◌, Bool, true, false, not, ◌&&◌, ◌||◌, Option, none, some, List, [],
  ◌∷◌, if◌then◌else◌, ltb, leb, ◌==◌,
}
use virt_pilot.Net.Bits.{land, lor}

pub record Ip : Type 0 where
  pub a : ℕ
  pub b : ℕ
  pub c : ℕ
  pub d : ℕ

pub record Cidr : Type 0 where
  pub base : Ip
  pub prefix : ℕ

-- `x << k`, read as an unsigned word.
abbrev pub shl : ℕ → ℕ → ℕ
shl x k = x * 2 ^ k % 2 ^ 32

unfoldable pub ip_to_num : Ip → ℕ
ip_to_num ip = lor 32 (lor 32 (lor 32 (shl ip.a 24) (shl ip.b 16)) (shl ip.c 8)) ip.d

-- `& 0xff` is the remainder by 256.
unfoldable pub num_to_ip : ℕ → Ip
num_to_ip n = record {
  a = n / 2 ^ 24 % 256;
  b = n / 2 ^ 16 % 256;
  c = n / 2 ^ 8 % 256;
  d = n % 256;
}

-- `(prefix === 0 ? 0 : ~((1 << (32 - prefix)) - 1)) >>> 0`
unfoldable pub mask : ℕ → ℕ
mask prefix = if prefix == 0 then 0 else 2 ^ 32 - 2 ^ (32 - prefix)

unfoldable pub network_num : Cidr → ℕ
network_num c = land 32 (ip_to_num c.base) (mask c.prefix)

unfoldable pub broadcast_num : Cidr → ℕ
broadcast_num c = lor 32 (network_num c) (2 ^ 32 - 1 - mask c.prefix)

-- The result of `parseCidr`.
pub record Parsed : Type 0 where
  pub prefix : ℕ
  pub network_addr : Ip
  pub broadcast : Ip
  pub first : Ip
  pub last : Ip

unfoldable pub parse_cidr : Cidr → Parsed
parse_cidr c = record {
  prefix = c.prefix;
  network_addr = num_to_ip (network_num c);
  broadcast = num_to_ip (broadcast_num c);
  first = num_to_ip (network_num c + 1);
  last = num_to_ip (broadcast_num c - 1);
}

unfoldable pub ip_in_cidr : Ip → Cidr → Bool
unfolding parse_cidr
ip_in_cidr ip c =
    let p = parse_cidr c in
    leb (ip_to_num p.network_addr) (ip_to_num ip) && leb (ip_to_num ip) (ip_to_num p.broadcast)

unfoldable pub cidrs_overlap : Cidr → Cidr → Bool
unfolding parse_cidr
cidrs_overlap a b =
    let pa = parse_cidr a in
    let pb = parse_cidr b in
    leb (ip_to_num pa.network_addr) (ip_to_num pb.broadcast)
    && leb (ip_to_num pb.network_addr) (ip_to_num pa.broadcast)

-- The gateway's place in `assertGatewayInCidr`; false is the `throw`.
unfoldable pub is_gateway_usable : Ip → Cidr → Bool
unfolding parse_cidr
is_gateway_usable gateway c =
    let p = parse_cidr c in
    let lo = ip_to_num p.network_addr in
    let hi = ip_to_num p.broadcast in
    let n = ip_to_num gateway in
    if leb 31 p.prefix then leb lo n && leb n hi else ltb lo n && ltb n hi

-- auth.ts: the parts of the text as numbers, none for NaN and for what is below zero.
abbrev pub is_octet : Option ℕ → Bool
is_octet none = false
is_octet (some n) = not (ltb 255 n)

abbrev pub octets_ip : List (Option ℕ) → Option Ip
octets_ip (some a ∷ some b ∷ some c ∷ some d ∷ []) = some (record { a = a; b = b; c = c; d = d })
octets_ip parts = none

abbrev pub all_octets : Ip → Bool
all_octets ip =
    is_octet (some ip.a) && is_octet (some ip.b) && is_octet (some ip.c) && is_octet (some ip.d)

abbrev pub num_if_octets : Option Ip → Option ℕ
num_if_octets none = none
num_if_octets (some ip) = if all_octets ip then some (ip_to_num ip) else none

unfoldable pub parts_to_num : List (Option ℕ) → Option ℕ
parts_to_num parts = num_if_octets (octets_ip parts)

abbrev pub same_network : ℕ → Option ℕ → Option ℕ → Bool
same_network m (some ip) (some range) = land 32 ip m == land 32 range m
same_network m _ _ = false

-- `ipInCidr` of auth.ts; `bits` is none for NaN and for what is below zero.
unfoldable pub auth_ip_in_cidr : List (Option ℕ) → List (Option ℕ) → Option ℕ → Bool
unfolding parts_to_num
auth_ip_in_cidr ip range none = false
auth_ip_in_cidr ip range (some bits) =
    if ltb 32 bits then false else same_network (mask bits) (parts_to_num ip) (parts_to_num range)
