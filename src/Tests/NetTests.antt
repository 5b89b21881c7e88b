-- ===== src/Tests/NetTests.antt =====
-- 10.0.1.7 in 10.0.0.0/16, and 10.0.1.0/24 inside it.
use virt_pilot.Common.{◌≡◌, ◌↔◌, true, some, arith}
use virt_pilot.Net.Cidr.{Ip, Cidr, ip_in_cidr, cidrs_overlap, auth_ip_in_cidr}
use virt_pilot.Net.Cidr.Sizes.{IsIp, IsCidr}
use virt_pilot.Net.Cidr.Range.{cidrs_overlap_iff, auth_ip_in_cidr-ip_in_cidr, parts}

abbrev ip : Ip
ip = record { a = 10; b = 0; c = 1; d = 7 }

abbrev wide : Cidr
wide = record { base = record { a = 10; b = 0; c = 0; d = 0 }; prefix = 16 }

abbrev narrow : Cidr
narrow = record { base = record { a = 10; b = 0; c = 1; d = 0 }; prefix = 24 }

ip-IsIp : IsIp ip
ip-IsIp = record { a = omega arith; b = omega arith; c = omega arith; d = omega arith }

wide-IsCidr : IsCidr wide
wide-IsCidr = record {
  base = record { a = omega arith; b = omega arith; c = omega arith; d = omega arith };
  prefix = omega arith;
}

narrow-IsCidr : IsCidr narrow
narrow-IsCidr = record {
  base = record { a = omega arith; b = omega arith; c = omega arith; d = omega arith };
  prefix = omega arith;
}

auth_ip_in_cidr-ip_in_cidr_example :
    auth_ip_in_cidr (parts ip) (parts wide.base) (some wide.prefix) ≡ ip_in_cidr ip wide
auth_ip_in_cidr-ip_in_cidr_example = auth_ip_in_cidr-ip_in_cidr ip wide ip-IsIp wide-IsCidr

cidrs_overlap_iff_example :
    (cidrs_overlap wide narrow ≡ true)
    ↔ ((x : Ip) × IsIp x × (ip_in_cidr x wide ≡ true) × (ip_in_cidr x narrow ≡ true))
cidrs_overlap_iff_example = cidrs_overlap_iff wide narrow wide-IsCidr narrow-IsCidr
