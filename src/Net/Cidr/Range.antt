-- ===== src/Net/Cidr/Range.antt =====
-- The networks that networkService.ts and auth.ts compute by masks, as ranges of numbers.
use native.Mathlib.Nat.{mul-le-mul_right}
use virt_pilot.Common.{
  ℕ, ◌+◌, ◌-◌, ◌*◌, ◌^◌, ◌≤◌, ◌<◌, ◌≡◌, refl, sym, ap, ◌∙◌, inl, inr, ◌↔◌, max, Bool, true, false,
  ◌&&◌, Option, some, List, [], ◌∷◌, if◌then◌else◌, ltb, leb, ltb→lt, ==_iff, ◌==◌, arith,
  Bool-cases,
}
use virt_pilot.Net.Bits.{land, above_bits, low_bits, bits_split, low_bits_bound, pow_pos}
use virt_pilot.Net.Cidr.{
  Ip, Cidr, ip_to_num, num_to_ip, mask, ip_in_cidr, cidrs_overlap, parts_to_num, same_network,
  auth_ip_in_cidr,
}
use virt_pilot.Net.Cidr.Sizes.{
  IsIp, IsCidr, num_to_ip-IsIp, ip_to_num-num_to_ip, ip_to_num_bound, size_of, start_of, masked,
  start_fits, leb-and, ip_in_cidr_lem, cidrs_overlap_lem, leb-and2,
}

-- Two valid networks are said to overlap exactly when some address is in both.
pub cidrs_overlap_iff :
    (a b : Cidr)
    → IsCidr a
    → IsCidr b
    → (cidrs_overlap a b ≡ true)
      ↔ ((ip : Ip) × IsIp ip × (ip_in_cidr ip a ≡ true) × (ip_in_cidr ip b ≡ true))
cidrs_overlap_iff a b ha hb = (
  λ e.
      let n = max (start_of a) (start_of b) in
      let small : n < 2 ^ 32 = omega (arith, start_fits a ha, start_fits b hb) in
      let back = ip_to_num-num_to_ip n small in
      let positive_a = pow_pos (32 - a.prefix) in
      let positive_b = pow_pos (32 - b.prefix) in
      let (below, above) =
        (leb-and2 (start_of a) (start_of b + (size_of b - 1)) (start_of b)
            (start_of a + (size_of a - 1))).0
          (sym (cidrs_overlap_lem a b ha hb) ∙ e) in
      (
        num_to_ip n,
        num_to_ip-IsIp n,
        ip_in_cidr_lem (num_to_ip n) a ha
            ∙ (leb-and (start_of a) (ip_to_num (num_to_ip n)) (start_of a + (size_of a - 1))).1
                (omega (arith, back), omega (arith, back, above, positive_a)),
        ip_in_cidr_lem (num_to_ip n) b hb
            ∙ (leb-and (start_of b) (ip_to_num (num_to_ip n)) (start_of b + (size_of b - 1))).1
                (omega (arith, back), omega (arith, back, below, positive_b)),
      ),
  λ (ip, octets, in_a, in_b).
      let (la, ua) =
        (leb-and (start_of a) (ip_to_num ip) (start_of a + (size_of a - 1))).0
          (sym (ip_in_cidr_lem ip a ha) ∙ in_a) in
      let (lb, ub) =
        (leb-and (start_of b) (ip_to_num ip) (start_of b + (size_of b - 1))).0
          (sym (ip_in_cidr_lem ip b hb) ∙ in_b) in
      cidrs_overlap_lem a b ha hb
      ∙ (leb-and2 (start_of a) (start_of b + (size_of b - 1)) (start_of b)
            (start_of a + (size_of a - 1))).1
          (omega (arith, la, ub), omega (arith, lb, ua)),
)

abbrev pub parts : Ip → List (Option ℕ)
parts ip = some ip.a ∷ some ip.b ∷ some ip.c ∷ some ip.d ∷ []

parts_to_num_lem : (ip : Ip) → IsIp ip → parts_to_num (parts ip) ≡ some (ip_to_num ip)
unfolding parts_to_num
parts_to_num_lem ip h = ground (arith, h.a, h.b, h.c, h.d)

times_lt : (q p size : ℕ) → q < p → q * size + size ≤ p * size
times_lt q p size h = omega (arith, mul-le-mul_right size h)

-- One block of `size` numbers has one index.
block_eq :
    (q p size n r : ℕ)
    → n ≡ q * size + r
    → r < size
    → (q * size ≡ p * size) ↔ ((p * size ≤ n) × (n ≤ p * size + (size - 1)))
block_eq q p size n r e small = (
  λ one. (omega (arith, one, e), omega (arith, one, e, small)),
  λ (low, high). elim (Bool-cases (ltb q p)) [
    | inl less ↦ absurd (omega (arith, times_lt q p size (ltb→lt q p less), low, e, small))
    | inr more ↦ elim (Bool-cases (ltb p q)) [
      | inl less ↦ absurd (omega (arith, times_lt p q size (ltb→lt p q less), high, e, small))
      | inr done ↦ ap (λ x. x * size) (ground (arith, more, done))
    ]
  ],
)

both :
    (q p size n r : ℕ)
    → n ≡ q * size + r
    → r < size
    → (((q * size) == (p * size)) ≡ true)
      ↔ ((leb (p * size) n && leb n (p * size + (size - 1))) ≡ true)
both q p size n r e small = (
  λ t.
      (leb-and (p * size) n (p * size + (size - 1))).1
        ((block_eq q p size n r e small).0 ((==_iff (q * size) (p * size)).0 t)),
  λ t.
      (==_iff (q * size) (p * size)).1
        ((block_eq q p size n r e small).1 ((leb-and (p * size) n (p * size + (size - 1))).0 t)),
)

Bool-eq : (x y : Bool) → ((x ≡ true) ↔ (y ≡ true)) → x ≡ y
Bool-eq true true h = refl
Bool-eq true false h = sym (h.0 refl)
Bool-eq false true h = h.1 refl
Bool-eq false false h = refl

-- `auth.ts` and `networkService.ts` agree on whether an address of four octets is in a valid network: one
-- compares masked words, the other the network's ends.
pub auth_ip_in_cidr-ip_in_cidr :
    (ip : Ip) (c : Cidr)
    → IsIp ip
    → IsCidr c
    → auth_ip_in_cidr (parts ip) (parts c.base) (some c.prefix) ≡ ip_in_cidr ip c
unfolding auth_ip_in_cidr
auth_ip_in_cidr-ip_in_cidr ip c hi hc =
    let k = 32 - c.prefix in
    let n = ip_to_num ip in
    let legal : ltb 32 c.prefix ≡ false = ground (arith, hc.prefix) in
    ap
      (λ (t : Bool).
        if t
        then false
        else same_network (mask c.prefix) (parts_to_num (parts ip)) (parts_to_num (parts c.base)))
      legal
    ∙ ap (λ x. same_network (mask c.prefix) x (parts_to_num (parts c.base)))
        (parts_to_num_lem ip hi)
    ∙ ap (λ x. same_network (mask c.prefix) (some n) x) (parts_to_num_lem c.base hc.base)
    ∙ ap (λ x. x == land 32 (ip_to_num c.base) (mask c.prefix))
        (masked n c.prefix (ip_to_num_bound ip) hc.prefix)
    ∙ ap (λ x. (above_bits k n * 2 ^ k) == x)
        (masked (ip_to_num c.base) c.prefix (ip_to_num_bound c.base) hc.prefix)
    ∙ Bool-eq ((above_bits k n * 2 ^ k) == start_of c)
        (leb (start_of c) n && leb n (start_of c + (size_of c - 1)))
        (both (above_bits k n) (above_bits k (ip_to_num c.base)) (2 ^ k) n (low_bits k n)
          (bits_split k n) (low_bits_bound k n))
    ∙ sym (ip_in_cidr_lem ip c hc)
