-- ===== src/Net/Bits.antt =====
-- JavaScript's `&` and `|` on 32-bit words, a bit per step, and what they do with the mask of a prefix.
use native.Mathlib.Nat.{pow-suc, mul_left_comm}
use virt_pilot.Common.{
  ℕ, zero, suc, ◌+◌, ◌-◌, ◌*◌, ◌/◌, ◌%◌, ◌^◌, ◌≤◌, ◌<◌, ◌≡◌, ap, ◌∙◌, max, arith,
}

unfoldable pub land : ℕ → ℕ → ℕ → ℕ
land zero a b = 0
land (suc w) a b = (a % 2) * (b % 2) + 2 * land w (a / 2) (b / 2)

unfoldable pub lor : ℕ → ℕ → ℕ → ℕ
lor zero a b = 0
lor (suc w) a b = max (a % 2) (b % 2) + 2 * lor w (a / 2) (b / 2)

-- A number by its part above the bit `k` and the part below.
unfoldable pub above_bits : ℕ → ℕ → ℕ
above_bits zero n = n
above_bits (suc k) n = above_bits k (n / 2)

unfoldable pub low_bits : ℕ → ℕ → ℕ
low_bits zero n = 0
low_bits (suc k) n = n % 2 + 2 * low_bits k (n / 2)

pow_double : (k : ℕ) → 2 ^ suc k ≡ 2 * 2 ^ k
pow_double k = omega (arith, pow-suc 2 k)

pub pow_pos : (k : ℕ) → 0 < 2 ^ k
pow_pos zero = omega arith
pow_pos (suc k) = omega (arith, pow_double k, pow_pos k)

times_double : (q k : ℕ) → q * 2 ^ suc k ≡ 2 * (q * 2 ^ k)
times_double q k = ap (λ x. q * x) (pow_double k) ∙ mul_left_comm q 2 (2 ^ k)

pub bits_split : (k n : ℕ) → n ≡ above_bits k n * 2 ^ k + low_bits k n
unfolding above_bits low_bits
bits_split zero n = omega arith
bits_split (suc k) n = omega (arith, bits_split k (n / 2), times_double (above_bits k (n / 2)) k)

pub low_bits_bound : (k n : ℕ) → low_bits k n < 2 ^ k
unfolding low_bits
low_bits_bound zero n = omega arith
low_bits_bound (suc k) n = omega (arith, low_bits_bound k (n / 2), pow_double k)

pub pow_le : (k w : ℕ) → k ≤ w → 2 ^ k ≤ 2 ^ w
pow_le zero w h = pow_pos w
pow_le (suc k) zero h = absurd (omega (arith, h))
pow_le (suc k) (suc w) h = omega (arith, pow_le k w (omega (arith, h)), pow_double k, pow_double w)

-- `&` with the mask that leaves out the lowest `k` of `w` bits.
pub land_mask : (w k n : ℕ) → k ≤ w → n < 2 ^ w → land w n (2 ^ w - 2 ^ k) ≡ above_bits k n * 2 ^ k
unfolding land above_bits
land_mask zero zero n h small = omega (arith, small)
land_mask zero (suc k) n h small = absurd (omega (arith, h))
land_mask (suc w) zero n h small =
    let odd : (2 ^ suc w - 2 ^ 0) % 2 ≡ 1 = omega (arith, pow_double w, pow_pos w) in
    let half : (2 ^ suc w - 2 ^ 0) / 2 ≡ 2 ^ w - 2 ^ 0 = omega (arith, pow_double w, pow_pos w) in
    let rest = land_mask w zero (n / 2) (omega arith) (omega (arith, small, pow_double w)) in
    ap (λ m. n % 2 * m + 2 * land w (n / 2) ((2 ^ suc w - 2 ^ 0) / 2)) odd
    ∙ ap (λ m. n % 2 * 1 + 2 * land w (n / 2) m) half
    ∙ omega (arith, rest)
land_mask (suc w) (suc k) n h small =
    let le = pow_le k w (omega (arith, h)) in
    let even : (2 ^ suc w - 2 ^ suc k) % 2 ≡ 0 = omega (arith, pow_double w, pow_double k, le) in
    let half : (2 ^ suc w - 2 ^ suc k) / 2 ≡ 2 ^ w - 2 ^ k =
      omega (arith, pow_double w, pow_double k, le) in
    let rest = land_mask w k (n / 2) (omega (arith, h)) (omega (arith, small, pow_double w)) in
    ap (λ m. n % 2 * m + 2 * land w (n / 2) ((2 ^ suc w - 2 ^ suc k) / 2)) even
    ∙ ap (λ m. n % 2 * 0 + 2 * land w (n / 2) m) half
    ∙ omega (arith, rest, times_double (above_bits k (n / 2)) k)

lor_zero : (w a : ℕ) → a < 2 ^ w → lor w a 0 ≡ a
unfolding lor
lor_zero zero a small = omega (arith, small)
lor_zero (suc w) a small = omega (arith, lor_zero w (a / 2) (omega (arith, small, pow_double w)))

-- `|` of numbers that share no bit.
pub lor_disjoint :
    (w k a b : ℕ) → k ≤ w → b < 2 ^ k → a * 2 ^ k < 2 ^ w → lor w (a * 2 ^ k) b ≡ a * 2 ^ k + b
unfolding lor
lor_disjoint w zero a b h small fits =
    let none_left : b ≡ 0 = omega (arith, small) in
    ap (λ c. lor w (a * 2 ^ 0) c) none_left ∙ lor_zero w (a * 2 ^ 0) fits ∙ omega (arith, none_left)
lor_disjoint zero (suc k) a b h small fits = absurd (omega (arith, h))
lor_disjoint (suc w) (suc k) a b h small fits =
    let double = times_double a k in
    let even : (a * 2 ^ suc k) % 2 ≡ 0 = omega (arith, double) in
    let half : (a * 2 ^ suc k) / 2 ≡ a * 2 ^ k = omega (arith, double) in
    let rest =
      lor_disjoint w k a (b / 2) (omega (arith, h)) (omega (arith, small, pow_double k))
        (omega (arith, fits, double, pow_double w)) in
    ap (λ m. max m (b % 2) + 2 * lor w ((a * 2 ^ suc k) / 2) (b / 2)) even
    ∙ ap (λ m. max 0 (b % 2) + 2 * lor w m (b / 2)) half
    ∙ omega (arith, rest, double)

pub lor_bound : (w a b : ℕ) → lor w a b < 2 ^ w
unfolding lor
lor_bound zero a b = omega arith
lor_bound (suc w) a b = omega (arith, lor_bound w (a / 2) (b / 2), pow_double w)
