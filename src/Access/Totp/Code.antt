-- ===== src/Access/Totp/Code.antt =====
-- `hotp` and `verifyTotp` of packages/backend/src/lib/totp.ts. SHA-1's HMAC is a parameter, and so is `toUpperCase`.
use virt_pilot.Common.{
  ℕ, zero, suc, ◌+◌, ◌-◌, ◌*◌, ◌/◌, ◌%◌, ◌^◌, ◌≤◌, ◌<◌, ◌≡◌, ◌↔◌, refl, sym, ap, ◌∙◌, inl, inr,
  Bool, true, false, ◌&&◌, ◌||◌, Option, none, some, List, [], ◌∷◌, ◌++◌, if◌then◌else◌, ltb, ◌==◌,
  ==_iff, Bool-cases, length, subst, arith,
}
use virt_pilot.Net.Bits.{lor}
use virt_pilot.Access.Totp.Base32.{nth, b32_decode, without_spaces}

-- `===` on two texts.
unfoldable pub same_codes : List ℕ → List ℕ → Bool
same_codes [] [] = true
same_codes [] (d ∷ ds) = false
same_codes (c ∷ cs) [] = false
same_codes (c ∷ cs) (d ∷ ds) = c == d && same_codes cs ds

-- `writeUInt32BE`
unfoldable pub uint32_be : ℕ → List ℕ
uint32_be n = n / 2 ^ 24 % 256 ∷ n / 2 ^ 16 % 256 ∷ n / 2 ^ 8 % 256 ∷ n % 256 ∷ []

-- The decimal digits of a number below `10 ^ fuel`, in front of what follows.
unfoldable pub decimal : ℕ → ℕ → List ℕ → List ℕ
decimal zero n after = after
decimal (suc fuel) n after =
    if ltb n 10 then (b'0' + n) ∷ after else decimal fuel (n / 10) ((b'0' + n % 10) ∷ after)

unfoldable pub pad_start : ℕ → ℕ → List ℕ → List ℕ
pad_start zero c text = text
pad_start (suc missing) c text = c ∷ pad_start missing c text

-- What `hotp` reads off the HMAC, whose bytes past its end count as 0.
unfoldable pub truncated : List ℕ → ℕ
truncated hmac =
    let offset = nth hmac (length hmac - 1) % 16 in
    lor 32
      (lor 32 (lor 32 (nth hmac offset % 128 * 2 ^ 24) (nth hmac (offset + 1) * 2 ^ 16))
        (nth hmac (offset + 2) * 2 ^ 8))
      (nth hmac (offset + 3))

-- `String(code % 1_000_000).padStart(6, '0')`
unfoldable pub six_digits : ℕ → List ℕ
six_digits code = let text = decimal 6 (code % 1000000) [] in pad_start (6 - length text) b'0' text

module _ (hmac : List ℕ → List ℕ → List ℕ) (to_upper_case : List ℕ → List ℕ) where
  unfoldable pub hotp : List ℕ → ℕ → List ℕ
  hotp secret counter = six_digits (
      truncated (
        hmac (b32_decode to_upper_case secret)
          (uint32_be (counter / 2 ^ 32) ++ uint32_be (counter % 2 ^ 32))))

  -- `tries` counters from `counter` on.
  unfoldable pub try_counters : ℕ → ℕ → List ℕ → List ℕ → Bool
  try_counters zero counter secret clean = false
  try_counters (suc tries) counter secret clean =
      same_codes (hotp secret counter) clean || try_counters tries (counter + 1) secret clean

  -- The clock is in milliseconds. A counter below zero makes `writeUInt32BE` throw: none.
  unfoldable pub verify_totp : ℕ → List ℕ → List ℕ → ℕ → Option Bool
  verify_totp now secret token window =
      let counter = now / 1000 / 30 in
      if ltb counter window
      then none
      else some (try_counters (2 * window + 1) (counter - window) secret (without_spaces token))

same_codes_sound : (a b : List ℕ) → same_codes a b ≡ true → a ≡ b
unfolding same_codes
same_codes_sound [] [] h = refl
same_codes_sound [] (d ∷ ds) h = absurd (ground (arith, h))
same_codes_sound (c ∷ cs) [] h = absurd (ground (arith, h))
same_codes_sound (c ∷ cs) (d ∷ ds) h = ground (arith, h, same_codes_sound cs ds)

pub same_codes_refl : (a : List ℕ) → same_codes a a ≡ true
unfolding same_codes
same_codes_refl [] = refl
same_codes_refl (c ∷ cs) = ground (arith, same_codes_refl cs)

pub same_codes_iff : (a b : List ℕ) → (same_codes a b ≡ true) ↔ (a ≡ b)
same_codes_iff a b = (same_codes_sound a b, λ e. ap (same_codes a) (sym e) ∙ same_codes_refl a)

-- The digits of a code, from the highest.
abbrev pub digits : ℕ → List ℕ
digits n =
    (b'0' + n / 100000 % 10)
    ∷ (b'0' + n / 10000 % 10)
    ∷ (b'0' + n / 1000 % 10)
    ∷ (b'0' + n / 100 % 10)
    ∷ (b'0' + n / 10 % 10)
    ∷ (b'0' + n % 10)
    ∷ []

six_digits_small :
    (n : ℕ) → n < 1000000 → pad_start (6 - length (decimal 6 n [])) b'0' (decimal 6 n []) ≡ digits n
unfolding decimal pad_start
six_digits_small n h = ground arith

pub six_digits-digits : (n : ℕ) → six_digits n ≡ digits n
unfolding six_digits
six_digits-digits n = six_digits_small (n % 1000000) (omega arith) ∙ ground arith

module _ (hmac : List ℕ → List ℕ → List ℕ) (to_upper_case : List ℕ → List ℕ) where
  -- Every code is six decimal digits, leading zeros included, whatever the HMAC answers.
  pub hotp-digits :
      (secret : List ℕ) (counter : ℕ)
      → (n : ℕ) × (hotp hmac to_upper_case secret counter ≡ digits n)
  unfolding hotp
  hotp-digits secret counter = (_, six_digits-digits _)

  abbrev pub Fits : List ℕ → List ℕ → ℕ → ℕ → Type 0
  Fits secret clean first tries =
      (c : ℕ) × (first ≤ c) × (c < first + tries) × (hotp hmac to_upper_case secret c ≡ clean)

  tries_sound :
      (tries first : ℕ) (secret clean : List ℕ)
      → try_counters hmac to_upper_case tries first secret clean ≡ true
      → Fits secret clean first tries
  unfolding try_counters
  tries_sound zero first secret clean h = absurd (ground (arith, h))
  tries_sound (suc tries) first secret clean h =
      elim (Bool-cases (same_codes (hotp hmac to_upper_case secret first) clean)) [
        | inl e ↦ (first, omega arith, omega arith, (same_codes_iff _ clean).0 e)
        | inr e ↦
            let (c, low, high, fit) = tries_sound tries (first + 1) secret clean (rw e at h) in
            (c, omega (arith, low), omega (arith, high), fit)
      ]

  tries_complete :
      (tries first c : ℕ) (secret : List ℕ)
      → first ≤ c
      → c < first + tries
      → try_counters hmac to_upper_case tries first secret (hotp hmac to_upper_case secret c) ≡ true
  unfolding try_counters
  tries_complete zero first c secret low high = absurd (omega (arith, low, high))
  tries_complete (suc tries) first c secret low high = elim (Bool-cases (first == c)) [
    | inl e ↦
        let here = (==_iff first c).0 e in
        ap
          (λ x.
            same_codes (hotp hmac to_upper_case secret x) (hotp hmac to_upper_case secret c)
            || try_counters hmac to_upper_case tries (first + 1) secret
                (hotp hmac to_upper_case secret c))
          here
        ∙ ap
            (λ b.
              b
              || try_counters hmac to_upper_case tries (first + 1) secret
                  (hotp hmac to_upper_case secret c))
            (same_codes_refl (hotp hmac to_upper_case secret c))
    | inr e ↦
        let later =
          tries_complete tries (first + 1) c secret (ground (arith, e, low))
            (omega (arith, high)) in
        ground (arith, later)
  ]

  -- A token is accepted exactly if, without its spaces, it is the code of a time step at most `window` steps from the clock's.
  pub verify_totp_iff :
      (now window : ℕ) (secret token : List ℕ)
      → window ≤ now / 1000 / 30
      → (verify_totp hmac to_upper_case now secret token window ≡ some true) ↔ (
          (c : ℕ) × (now / 1000 / 30 ≤ c + window)
          × (c ≤ now / 1000 / 30 + window)
          × (hotp hmac to_upper_case secret c ≡ without_spaces token))
  unfolding verify_totp
  verify_totp_iff now window secret token h = (
    λ e.
        let hit : try_counters hmac to_upper_case (2 * window + 1) (now / 1000 / 30 - window) secret
              (without_spaces token)
            ≡ true =
          ground (arith, e) in
        let (c, low, high, fit) =
          tries_sound (2 * window + 1) (now / 1000 / 30 - window) secret (without_spaces token)
            hit in
        (c, omega (arith, low, h), omega (arith, high, h), fit),
    λ (c, low, high, fit).
        let hit =
          tries_complete (2 * window + 1) (now / 1000 / 30 - window) c secret (omega (arith, low))
            (omega (arith, high, h)) in
        let hit' =
          subst
            (λ t.
              try_counters hmac to_upper_case (2 * window + 1) (now / 1000 / 30 - window) secret t
              ≡ true)
            fit hit in
        ground (arith, hit', h),
  )
