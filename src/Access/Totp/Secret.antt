-- ===== src/Access/Totp/Secret.antt =====
-- A secret as text. What the decoder takes out of a text, spaces and padding, the encoder never writes.
use virt_pilot.Common.{
  ℕ, zero, suc, ◌+◌, ◌-◌, ◌*◌, ◌/◌, ◌%◌, ◌^◌, ◌<◌, ◌≡◌, refl, ap, ◌∙◌, inl, inr, true, false, not,
  ◌&&◌, List, [], ◌∷◌, ◌++◌, All, All-map, ltb, leb, ◌==◌, Bool-cases, arith,
}
use virt_pilot.Access.Totp.Base32.{
  letter, push, drain, encode_from, decode_from, b32_encode, is_space, without_spaces,
  without_padding, cons_unless_end, b32_decode,
}
use virt_pilot.Access.Totp.RoundTrip.{passes_on, passes_at, decode-encode}

-- A letter of the alphabet.
abbrev pub IsLetter : ℕ → Type 0
IsLetter c = (i : ℕ) × (i < 32) × (c ≡ letter i)

letters_plain : passes_on (λ i. not (is_space (letter i)) && not (letter i == b'=')) 32 ≡ true
unfolding passes_on is_space letter
letters_plain = refl

abbrev IsPlain : ℕ → Type 0
IsPlain c = (not (is_space c) && not (c == b'=')) ≡ true

IsLetter-IsPlain : (c : ℕ) → IsLetter c → IsPlain c
IsLetter-IsPlain c (i, small, e) =
    ap (λ x. not (is_space x) && not (x == b'=')) e ∙ passes_at _ 32 letters_plain i small

All-append : (xs ys : List ℕ) → All IsLetter xs → All IsLetter ys → All IsLetter (xs ++ ys)
All-append [] ys hx hy = hy
All-append (x ∷ xs) ys hx hy = (hx.0, All-append xs ys hx.1 hy)

drain-IsLetter : (fuel value bits : ℕ) → All IsLetter (drain fuel value bits).0
unfolding drain
drain-IsLetter zero value bits = tt
drain-IsLetter (suc fuel) value bits =
    elim (leb 5 bits)
      as (λ b.
        let r : List ℕ × ℕ = elim b [
          | true ↦
              let (out, left) = drain fuel value (bits - 5) in
              (letter (value / 2 ^ (bits - 5) % 32) ∷ out, left)
          | false ↦ ([], bits)
        ] in
        All IsLetter r.0) [
          | true ↦ (
            (value / 2 ^ (bits - 5) % 32, omega arith, refl),
            drain-IsLetter fuel value (bits - 5),
          )
          | false ↦ tt
        ]

encode_from-IsLetter :
    (bits value : ℕ) (bytes : List ℕ) → All IsLetter (encode_from bits value bytes)
unfolding encode_from
encode_from-IsLetter bits value [] = elim (Bool-cases (ltb 0 bits)) [
  | inl e ↦ rw e ((value * 2 ^ (5 - bits) % 2 ^ 32 % 32, omega arith, refl), tt)
  | inr e ↦ rw e tt
]
encode_from-IsLetter bits value (byte ∷ bytes) =
    All-append (drain (bits + 8) (push 8 value byte) (bits + 8)).0 _
      (drain-IsLetter (bits + 8) (push 8 value byte) (bits + 8))
      (encode_from-IsLetter (drain (bits + 8) (push 8 value byte) (bits + 8)).1 (push 8 value byte)
        bytes)

without_spaces-plain : (text : List ℕ) → All IsPlain text → without_spaces text ≡ text
unfolding without_spaces
without_spaces-plain [] h = refl
without_spaces-plain (c ∷ cs) h = ground (arith, h.0, without_spaces-plain cs h.1)

cons_unless_end-plain : (c : ℕ) (cs : List ℕ) → IsPlain c → cons_unless_end c cs ≡ c ∷ cs
cons_unless_end-plain c [] h = ground (arith, h)
cons_unless_end-plain c (d ∷ ds) h = refl

without_padding-plain : (text : List ℕ) → All IsPlain text → without_padding text ≡ text
unfolding without_padding
without_padding-plain [] h = refl
without_padding-plain (c ∷ cs) h =
    ap (cons_unless_end c) (without_padding-plain cs h.1) ∙ cons_unless_end-plain c cs h.0

-- The encoding of any bytes decodes to the same bytes, where `toUpperCase` leaves the alphabet's letters alone.
pub b32_decode-encode :
    (to_upper_case : List ℕ → List ℕ) (bytes : List ℕ)
    → ((text : List ℕ) → All IsLetter text → to_upper_case text ≡ text)
    → All (λ b. b < 256) bytes
    → b32_decode to_upper_case (b32_encode bytes) ≡ bytes
unfolding b32_decode b32_encode
b32_decode-encode to_upper_case bytes upper small =
    let text = encode_from 0 0 bytes in
    let letters = encode_from-IsLetter 0 0 bytes in
    let plain = All-map IsLetter IsPlain text IsLetter-IsPlain letters in
    ap (λ t. decode_from 0 0 (without_spaces (without_padding t))) (upper text letters)
    ∙ ap (λ t. decode_from 0 0 (without_spaces t)) (without_padding-plain text plain)
    ∙ ap (decode_from 0 0) (without_spaces-plain text plain)
    ∙ decode-encode bytes small
