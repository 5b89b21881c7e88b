-- ===== src/Access/Totp/Base32.antt =====
-- `b32Decode` and `b32Encode` of packages/backend/src/lib/totp.ts. `value` is a 32-bit word, so what is shifted out of it is lost.
use Prim.Native.Char.{code}
use virt_pilot.Common.{
  ℕ, zero, suc, ◌+◌, ◌-◌, ◌*◌, ◌/◌, ◌%◌, ◌^◌, ◌≤◌, ◌<◌, Bool, true, false, not, ◌&&◌, ◌||◌, Option,
  none, some, List, [], ◌∷◌, ◌++◌, keep, if◌then◌else◌, ltb, leb, ◌==◌, String, arith,
}
use virt_pilot.Net.Bits.{lor}

-- The code points of a text.
abbrev pub codes : String → List ℕ
codes String.[] = []
codes (String.◌∷◌ c s) = code c ∷ codes s

abbrev pub b32 : List ℕ
b32 = codes "ABCDEFGHIJKLMNOPQRSTUVWXYZ234567"

-- `B32[i]`; past the end it is no letter.
abbrev pub nth : List ℕ → ℕ → ℕ
nth [] i = 0
nth (c ∷ cs) zero = c
nth (c ∷ cs) (suc i) = nth cs i

abbrev pub index_from : ℕ → List ℕ → ℕ → Option ℕ
index_from i [] c = none
index_from i (d ∷ ds) c = if d == c then some i else index_from (i + 1) ds c

unfoldable pub letter : ℕ → ℕ
letter i = nth b32 i

-- `B32.indexOf(char)`, none below zero.
unfoldable pub index_of : ℕ → Option ℕ
index_of c = index_from 0 b32 c

-- `(value << k) | part`
unfoldable pub push : ℕ → ℕ → ℕ → ℕ
push k value part = lor 32 (value * 2 ^ k % 2 ^ 32) part

-- `while (bits >= 5)`: the letters, and the bits that are left.
unfoldable pub drain : ℕ → ℕ → ℕ → List ℕ × ℕ
drain zero value bits = ([], bits)
drain (suc fuel) value bits = elim (leb 5 bits) [
  | true ↦
      let (out, left) = drain fuel value (bits - 5) in
      (letter (value / 2 ^ (bits - 5) % 32) ∷ out, left)
  | false ↦ ([], bits)
]

unfoldable pub encode_from : ℕ → ℕ → List ℕ → List ℕ
encode_from bits value [] =
    if ltb 0 bits then letter (value * 2 ^ (5 - bits) % 2 ^ 32 % 32) ∷ [] else []
encode_from bits value (byte ∷ bytes) =
    let value' = push 8 value byte in
    let (out, left) = drain (bits + 8) value' (bits + 8) in out ++ encode_from left value' bytes

unfoldable pub b32_encode : List ℕ → List ℕ
b32_encode bytes = encode_from 0 0 bytes

-- The loop of `b32Decode`, with the letter's place in the alphabet.
unfoldable pub decode_from : ℕ → ℕ → List ℕ → List ℕ
decode_from bits value [] = []
decode_from bits value (c ∷ cs) = elim (index_of c) [
  | none ↦ decode_from bits value cs
  | some i ↦ elim (leb 8 (bits + 5)) [
    | true ↦
        (push 5 value i / 2 ^ (bits + 5 - 8) % 256) ∷ decode_from (bits + 5 - 8) (push 5 value i) cs
    | false ↦ decode_from (bits + 5) (push 5 value i) cs
  ]
]

-- `\s`
unfoldable pub is_space : ℕ → Bool
is_space c =
    leb 9 c && leb c 13
    || c == 32
    || c == 160
    || c == 0x1680
    || leb 0x2000 c && leb c 0x200a
    || c == 0x2028
    || c == 0x2029
    || c == 0x202f
    || c == 0x205f
    || c == 0x3000
    || c == 0xfeff

-- `.replace(/\s/g, '')`
unfoldable pub without_spaces : List ℕ → List ℕ
without_spaces text = keep (λ c. not (is_space c)) text

abbrev pub cons_unless_end : ℕ → List ℕ → List ℕ
cons_unless_end c (d ∷ ds) = c ∷ d ∷ ds
cons_unless_end c [] = if c == b'=' then [] else c ∷ []

-- `.replace(/=+$/, '')`
unfoldable pub without_padding : List ℕ → List ℕ
without_padding [] = []
without_padding (c ∷ cs) = cons_unless_end c (without_padding cs)

-- `toUpperCase` is a parameter.
unfoldable pub b32_decode : (List ℕ → List ℕ) → List ℕ → List ℕ
b32_decode to_upper_case text =
    decode_from 0 0 (without_spaces (without_padding (to_upper_case text)))

-- With a round for each bit the loop ends by its test.
pub drain_done : (fuel value bits : ℕ) → bits ≤ fuel → (drain fuel value bits).1 < 5
unfolding drain
drain_done zero value bits h = omega arith
drain_done (suc fuel) value bits h = ground (arith, drain_done fuel value (bits - 5))
