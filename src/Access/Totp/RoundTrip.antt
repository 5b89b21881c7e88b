-- ===== src/Access/Totp/RoundTrip.antt =====
-- What `b32Encode` writes, `b32Decode` reads back.
use virt_pilot.Common.{
  inl, inr, if◌then◌else◌, Bool-cases, ℕ, zero, suc, ◌+◌, ◌-◌, ◌*◌, ◌/◌, ◌%◌, ◌^◌, ◌<◌, ◌≡◌, refl,
  ap, ◌∙◌, Bool, true, false, Option, none, some, List, [], ◌∷◌, All, leb, ◌==◌, ==_iff, arith,
}
use virt_pilot.Net.Bits.{lor, lor_disjoint}
use virt_pilot.Access.Totp.Base32.{letter, index_of, push, drain, encode_from, decode_from}

-- A test passes on every place of the alphabet before `n`.
unfoldable pub passes_on : (ℕ → Bool) → ℕ → Bool
passes_on test zero = true
passes_on test (suc place) = if test place then passes_on test place else false

pub passes_at :
    (test : ℕ → Bool) (n : ℕ) → passes_on test n ≡ true → (i : ℕ) → i < n → test i ≡ true
unfolding passes_on
passes_at test zero h i under = absurd (omega (arith, under))
passes_at test (suc place) h i under = elim (Bool-cases (i == place)) [
  | inl last ↦ ap test ((==_iff i place).0 last) ∙ ground (arith, h)
  | inr early ↦ passes_at test place (ground (arith, h)) i (ground (arith, early, under))
]

is_at : ℕ → Option ℕ → Bool
is_at i none = false
is_at i (some j) = j == i

is_at_sound : (i : ℕ) (o : Option ℕ) → is_at i o ≡ true → o ≡ some i
unfolding is_at
is_at_sound i none h = absurd (ground (arith, h))
is_at_sound i (some j) h = ap (λ x. some x) ((==_iff j i).0 h)

letters_known : passes_on (λ i. is_at i (index_of (letter i))) 32 ≡ true
unfolding passes_on is_at index_of letter
letters_known = refl

index_of-letter : (i : ℕ) → i < 32 → index_of (letter i) ≡ some i
index_of-letter i h = is_at_sound i _ (passes_at _ 32 letters_known i h)

push_byte : (v b : ℕ) → b < 256 → push 8 v b ≡ v * 256 % 4294967296 + b
unfolding push
push_byte v b h =
    let high : v * 2 ^ 8 % 2 ^ 32 ≡ v % 16777216 * 2 ^ 8 = omega arith in
    ap (λ x. lor 32 x b) high
    ∙ lor_disjoint 32 8 (v % 16777216) b (omega arith) (omega arith) (omega arith)
    ∙ omega arith

push_five : (v i : ℕ) → i < 32 → push 5 v i ≡ v * 32 % 4294967296 + i
unfolding push
push_five v i h =
    let high : v * 2 ^ 5 % 2 ^ 32 ≡ v % 134217728 * 2 ^ 5 = omega arith in
    ap (λ x. lor 32 x i) high
    ∙ lor_disjoint 32 5 (v % 134217728) i (omega arith) (omega arith) (omega arith)
    ∙ omega arith

-- A letter that the decoder meets.
decode-letter :
    (bits v i : ℕ) (cs : List ℕ)
    → i < 32
    → decode_from bits v (letter i ∷ cs) ≡ elim (leb 8 (bits + 5)) [
      | true ↦ (push 5 v i / 2 ^ (bits + 5 - 8) % 256) ∷ decode_from (bits + 5 - 8) (push 5 v i) cs
      | false ↦ decode_from (bits + 5) (push 5 v i) cs
    ]
unfolding decode_from
decode-letter bits v i cs h =
    ap
      (λ o. elim o [
        | none ↦ decode_from bits v cs
        | some i ↦ elim (leb 8 (bits + 5)) [
          | true ↦
              (push 5 v i / 2 ^ (bits + 5 - 8) % 256) ∷ decode_from (bits + 5 - 8) (push 5 v i) cs
          | false ↦ decode_from (bits + 5) (push 5 v i) cs
        ]
      ])
      (index_of-letter i h)

-- Nothing is under way.
abbrev Level : List ℕ → Type 0
Level bytes = (ev dv : ℕ) → decode_from 0 dv (encode_from 0 ev bytes) ≡ bytes

-- One byte is under way, its last `eb` bits not yet written.
abbrev Midway : ℕ → ℕ → List ℕ → Type 0
Midway eb db bytes =
    (ev dv p : ℕ)
    → dv % 2 ^ db * 2 ^ eb + ev % 2 ^ eb ≡ p
    → p < 256
    → decode_from db dv (encode_from eb ev bytes) ≡ p ∷ bytes

Level-step : (b : ℕ) (bytes : List ℕ) → b < 256 → Midway 3 5 bytes → Level (b ∷ bytes)
unfolding encode_from drain
Level-step b bytes small next ev dv =
    let v = push 8 ev b in
    let i = v / 8 % 32 in
    decode-letter 0 dv i (encode_from 3 v bytes) (omega arith)
    ∙ next v (push 5 dv i) b (omega (arith, push_byte ev b small, push_five dv i (omega arith)))
        small

Midway_three-step : (b : ℕ) (bytes : List ℕ) → b < 256 → Midway 1 7 bytes → Midway 3 5 (b ∷ bytes)
unfolding encode_from drain
Midway_three-step b bytes small next ev dv p h ps =
    let v = push 8 ev b in
    let i = v / 64 % 32 in
    let j = v / 2 % 32 in
    let w = push 5 dv i in
    let w' = push 5 w j in
    let ew = push_five dv i (omega arith) in
    let ew' = push_five w j (omega arith) in
    let ev' = push_byte ev b small in
    decode-letter 5 dv i (letter j ∷ encode_from 1 v bytes) (omega arith)
    ∙ ap (λ x. x ∷ decode_from 2 w (letter j ∷ encode_from 1 v bytes))
        (ap (λ x. x / 4 % 256) ew ∙ omega (arith, h, ps, ev'))
    ∙ ap (λ xs. p ∷ xs)
        (decode-letter 2 w j (encode_from 1 v bytes) (omega arith)
          ∙ next v w' b (omega (arith, ew, ew', ev')) small)

Midway_one-step : (b : ℕ) (bytes : List ℕ) → b < 256 → Midway 4 4 bytes → Midway 1 7 (b ∷ bytes)
unfolding encode_from drain
Midway_one-step b bytes small next ev dv p h ps =
    let v = push 8 ev b in
    let i = v / 16 % 32 in
    let w = push 5 dv i in
    let ew = push_five dv i (omega arith) in
    let ev' = push_byte ev b small in
    decode-letter 7 dv i (encode_from 4 v bytes) (omega arith)
    ∙ ap (λ x. x ∷ decode_from 4 w (encode_from 4 v bytes))
        (ap (λ x. x / 16 % 256) ew ∙ omega (arith, h, ps, ev'))
    ∙ ap (λ xs. p ∷ xs) (next v w b (omega (arith, ew, ev')) small)

Midway_four-step : (b : ℕ) (bytes : List ℕ) → b < 256 → Midway 2 6 bytes → Midway 4 4 (b ∷ bytes)
unfolding encode_from drain
Midway_four-step b bytes small next ev dv p h ps =
    let v = push 8 ev b in
    let i = v / 128 % 32 in
    let j = v / 4 % 32 in
    let w = push 5 dv i in
    let w' = push 5 w j in
    let ew = push_five dv i (omega arith) in
    let ew' = push_five w j (omega arith) in
    let ev' = push_byte ev b small in
    decode-letter 4 dv i (letter j ∷ encode_from 2 v bytes) (omega arith)
    ∙ ap (λ x. x ∷ decode_from 1 w (letter j ∷ encode_from 2 v bytes))
        (ap (λ x. x / 2 % 256) ew ∙ omega (arith, h, ps, ev'))
    ∙ ap (λ xs. p ∷ xs)
        (decode-letter 1 w j (encode_from 2 v bytes) (omega arith)
          ∙ next v w' b (omega (arith, ew, ew', ev')) small)

Midway_two-step : (b : ℕ) (bytes : List ℕ) → b < 256 → Level bytes → Midway 2 6 (b ∷ bytes)
unfolding encode_from drain
Midway_two-step b bytes small next ev dv p h ps =
    let v = push 8 ev b in
    let i = v / 32 % 32 in
    let j = v / 1 % 32 in
    let w = push 5 dv i in
    let w' = push 5 w j in
    let ew = push_five dv i (omega arith) in
    let ew' = push_five w j (omega arith) in
    let ev' = push_byte ev b small in
    decode-letter 6 dv i (letter j ∷ encode_from 0 v bytes) (omega arith)
    ∙ ap (λ x. x ∷ decode_from 3 w (letter j ∷ encode_from 0 v bytes))
        (ap (λ x. x / 8 % 256) ew ∙ omega (arith, h, ps, ev'))
    ∙ ap (λ xs. p ∷ xs)
        (decode-letter 3 w j (encode_from 0 v bytes) (omega arith)
          ∙ ap (λ x. x ∷ decode_from 0 w' (encode_from 0 v bytes))
              (ap (λ x. x / 1 % 256) ew' ∙ omega (arith, ew, ev'))
          ∙ ap (λ xs. b ∷ xs) (next v w'))

-- The last letter carries what is left of the byte.
Midway_three-end : Midway 3 5 []
unfolding encode_from decode_from
Midway_three-end ev dv p h ps =
    let i = ev * 4 % 4294967296 % 32 in
    let w = push_five dv i (omega arith) in
    decode-letter 5 dv i [] (omega arith)
    ∙ ap (λ x. x ∷ []) (ap (λ x. x / 4 % 256) w ∙ omega (arith, h, ps))

Midway_one-end : Midway 1 7 []
unfolding encode_from decode_from
Midway_one-end ev dv p h ps =
    let i = ev * 16 % 4294967296 % 32 in
    let w = push_five dv i (omega arith) in
    decode-letter 7 dv i [] (omega arith)
    ∙ ap (λ x. x ∷ []) (ap (λ x. x / 16 % 256) w ∙ omega (arith, h, ps))

Midway_four-end : Midway 4 4 []
unfolding encode_from decode_from
Midway_four-end ev dv p h ps =
    let i = ev * 2 % 4294967296 % 32 in
    let w = push_five dv i (omega arith) in
    decode-letter 4 dv i [] (omega arith)
    ∙ ap (λ x. x ∷ []) (ap (λ x. x / 2 % 256) w ∙ omega (arith, h, ps))

Midway_two-end : Midway 2 6 []
unfolding encode_from decode_from
Midway_two-end ev dv p h ps =
    let i = ev * 8 % 4294967296 % 32 in
    let w = push_five dv i (omega arith) in
    decode-letter 6 dv i [] (omega arith)
    ∙ ap (λ x. x ∷ []) (ap (λ x. x / 8 % 256) w ∙ omega (arith, h, ps))

-- The five places in a byte at which the encoder can stand.
rounds :
    (bytes : List ℕ)
    → All (λ b. b < 256) bytes
    → Level bytes × Midway 3 5 bytes × Midway 1 7 bytes × Midway 4 4 bytes × Midway 2 6 bytes
unfolding encode_from decode_from
rounds [] h = (λ ev dv. refl, Midway_three-end, Midway_one-end, Midway_four-end, Midway_two-end)
rounds (b ∷ bytes) h =
    let (level, three, one, four, two) = rounds bytes h.1 in
    (
      Level-step b bytes h.0 three,
      Midway_three-step b bytes h.0 one,
      Midway_one-step b bytes h.0 four,
      Midway_four-step b bytes h.0 two,
      Midway_two-step b bytes h.0 level,
    )

-- The bytes that the loops make of each other.
pub decode-encode :
    (bytes : List ℕ) → All (λ b. b < 256) bytes → decode_from 0 0 (encode_from 0 0 bytes) ≡ bytes
decode-encode bytes h = (rounds bytes h).0 0 0
