-- ===== src/Console/Backlog/Trim.antt =====
-- The `while` of `append` leaves the last `cap` bytes.
use virt_pilot.Common.{
  ℕ, zero, suc, ◌+◌, ◌-◌, ◌≤◌, ◌<◌, ◌≡◌, refl, sym, ap, ◌∙◌, inl, inr, min, List, [], ◌∷◌, ◌++◌,
  length, drop, ltb, leb, arith, length-append, Bool-cases, List-cases,
}
use virt_pilot.Console.Backlog.{Backlog, concat, trim}

module _ {ℓ} {A : Type ℓ} where
  pub drop-append_le :
      (n : ℕ) (xs ys : List A) → n ≤ length xs → drop n (xs ++ ys) ≡ drop n xs ++ ys
  drop-append_le zero xs ys h = refl
  drop-append_le (suc n) [] ys h = absurd (omega arith)
  drop-append_le (suc n) (x ∷ xs) ys h = drop-append_le n xs ys (omega arith)

  pub drop-append_ge :
      (n : ℕ) (xs ys : List A) → length xs ≤ n → drop n (xs ++ ys) ≡ drop (n - length xs) ys
  drop-append_ge n [] ys h = ap (λ k. drop k ys) (omega arith)
  drop-append_ge zero (x ∷ xs) ys h = absurd (omega arith)
  drop-append_ge (suc n) (x ∷ xs) ys h =
      drop-append_ge n xs ys (omega arith) ∙ ap (λ k. drop k ys) (omega arith)

  pub drop-nil : (n : ℕ) → drop {A = A} n [] ≡ []
  drop-nil zero = refl
  drop-nil (suc n) = refl

  pub drop-drop : (m n : ℕ) (xs : List A) → drop m (drop n xs) ≡ drop (n + m) xs
  drop-drop m zero xs = ap (λ k. drop k xs) (omega arith)
  drop-drop m (suc n) [] = drop-nil m ∙ sym (drop-nil (suc n + m))
  drop-drop m (suc n) (x ∷ xs) =
      drop-drop m n xs ∙ ap (λ k. drop k (x ∷ xs)) {x = suc (n + m)} {y = suc n + m} (omega arith)

  pub length-drop : (n : ℕ) (xs : List A) → length (drop n xs) ≡ length xs - n
  length-drop zero xs = omega arith
  length-drop (suc n) [] = omega arith
  length-drop (suc n) (x ∷ xs) = omega (arith, length-drop n xs)

-- What is known of the loop's result.
pub record IsTrimmed (b t : Backlog) : Type 0 where
  pub text : concat t.chunks ≡ drop (b.bytes - b.cap) (concat b.chunks)
  pub size : t.bytes ≡ min b.bytes b.cap
  pub cap : t.cap ≡ b.cap
  pub total : t.total ≡ b.total

IsTrimmed-same : (b : Backlog) → b.bytes ≤ b.cap → IsTrimmed b b
IsTrimmed-same b h = record {
  text = ap (λ n. drop n (concat b.chunks)) {x = 0} {y = b.bytes - b.cap} (omega (arith, h));
  size = omega (arith, h);
  cap = refl;
  total = refl;
}

-- One more round when nothing is over the cap changes nothing.
trim_within : (fuel : ℕ) (b : Backlog) → b.bytes ≤ b.cap → trim fuel b ≡ b
unfolding trim
trim_within zero b h = refl
trim_within (suc fuel) b h = elim (List-cases b.chunks) [
  | inl e ↦ ground (arith, e)
  | inr (head, rest, e) ↦ ground (arith, e, h)
]

-- The round when the head goes whole.
trim_drops :
    (fuel : ℕ) (b : Backlog) (head : List ℕ) (rest : List (List ℕ))
    → b.chunks ≡ head ∷ rest
    → b.cap < b.bytes
    → length head ≤ b.bytes - b.cap
    → trim (suc fuel) b ≡ trim fuel (record b { chunks = rest; bytes = b.bytes - length head })
unfolding trim
trim_drops fuel b head rest e over whole = ground (arith, e, over, whole)

-- The round when the head is cut.
trim_cuts :
    (fuel : ℕ) (b : Backlog) (head : List ℕ) (rest : List (List ℕ))
    → b.chunks ≡ head ∷ rest
    → b.cap < b.bytes
    → b.bytes - b.cap < length head
    → trim (suc fuel) b
      ≡ trim fuel (record b {
        chunks = drop (b.bytes - b.cap) head ∷ rest;
        bytes = b.bytes - (b.bytes - b.cap);
      })
unfolding trim
trim_cuts fuel b head rest e over part = ground (arith, e, over, part)

concat_head :
    (chunks : List (List ℕ)) (head : List ℕ) (rest : List (List ℕ))
    → chunks ≡ head ∷ rest
    → concat chunks ≡ head ++ concat rest
concat_head chunks head rest e = ap concat e

pub trim-IsTrimmed :
    (fuel : ℕ) (b : Backlog)
    → b.bytes ≡ length (concat b.chunks)
    → length b.chunks < fuel
    → IsTrimmed b (trim fuel b)
trim-IsTrimmed zero b held h = absurd (omega arith)
trim-IsTrimmed (suc fuel) b held h = elim (Bool-cases (ltb b.cap b.bytes)) [
  | inr within ↦
      rw (trim_within (suc fuel) b (ground (arith, within)))
        (IsTrimmed-same b (ground (arith, within)))
  | inl t ↦
      let over : b.cap < b.bytes = ground (arith, t) in
      elim (List-cases b.chunks) [
        | inl e ↦ absurd (omega (arith, held, over, ap (λ c. length (concat c)) e))
        | inr (head, rest, e) ↦
            let text = concat_head b.chunks head rest e in
            let size = ap length text ∙ length-append head (concat rest) in
            let many = ap length e in
            elim (Bool-cases (leb (length head) (b.bytes - b.cap))) [
              | inl w ↦
                  let whole : length head ≤ b.bytes - b.cap = ground (arith, w) in
                  let later =
                    trim-IsTrimmed fuel (record b { chunks = rest; bytes = b.bytes - length head })
                      (omega (arith, held, size)) (omega (arith, h, many)) in
                  rw (trim_drops fuel b head rest e over whole) (record {
                    text =
                        later.text
                        ∙ ap (λ n. drop n (concat rest)) (omega arith)
                        ∙ sym (drop-append_ge (b.bytes - b.cap) head (concat rest) whole)
                        ∙ ap (drop (b.bytes - b.cap)) (sym text);
                    size = omega (arith, later.size, over, whole, held, size);
                    cap = later.cap;
                    total = later.total;
                  })
              | inr w ↦
                  let part : b.bytes - b.cap < length head = ground (arith, w) in
                  let cut : Backlog = record b {
                    chunks = drop (b.bytes - b.cap) head ∷ rest;
                    bytes = b.bytes - (b.bytes - b.cap);
                  } in
                  rw
                    (trim_cuts fuel b head rest e over part
                      ∙ trim_within fuel cut (omega (arith, over)))
                    (record {
                      text =
                          sym (
                            drop-append_le (b.bytes - b.cap) head (concat rest)
                              (omega (arith, part)))
                          ∙ ap (drop (b.bytes - b.cap)) (sym text);
                      size = omega (arith, over);
                      cap = refl;
                      total = refl;
                    })
            ]
      ]
]
