-- ===== src/Console/Backlog/History.antt =====
-- A backlog against the whole history of the console: the bytes ever appended.
use virt_pilot.Common.{
  ℕ, suc, ◌+◌, ◌-◌, ◌≡◌, refl, sym, ap, ◌∙◌, inl, inr, min, Option, none, some, List, [], ◌∷◌, ◌++◌,
  length, drop, if◌then◌else◌, leb, arith, length-append, append-nil, append_assoc, Bool-cases,
  ◌&&◌,
}
use virt_pilot.Console.Backlog.{Backlog, empty_backlog, concat, start, append, since}
use virt_pilot.Console.Backlog.Trim.{
  drop-append_le, drop-nil, drop-drop, length-drop, trim-IsTrimmed,
}

-- The backlog holds the last `cap` bytes of the history and counts it.
pub record Holds (cap : ℕ) (h : List ℕ) (b : Backlog) : Type 0 where
  pub counted : b.total ≡ length h
  pub size : b.bytes ≡ min (length h) cap
  pub text : concat b.chunks ≡ drop (length h - cap) h
  pub bound : b.cap ≡ cap

pub empty_backlog-Holds : (cap : ℕ) → Holds cap [] (empty_backlog cap)
empty_backlog-Holds cap = record {
  counted = refl;
  size = omega arith;
  text = sym (drop-nil (0 - cap));
  bound = refl;
}

concat-snoc : (cs : List (List ℕ)) (c : List ℕ) → concat (cs ++ c ∷ []) ≡ concat cs ++ c
concat-snoc [] c = append-nil c
concat-snoc (x ∷ cs) c = ap (λ ys. x ++ ys) (concat-snoc cs c) ∙ sym (append_assoc x (concat cs) c)

Holds-measure :
    (cap : ℕ) (h : List ℕ) (b : Backlog) → Holds cap h b → b.bytes ≡ length (concat b.chunks)
Holds-measure cap h b held =
    let e = ap length held.text ∙ length-drop (length h - cap) h in omega (arith, held.size, e)

-- `append` extends the history.
pub append-Holds :
    (cap : ℕ) (h buf : List ℕ) (b : Backlog) → Holds cap h b → Holds cap (h ++ buf) (append buf b)
unfolding append
append-Holds cap h [] b held = rw (append-nil h) held
append-Holds cap h (x ∷ xs) b held =
    let buf : List ℕ = x ∷ xs in
    let all : Backlog = record b {
      chunks = b.chunks ++ buf ∷ [];
      bytes = b.bytes + length buf;
      total = b.total + length buf;
    } in
    let joined = concat-snoc b.chunks buf in
    let m = Holds-measure cap h b held in
    let t =
      trim-IsTrimmed (suc (length all.chunks)) all
        (omega (arith, m, ap length joined, length-append (concat b.chunks) buf)) (omega arith) in
    let n = length-append h buf in
    record {
      counted = t.total ∙ omega (arith, held.counted, n);
      size = t.size ∙ omega (arith, held.size, held.bound, n);
      text =
          t.text
          ∙ ap (drop (all.bytes - all.cap)) (
              joined
              ∙ ap (λ ys. ys ++ buf) held.text
              ∙ sym (drop-append_le (length h - cap) h buf (omega arith)))
          ∙ drop-drop (all.bytes - all.cap) (length h - cap) (h ++ buf)
          ∙ ap (λ k. drop k (h ++ buf)) (omega (arith, held.size, held.bound, n));
      bound = t.cap ∙ held.bound;
    }

-- The console's appends, in order.
abbrev pub append_all : Backlog → List (List ℕ) → Backlog
append_all b [] = b
append_all b (buf ∷ bufs) = append_all (append buf b) bufs

append_all-keeps :
    (cap : ℕ) (h : List ℕ) (b : Backlog) (bufs : List (List ℕ))
    → Holds cap h b
    → Holds cap (h ++ concat bufs) (append_all b bufs)
append_all-keeps cap h b [] held = rw (append-nil h) held
append_all-keeps cap h b (buf ∷ bufs) held =
    rw (sym (append_assoc h buf (concat bufs)))
      (append_all-keeps cap (h ++ buf) (append buf b) bufs (append-Holds cap h buf b held))

pub append_all-Holds :
    (cap : ℕ) (bufs : List (List ℕ)) → Holds cap (concat bufs) (append_all (empty_backlog cap) bufs)
append_all-Holds cap bufs =
    append_all-keeps cap [] (empty_backlog cap) bufs (empty_backlog-Holds cap)

start_of : (cap : ℕ) (h : List ℕ) (b : Backlog) → Holds cap h b → start b ≡ length h - cap
unfolding start
start_of cap h b held = omega (arith, held.counted, held.size)

-- What a reconnecting client is owed: the history from its offset on, or none when some of it is gone.
abbrev pub resume : ℕ → List ℕ → ℕ → Option (List ℕ)
resume cap h offset =
    if leb (length h - cap) offset && leb offset (length h) then some (drop offset h) else none

since-Holds :
    (cap : ℕ) (h : List ℕ) (b : Backlog) (offset : ℕ)
    → Holds cap h b
    → since offset b ≡ resume cap h offset
unfolding since
since-Holds cap h b offset held =
    let at : b.total - b.bytes ≡ length h - cap = omega (arith, held.counted, held.size) in
    let end = held.counted in
    elim (Bool-cases (leb (length h - cap) offset)) [
      | inr low ↦ ground (arith, at, end, low)
      | inl low ↦ elim (Bool-cases (leb offset (length h))) [
        | inr high ↦ ground (arith, at, end, low, high)
        | inl high ↦
            let text : drop (offset - (b.total - b.bytes)) (concat b.chunks) ≡ drop offset h =
              ap (drop (offset - (b.total - b.bytes))) held.text
              ∙ drop-drop (offset - (b.total - b.bytes)) (length h - cap) h
              ∙ ap (λ k. drop k h) (ground (arith, at, low)) in
            ground (arith, at, end, low, high, text)
      ]
    ]

-- After any appends `since` gives everything appended from the offset on, when that is among the last `cap` bytes
-- and not past the end, and nothing otherwise.
pub since-resume :
    (cap : ℕ) (bufs : List (List ℕ)) (offset : ℕ)
    → since offset (append_all (empty_backlog cap) bufs) ≡ resume cap (concat bufs) offset
since-resume cap bufs offset =
    since-Holds cap (concat bufs) (append_all (empty_backlog cap) bufs) offset
      (append_all-Holds cap bufs)
