-- ===== src/Console/Backlog.antt =====
-- The class `Backlog` of packages/backend/src/lib/serialConsole.ts and `stripInput`. A buffer is
-- the list of its bytes.
pub mod Trim
pub mod History
pub mod Line
use virt_pilot.Common.{
  ℕ, zero, suc, ◌+◌, ◌-◌, Bool, true, false, not, Option, none, some, List, [], ◌∷◌, ◌++◌, length,
  take, drop, keep, if◌then◌else◌, ltb, leb, ◌==◌, ◌||◌,
}

pub record Backlog : Type 0 where
  pub cap : ℕ
  pub chunks : List (List ℕ)
  pub bytes : ℕ
  pub total : ℕ

abbrev pub empty_backlog : ℕ → Backlog
empty_backlog cap = record { cap = cap; chunks = []; bytes = 0; total = 0 }

-- `Buffer.concat`
abbrev pub concat : List (List ℕ) → List ℕ
concat [] = []
concat (c ∷ cs) = c ++ concat cs

unfoldable pub start : Backlog → ℕ
start b = b.total - b.bytes

-- The `while` of `append`, a round per unit of fuel.
unfoldable pub trim : ℕ → Backlog → Backlog
trim zero b = b
trim (suc fuel) b = elim b.chunks [
  | [] ↦ b
  | head ∷ rest ↦
      if ltb b.cap b.bytes
      then (if leb (length head) (b.bytes - b.cap)
          then trim fuel (record b { chunks = rest; bytes = b.bytes - length head })
          else trim fuel (record b {
            chunks = drop (b.bytes - b.cap) head ∷ rest;
            bytes = b.bytes - (b.bytes - b.cap);
          }))
      else b
]

-- A round drops a chunk or is the last.
unfoldable pub append : List ℕ → Backlog → Backlog
unfolding trim
append [] b = b
append (x ∷ xs) b =
    let buf : List ℕ = x ∷ xs in
    let chunks = b.chunks ++ buf ∷ [] in
    trim (suc (length chunks))
      (record b { chunks = chunks; bytes = b.bytes + length buf; total = b.total + length buf })

unfoldable pub since : ℕ → Backlog → Option (List ℕ)
unfolding start
since offset b =
    if ltb offset (start b) || ltb b.total offset
    then none
    else some (drop (offset - start b) (concat b.chunks))

-- `indexOf`
abbrev pub index_of : ℕ → List ℕ → Option ℕ
index_of x [] = none
index_of x (y ∷ ys) =
    if y == x then some 0 else elim (index_of x ys) [ none ↦ none | some i ↦ some (suc i) ]

pub record Replay : Type 0 where
  pub from : ℕ
  pub bytes : List ℕ

abbrev pub skip_of : Option ℕ → ℕ
skip_of none = 0
skip_of (some nl) = suc nl

-- Past the first newline of the first 4096 bytes, or nothing.
unfoldable pub skip_line : List ℕ → ℕ
skip_line all = skip_of (index_of 0x0a (take 4096 all))

unfoldable pub replay : Backlog → Replay
unfolding start
replay b =
    let all = concat b.chunks in
    if start b == 0
    then record { from = 0; bytes = all }
    else record { from = start b + skip_line all; bytes = drop (skip_line all) all }

-- Ctrl+] would detach the console for every viewer.
unfoldable pub strip_input : List ℕ → List ℕ
strip_input = keep (λ b. not (b == 0x1d))
