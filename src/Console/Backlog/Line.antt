-- ===== src/Console/Backlog/Line.antt =====
-- What `replay` gives a new viewer of the console.
use virt_pilot.Common.{
  ℕ, zero, suc, ◌+◌, ◌-◌, ◌<◌, ◌≡◌, refl, sym, ap, ◌∙◌, inl, inr, none, some, List, [], ◌∷◌, length,
  take, drop, ◌==◌, arith, Bool-cases, Option-cases, ◌⊎◌,
}
use virt_pilot.Console.Backlog.{
  Backlog, empty_backlog, concat, start, Replay, replay, index_of, skip_of, skip_line,
}
use virt_pilot.Console.Backlog.Trim.{drop-drop}
use virt_pilot.Console.Backlog.History.{Holds, append_all, append_all-Holds}

index_of-take :
    (n x i : ℕ) (xs : List ℕ) → index_of x (take n xs) ≡ some i → drop i xs ≡ x ∷ drop (suc i) xs
index_of-take zero x i xs e = absurd (ground (arith, e))
index_of-take (suc n) x i [] e = absurd (ground (arith, e))
index_of-take (suc n) x i (y ∷ ys) e = elim (Bool-cases (y == x)) [
  | inl t ↦
      let first : i ≡ 0 = ground (arith, e, t) in rw first (ap (λ z. z ∷ ys) (ground (arith, t)))
  | inr t ↦ elim (Option-cases (index_of x (take n ys))) [
    | inl none_there ↦ absurd (ground (arith, e, t, none_there))
    | inr (j, at) ↦
        let after : i ≡ suc j = ground (arith, e, t, at) in rw after (index_of-take n x j ys at)
  ]
]

-- The bytes skipped end a line, if any are.
skip_line_cases :
    (all : List ℕ)
    → ((skip_line all ≡ 0) × (index_of 0x0a (take 4096 all) ≡ none))
      ⊎ ((i : ℕ) × (skip_line all ≡ suc i) × (drop i all ≡ 0x0a ∷ drop (suc i) all))
unfolding skip_line
skip_line_cases all = elim (Option-cases (index_of 0x0a (take 4096 all))) [
  | inl e ↦ inl (ap skip_of e, e)
  | inr (i, e) ↦ inr (i, ap skip_of e, index_of-take 4096 0x0a i all e)
]

-- A replay against the history.
abbrev pub IsReplay : ℕ → List ℕ → Replay → Type 0
IsReplay cap h r =
    (r.bytes ≡ drop r.from h)
    × ((r.from ≡ 0)
        ⊎ ((r.from ≡ length h - cap) × (index_of 0x0a (take 4096 (drop (length h - cap) h)) ≡ none))
        ⊎ (drop (r.from - 1) h ≡ 0x0a ∷ r.bytes))

replay_whole : (b : Backlog) → start b ≡ 0 → replay b ≡ record { from = 0; bytes = concat b.chunks }
unfolding replay
replay_whole b e = ground (arith, e)

replay_cut :
    (b : Backlog)
    → 0 < start b
    → replay b ≡ record {
      from = start b + skip_line (concat b.chunks);
      bytes = drop (skip_line (concat b.chunks)) (concat b.chunks);
    }
unfolding replay
replay_cut b e = ground (arith, e)

start-Holds : (cap : ℕ) (h : List ℕ) (b : Backlog) → Holds cap h b → start b ≡ length h - cap
unfolding start
start-Holds cap h b held = omega (arith, held.counted, held.size)

replay-Holds : (cap : ℕ) (h : List ℕ) (b : Backlog) → Holds cap h b → IsReplay cap h (replay b)
replay-Holds cap h b held =
    let at = start-Holds cap h b held in
    elim (Bool-cases (start b == 0)) [
      | inl e ↦
          let at_zero : start b ≡ 0 = ground (arith, e) in
          rw (replay_whole b at_zero) (
            held.text
                ∙ ap (λ k. drop k h) {x = length h - cap} {y = 0} (omega (arith, at, at_zero)),
            inl refl,
          )
      | inr e ↦
          let all = concat b.chunks in
          let moved : drop (skip_line all) all ≡ drop (start b + skip_line all) h =
            ap (drop (skip_line all)) held.text
            ∙ drop-drop (skip_line all) (length h - cap) h
            ∙ ap (λ k. drop k h) {x = length h - cap + skip_line all} {y = start b + skip_line all}
                (omega (arith, at)) in
          rw (replay_cut b (ground (arith, e))) (
            moved,
            inr (elim (skip_line_cases all) [
              | inl (zero_skip, nowhere) ↦ inl (
                omega (arith, at, zero_skip),
                ap (λ c. index_of 0x0a (take 4096 c)) (sym held.text) ∙ nowhere,
              )
              | inr (i, past, line) ↦ inr (
                  ap (λ k. drop k h) {x = start b + skip_line all - 1} {y = length h - cap + i}
                    (omega (arith, at, past))
                  ∙ sym (drop-drop i (length h - cap) h)
                  ∙ ap (drop i) (sym held.text)
                  ∙ line
                  ∙ ap (λ k. 0x0a ∷ drop k all) (sym past))
            ]),
          )
    ]

-- After any appends a replay is the end of everything appended, from its own offset on; and it begins at the
-- beginning, or just after a newline, or at the oldest byte held where no newline is in the first 4096.
pub replay-IsReplay :
    (cap : ℕ) (bufs : List (List ℕ))
    → IsReplay cap (concat bufs) (replay (append_all (empty_backlog cap) bufs))
replay-IsReplay cap bufs =
    replay-Holds cap (concat bufs) (append_all (empty_backlog cap) bufs) (append_all-Holds cap bufs)
