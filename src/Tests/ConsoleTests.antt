-- ===== src/Tests/ConsoleTests.antt =====
-- A console that keeps eight bytes.
use virt_pilot.Common.{ℕ, ◌≡◌, refl, none, some, List, [], ◌∷◌}
use virt_pilot.Console.Backlog.{empty_backlog, concat, since, replay}
use virt_pilot.Console.Backlog.History.{append_all, resume, since-resume}
use virt_pilot.Console.Backlog.Line.{IsReplay, replay-IsReplay}

abbrev output : List (List ℕ)
output = (1 ∷ 2 ∷ 3 ∷ 4 ∷ 5 ∷ []) ∷ (6 ∷ 10 ∷ 8 ∷ []) ∷ (9 ∷ 11 ∷ []) ∷ []

since-resume_example : since 4 (append_all (empty_backlog 8) output) ≡ resume 8 (concat output) 4
since-resume_example = since-resume 8 output 4

resumed : resume 8 (concat output) 4 ≡ some (5 ∷ 6 ∷ 10 ∷ 8 ∷ 9 ∷ 11 ∷ [])
resumed = refl

too_early : resume 8 (concat output) 1 ≡ none
too_early = refl

replay-IsReplay_example : IsReplay 8 (concat output) (replay (append_all (empty_backlog 8) output))
replay-IsReplay_example = replay-IsReplay 8 output
