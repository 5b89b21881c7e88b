-- ===== src/Common/Texts.antt =====
-- Identifiers are native texts. A test on two of them is split with the equation it stands for.
use Prim.Native.String.{String}
use mathlib.Core.Path.{◌≡◌, refl}
use mathlib.Core.Logic.{◌≢◌, ◌⊎◌, inl, inr}
use mathlib.Core.Bool.{Bool, true, false, ◌||◌}
use mathlib.Core.Option.{Option, none, some}
use mathlib.Core.List.{List, [], ◌∷◌}
use native.Mathlib.Omega.{arith}
use text.Mathlib.Text.{◌==◌}
use text.Mathlib.TextEquality.{eq_iff}
use virt_pilot.Common.Tests.{if◌then◌else◌, Bool-cases}

abbrev pub same : String → String → Bool
same a b = a == b

pub same_refl : (a : String) → same a a ≡ true
same_refl a = (eq_iff a a).1 refl

pub same→eq : (a b : String) → same a b ≡ true → a ≡ b
same→eq a b h = (eq_iff a b).0 h

pub same-cases : (a b : String) → ((a ≡ b) × (same a b ≡ true)) ⊎ ((a ≢ b) × (same a b ≡ false))
same-cases a b = elim (Bool-cases (same a b)) [
  | inl e ↦ inl ((eq_iff a b).0 e, e)
  | inr e ↦ inr (λ p. ground (arith, eq_iff a b), e)
]

-- JavaScript's truth test on an optional text: `undefined` and the empty text are both false.
unfoldable pub truthy : Option String → Option String
truthy none = none
truthy (some s) = if s == "" then none else some s

abbrev pub includes : List String → String → Bool
includes [] s = false
includes (x ∷ xs) s = same x s || includes xs s

pub same-ne : (a b : String) → same a b ≡ false → a ≢ b
same-ne a b h = λ p. ground (arith, h, (eq_iff a b).1 p)
