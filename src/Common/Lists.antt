-- ===== src/Common/Lists.antt =====
-- Lists measured by native numbers, and predicates on lists by recursion.
use Prim.Native.Nat.{ℕ, zero, suc, ◌+◌}
use mathlib.Core.Path.{◌≡◌, refl}
use mathlib.Core.Logic.{◌⊎◌, inl, inr}
use mathlib.Core.Bool.{Bool, true}
use mathlib.Core.Option.{Option, none, some}
use mathlib.Core.List.{List, [], ◌∷◌, ◌++◌}
use native.Mathlib.Omega.{arith}
use virt_pilot.Common.Tests.{if◌then◌else◌, Bool-cases}

module _ {ℓ} {A : Type ℓ} where
  abbrev pub length : List A → ℕ
  length [] = 0
  length (x ∷ xs) = suc (length xs)

  abbrev pub take : ℕ → List A → List A
  take zero xs = []
  take (suc n) [] = []
  take (suc n) (x ∷ xs) = x ∷ take n xs

  abbrev pub drop : ℕ → List A → List A
  drop zero xs = xs
  drop (suc n) [] = []
  drop (suc n) (x ∷ xs) = drop n xs

  -- `Array.prototype.filter`
  abbrev pub keep : (A → Bool) → List A → List A
  keep p [] = []
  keep p (x ∷ xs) = if p x then x ∷ keep p xs else keep p xs

  -- `Array.prototype.find`
  abbrev pub find : (A → Bool) → List A → Option A
  find p [] = none
  find p (x ∷ xs) = if p x then some x else find p xs

  abbrev pub All {κ} : (A → Type κ) → List A → Type κ
  All P [] = Unit
  All P (x ∷ xs) = P x × All P xs

  -- Membership as a place in the list.
  pub data Member (x : A) : List A → Type ℓ where
    here : {xs : List A} → Member x (x ∷ xs)
    there : {y : A} {xs : List A} → Member x xs → Member x (y ∷ xs)

module _ {ℓ} {A : Type ℓ} where
  pub length-append : (xs ys : List A) → length (xs ++ ys) ≡ length xs + length ys
  length-append [] ys = omega arith
  length-append (x ∷ xs) ys = omega (arith, length-append xs ys)

  pub All-at {κ} : (P : A → Type κ) {x : A} {xs : List A} → Member x xs → All P xs → P x
  All-at P here h = h.0
  All-at P (there m) h = All-at P m h.1

  pub All-map {κ μ} :
      (P : A → Type κ) (Q : A → Type μ) (xs : List A) → ((x : A) → P x → Q x) → All P xs → All Q xs
  All-map P Q [] f h = tt
  All-map P Q (x ∷ xs) f h = (f x h.0, All-map P Q xs f h.1)

  pub All-snoc {κ} : (P : A → Type κ) (xs : List A) (y : A) → All P xs → P y → All P (xs ++ y ∷ [])
  All-snoc P [] y h py = (py, tt)
  All-snoc P (x ∷ xs) y h py = (h.0, All-snoc P xs y h.1 py)

module _ {ℓ} {A : Type ℓ} where
  pub members : (xs : List A) → All (λ x. Member x xs) xs
  members [] = tt
  members (x ∷ xs) =
      (here, All-map (λ y. Member y xs) (λ y. Member y (x ∷ xs)) xs (λ y m. there m) (members xs))

  pub List-cases : (xs : List A) → (xs ≡ []) ⊎ ((y : A) × (ys : List A) × (xs ≡ y ∷ ys))
  List-cases [] = inl refl
  List-cases (x ∷ xs) = inr (x, xs, refl)

  pub Member-cons : {x y : A} {xs : List A} → Member x (y ∷ xs) → (x ≡ y) ⊎ Member x xs
  Member-cons here = inl refl
  Member-cons (there m) = inr m

  pub Member-keep :
      (p : A → Bool) (x : A) (xs : List A) → Member x (keep p xs) → Member x xs × (p x ≡ true)
  Member-keep p x [] m = elim m [ ]
  Member-keep p x (y ∷ xs) m = elim (Bool-cases (p y)) [
    | inl e ↦ elim (Member-cons (rw e at m)) [
      | inl one ↦ rw one (here, e)
      | inr later ↦ let (m', t) = Member-keep p x xs later in (there m', t)
    ]
    | inr e ↦ let (m', t) = Member-keep p x xs (rw e at m) in (there m', t)
  ]

  pub keep-Member :
      (p : A → Bool) {x : A} (xs : List A) → Member x xs → p x ≡ true → Member x (keep p xs)
  keep-Member p [] m e = elim m [ ]
  keep-Member p (y ∷ xs) here e = rw e here
  keep-Member p (y ∷ xs) (there m) e = elim (Bool-cases (p y)) [
    | inl t ↦ rw t (there (keep-Member p xs m e))
    | inr t ↦ rw t (keep-Member p xs m e)
  ]
