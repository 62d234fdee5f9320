-- ===== src/Common/Lists.antt =====
-- Lists measured by native numbers, quantifiers over lists, and the Boolean search.
use Prim.Native.Nat.{ℕ, suc, ◌+◌}
use Prim.Native.String.{String}
use mathlib.Core.Path.{◌≡◌, refl}
use mathlib.Core.Bool.{Bool, true, false, ◌&&◌, ◌||◌}
use mathlib.Core.List.{List, [], ◌∷◌, ◌++◌}
use mathlib.Core.Option.{Option, none, some}
use native.Mathlib.Omega.{arith}
use heapster.Common.Tests.{if◌then◌else◌, str_eq}

module _ {ℓ} {A : Type ℓ} where
  abbrev pub length : List A → ℕ
  length [] = 0
  length (x ∷ xs) = suc (length xs)

  abbrev pub any : (A → Bool) → List A → Bool
  any p [] = false
  any p (x ∷ xs) = p x || any p xs

  abbrev pub all : (A → Bool) → List A → Bool
  all p [] = true
  all p (x ∷ xs) = p x && all p xs

  -- The elements that pass a test, in order.
  abbrev pub select : (A → Bool) → List A → List A
  select p [] = []
  select p (x ∷ xs) = let rest = select p xs in if p x then x ∷ rest else rest

  -- The last element.
  abbrev pub get_last? : List A → Option A
  get_last? [] = none
  get_last? (x ∷ []) = some x
  get_last? (x ∷ y ∷ xs) = get_last? (y ∷ xs)

  pub length-append : (xs ys : List A) → length (xs ++ ys) ≡ length xs + length ys
  length-append [] ys = omega arith
  length-append (x ∷ xs) ys = omega (arith, length-append xs ys)

  pub get_last?-append : (xs : List A) (y : A) → get_last? (xs ++ y ∷ []) ≡ some y
  get_last?-append [] y = refl
  get_last?-append (x ∷ []) y = refl
  get_last?-append (x ∷ x' ∷ xs) y = get_last?-append (x' ∷ xs) y

module _ {ℓ κ} {A : Type ℓ} where
  abbrev pub All : (A → Type κ) → List A → Type κ
  All P [] = Unit
  All P (x ∷ xs) = P x × All P xs

-- Whether a text is among the texts of a list.
abbrev pub contains : List String → String → Bool
contains [] s = false
contains (x ∷ xs) s = str_eq x s || contains xs s

-- No text twice.
abbrev pub Distinct : List String → Type 0
Distinct [] = Unit
Distinct (x ∷ xs) = (contains xs x ≡ false) × Distinct xs
