-- ===== src/Common/Bags.antt =====
-- Lists whose entries are taken out one by one, in any order, and counted by a test.
use Prim.Native.Nat.{ℕ, zero, suc, ◌+◌}
use mathlib.Core.Path.{◌≡◌, refl, subst}
use mathlib.Core.Logic.{inl, inr}
use mathlib.Core.Bool.{Bool}
use mathlib.Core.List.{List, [], ◌∷◌, ◌++◌}
use mathlib.Core.Option.{Option, none, some, some-injective}
use native.Mathlib.Omega.{arith}
use heapster.Common.Tests.{Option-cases}
use heapster.Common.Lists.{length, select}

-- The entry at a position of a list, and the others.
abbrev pub with_head {ℓ} : {A : Type ℓ} → A → Option (A × List A) → Option (A × List A)
with_head x none = none
with_head x (some (y, rest)) = some (y, x ∷ rest)

unfoldable pub take_out {ℓ} : {A : Type ℓ} → ℕ → List A → Option (A × List A)
take_out k [] = none
take_out zero (x ∷ xs) = some (x, xs)
take_out (suc k) (x ∷ xs) = with_head x (take_out k xs)

module _ {ℓ} {A : Type ℓ} where
  -- How many entries pass a test.
  abbrev pub count : (A → Bool) → List A → ℕ
  count p xs = length (select p xs)

  pub count-append : (p : A → Bool) (xs ys : List A) → count p (xs ++ ys) ≡ count p xs + count p ys
  count-append p [] ys = omega arith
  count-append p (x ∷ xs) ys = ground (arith, count-append p xs ys)

  pub count-take_out :
      (p : A → Bool) (k : ℕ) (xs : List A) {x : A} {rest : List A}
      → take_out k xs ≡ some (x, rest)
      → count p xs ≡ count p (x ∷ []) + count p rest
  unfolding take_out
  count-take_out p k [] e = cc
  count-take_out p zero (y ∷ ys) {x} {rest} e =
      subst (λ (t : A × List A). count p (y ∷ ys) ≡ count p (t.0 ∷ []) + count p t.1)
        (some-injective (y, ys) (x, rest) e) (ground arith)
  count-take_out p (suc k) (y ∷ ys) {x} {rest} e = elim (Option-cases (take_out k ys)) [
    | inl g ↦ absurd (nothing none refl (rw g at e))
    | inr ((z, zs), g) ↦
        subst (λ (t : A × List A). count p (y ∷ ys) ≡ count p (t.0 ∷ []) + count p t.1)
          (some-injective (z, y ∷ zs) (x, rest) (rw g at e))
          (ground (arith, count-take_out p k ys g))
  ]
    where
      nothing : (o : Option (A × List A)) → o ≡ none → o ≡ some (x, rest) → ⊥
      nothing o n q = cc
