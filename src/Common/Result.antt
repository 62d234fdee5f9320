-- ===== src/Common/Result.antt =====
-- A Go result with an `error`: the value, or the error's text.
use Prim.Native.String.{String}
use mathlib.Core.Logic.{◌⊎◌, inl, inr}
use mathlib.Core.Path.{◌≡◌, refl}

pub data Result {ℓ} (A : Type ℓ) : Type ℓ where
  ok : A → Result A
  error : String → Result A

pub ok_injective {ℓ} : {A : Type ℓ} {a b : A} → ok a ≡ ok b → a ≡ b
ok_injective h = cc

pub Result-cases {ℓ} :
    {A : Type ℓ} (r : Result A) → ((a : A) × (r ≡ ok a)) ⊎ ((e : String) × (r ≡ error e))
Result-cases (ok a) = inl (a, refl)
Result-cases (error e) = inr (e, refl)

module _ {ℓ κ} {A : Type ℓ} {B : Type κ} where
  -- `x, err := first; if err != nil { return err }`, and what follows.
  infixl 5 ◌>>=◌
  abbrev pub ◌>>=◌ : Result A → (A → Result B) → Result B
  ok x >>= then = then x
  error text >>= then = error text

  -- What succeeds in two steps succeeds in each.
  pub >>=-eq-ok :
      (first : Result A) (then : A → Result B) {last : B}
      → (first >>= then) ≡ ok last
      → (x : A) × (first ≡ ok x) × (then x ≡ ok last)
  >>=-eq-ok (error text) then h = cc
  >>=-eq-ok (ok x) then h = (x, refl, h)
