-- ===== src/Common/Sorted.antt =====
-- The order of texts by their bytes, as `sort.Strings` puts them.
use Prim.Native.Nat.compare as compare_ℕ
use Prim.Native.String.compare
use Prim.Native.Nat.{ℕ, zero, suc, Ordering, compare as compare_ℕ}
use Prim.Native.Char.{code}
use Prim.Native.String.{String, [], ◌∷◌, compare, then}
use heapster.Common.{◌≡◌, refl, sym, ap, ◌∙◌, ◌≢◌}

abbrev flip : Ordering → Ordering
flip Ordering.lt = Ordering.gt
flip Ordering.eq = Ordering.eq
flip Ordering.gt = Ordering.lt

compare_ℕ-flip : (m n : ℕ) → compare_ℕ n m ≡ flip (compare_ℕ m n)
compare_ℕ-flip zero zero = rw compare_ℕ.zero-zero
compare_ℕ-flip zero (suc n) = rw (compare_ℕ.zero-suc n, compare_ℕ.suc-zero n)
compare_ℕ-flip (suc m) zero = rw (compare_ℕ.zero-suc m, compare_ℕ.suc-zero m)
compare_ℕ-flip (suc m) (suc n) =
    rw (compare_ℕ.suc-suc m n, compare_ℕ.suc-suc n m) (compare_ℕ-flip m n)

then-flip : (o p : Ordering) → then (flip o) (flip p) ≡ flip (then o p)
then-flip Ordering.lt p = refl
then-flip Ordering.eq p = refl
then-flip Ordering.gt p = refl

-- Two texts compared the other way round.
pub compare-flip : (s t : String) → compare t s ≡ flip (compare s t)
compare-flip [] [] = rw compare.nil-nil
compare-flip [] (d ∷ t) = rw (compare.nil-cons d t, compare.cons-nil d t)
compare-flip (c ∷ s) [] = rw (compare.nil-cons c s, compare.cons-nil c s)
compare-flip (c ∷ s) (d ∷ t) =
    rw
      (
        compare.cons-cons c d s t,
        compare.cons-cons d c t s,
        compare_ℕ-flip (code c) (code d),
        compare-flip s t,
      )
      (then-flip (compare_ℕ (code c) (code d)) (compare s t))

-- The second text does not stand before the first one.
abbrev pub InOrder : String → String → Type 0
InOrder s t = compare s t ≢ Ordering.gt

pub InOrder-flip : (s t : String) → compare s t ≡ Ordering.gt → InOrder t s
InOrder-flip s t h g =
    let clash : Ordering.lt ≡ Ordering.gt = sym (ap flip h) ∙ sym (compare-flip s t) ∙ g in cc
