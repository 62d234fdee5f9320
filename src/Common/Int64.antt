-- ===== src/Common/Int64.antt =====
-- Go's `int64` and `uint64` as their bit patterns, numbers below 2 ^ 64. A conversion between the
-- two keeps the pattern. A `float64` is its bit pattern too; its arithmetic is a parameter.
use Prim.Native.Nat.{ℕ, ◌+◌, ◌-◌, ◌*◌, ◌/◌, ◌%◌, ◌^◌, ◌≤◌, ◌<◌}
use mathlib.Core.Path.{◌≡◌}
use mathlib.Core.Bool.{Bool}
use mathlib.Core.List.{List, [], ◌∷◌}
use native.Mathlib.Omega.{arith}
use heapster.Common.Tests.{ltb, leb, if◌then◌else◌}

abbrev pub two64 : ℕ
two64 = 2 ^ 64

abbrev pub two63 : ℕ
two63 = 2 ^ 63

unfoldable pub add64 : ℕ → ℕ → ℕ
add64 a b = (a + b) % two64

unfoldable pub sub64 : ℕ → ℕ → ℕ
sub64 a b = (a + two64 - b % two64) % two64

unfoldable pub mul64 : ℕ → ℕ → ℕ
mul64 a b = a * b % two64

unfoldable pub neg64 : ℕ → ℕ
neg64 a = (two64 - a % two64) % two64

-- The sign bit, and the absolute value as an unsigned number.
abbrev pub is_neg : ℕ → Bool
is_neg a = leb two63 a

unfoldable pub abs64 : ℕ → ℕ
unfolding neg64
abs64 a = if is_neg a then neg64 a else a

-- Signed division, which rounds towards zero. The divisor is not 0 where the code divides.
unfoldable pub div64 : ℕ → ℕ → ℕ
unfolding abs64 neg64
div64 a b =
    let q = abs64 a / abs64 b in
    if is_neg a
    then if is_neg b then q % two64 else neg64 q
    else if is_neg b
    then neg64 q
    else q % two64

-- `int64(x)` of an `int32`, given by its 32-bit pattern.
unfoldable pub of_int32 : ℕ → ℕ
of_int32 w = if ltb w (2 ^ 31) then w else w + two64 - 2 ^ 32

-- The sum of a list, as a loop of `+=` computes it.
unfoldable pub sum64 : List ℕ → ℕ
unfolding add64
sum64 [] = 0
sum64 (x ∷ xs) = add64 x (sum64 xs)

-- A `float64` by its bit pattern: 0.0 is the pattern 0.
abbrev pub Float64 : Type 0
Float64 = ℕ

-- The IEEE operations that the code uses.
pub record FloatOps : Type 0 where
  pub fadd : Float64 → Float64 → Float64
  pub fmul : Float64 → Float64 → Float64
  pub fdiv : Float64 → Float64 → Float64
  pub of_int64 : ℕ → Float64

pub add64_comm : (a b : ℕ) → add64 a b ≡ add64 b a
unfolding add64
add64_comm a b = omega arith

pub add64_assoc : (a b c : ℕ) → add64 (add64 a b) c ≡ add64 a (add64 b c)
unfolding add64
add64_assoc a b c = omega arith

pub add64-lt : (a b : ℕ) → add64 a b < two64
unfolding add64
add64-lt a b = omega arith

pub add64-zero : (a : ℕ) → a < two64 → add64 0 a ≡ a
unfolding add64
add64-zero a h = omega arith

-- Where the difference is not negative, subtraction is exact.
pub sub64-of_le : (a b : ℕ) → b ≤ a → a < two64 → sub64 a b ≡ a - b
unfolding sub64
sub64-of_le a b h k = omega arith

pub div64-nonneg : (a b : ℕ) → a < two63 → b < two63 → div64 a b ≡ a / b % two64
unfolding div64
div64-nonneg a b h k = ground arith

pub sum64-lt : (xs : List ℕ) → sum64 xs < two64
unfolding sum64
sum64-lt [] = omega arith
sum64-lt (x ∷ xs) = add64-lt x (sum64 xs)

pub add64-zero-sum64 : (xs : List ℕ) → add64 0 (sum64 xs) ≡ sum64 xs
add64-zero-sum64 xs = add64-zero (sum64 xs) (sum64-lt xs)
