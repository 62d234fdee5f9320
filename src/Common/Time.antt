-- ===== src/Common/Time.antt =====
-- `time.Time` as the nanoseconds since the zero time, January 1 of year 1. Durations are `int64`.
use Prim.Native.Nat.{ℕ, ◌+◌, ◌-◌, ◌*◌, ◌%◌, ◌≤◌, ◌<◌}
use mathlib.Core.Path.{◌≡◌}
use mathlib.Core.Bool.{Bool}
use native.Mathlib.Omega.{arith}
use heapster.Common.Tests.{ltb, ◌==◌}
use heapster.Common.Int64.{two64, sub64}

abbrev pub Time : Type 0
Time = ℕ

abbrev pub zero_time : Time
zero_time = 0

-- `t.After(u)`, `t.Before(u)`, `t.Equal(u)`, `t.IsZero()`.
abbrev pub after : Time → Time → Bool
after t u = ltb u t

abbrev pub before : Time → Time → Bool
before t u = ltb t u

abbrev pub is_zero : Time → Bool
is_zero t = t == 0

-- The Unix epoch, 1970-01-01, on that scale.
abbrev pub unix_epoch : ℕ
unix_epoch = 62135596800 * 1000000000

-- `t.UnixNano()`: nanoseconds since the epoch, as an `int64` that wraps.
unfoldable pub unix_nano : Time → ℕ
unix_nano t = (t + (two64 - unix_epoch % two64)) % two64

-- The code only subtracts such numbers: the difference of two times in order is exact.
pub sub64-unix_nano :
    (t u : Time) → u ≤ t → t - u < two64 → sub64 (unix_nano t) (unix_nano u) ≡ t - u
unfolding sub64 unix_nano
sub64-unix_nano t u h k = omega arith
