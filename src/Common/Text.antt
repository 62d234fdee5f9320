-- ===== src/Common/Text.antt =====
-- Texts put together from parts, as `fmt.Sprintf` does with `%s` and `%d`.
use Prim.Native.Nat.{ℕ, zero, suc, ◌/◌, ◌%◌}
use Prim.Native.String.{String, ◌++◌}
use mathlib.Core.List.{List, [], ◌∷◌}
use Prim.Native.String as Text
use Prim.Native.Char.{code}
use mathlib.Core.Option.{Option, none, some}
use heapster.Common.Tests.{◌==◌, ltb, if◌then◌else◌}

abbrev pub concat : List String → String
concat [] = ""
concat (s ∷ ss) = s ++ concat ss

-- `strings.Join`.
abbrev pub join : String → List String → String
join sep [] = ""
join sep (s ∷ []) = s
join sep (s ∷ t ∷ ss) = s ++ (sep ++ join sep (t ∷ ss))

abbrev digit : ℕ → String
digit d =
    if d == 0
    then "0"
    else if d == 1
    then "1"
    else if d == 2
    then "2"
    else if d == 3
    then "3"
    else if d == 4
    then "4"
    else if d == 5
    then "5"
    else if d == 6
    then "6"
    else if d == 7
    then "7"
    else if d == 8
    then "8"
    else "9"

-- The decimal digits of a number below 10 ^ fuel, before a rest.
decimal_from : ℕ → ℕ → String → String
decimal_from zero n rest = rest
decimal_from (suc fuel) n rest =
    let more = decimal_from fuel (n / 10) (digit (n % 10) ++ rest) in
    if ltb n 10 then digit n ++ rest else more

-- `%d` of a 64-bit unsigned number: twenty digits are enough.
unfoldable pub decimal : ℕ → String
unfolding decimal_from
decimal n = decimal_from 20 n ""

abbrev pub with_char : String → Option (String × String) → Option (String × String)
with_char c none = none
with_char c (some (a, b)) = some (c ++ a, b)

-- The text before the first character of that code and the text after it, if it is there:
-- `strings.SplitN(s, "/", 2)`, and `s[:strings.Index(s, ".")]`.
unfoldable pub cut : ℕ → String → Option (String × String)
cut sep Text.[] = none
cut sep (Text.◌∷◌ c s) =
    let rest = cut sep s in
    if code c == sep then some ("", s) else with_char (Text.◌∷◌ c Text.[]) rest
