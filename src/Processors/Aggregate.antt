-- ===== src/Processors/Aggregate.antt =====
-- metrics/processors/helper.go: `aggregate` adds chosen metrics of one set to those of another.
-- Its proofs are in the children: what one call does to each metric, and what a row of calls does.
pub mod Laws
pub mod Row
use heapster.Common.{String, List, [], ◌∷◌, Option, none, some, Bool, not, if◌then◌else◌}
use heapster.Common.Dict.{Dict, lookup, insert}
use heapster.Common.Int64.{FloatOps, add64}
use heapster.Common.Result.{Result, ok, error, ◌>>=◌}
use heapster.Common.Text.{concat}
use heapster.Core.Values.{
  ValueType, int64_type, float_type, other_value_type, value_type_eq, MetricValue,
}

abbrev pub unsupported : String → String
unsupported name = concat ("Aggregator: type not supported in " ∷ name ∷ [])

-- The sum of two values of one type.
abbrev add_of : FloatOps → String → ValueType → MetricValue → MetricValue → Result MetricValue
add_of f name int64_type a v = ok (record a { int_value = add64 a.int_value v.int_value })
add_of f name float_type a v = ok (record a { float_value = f.fadd a.float_value v.float_value })
add_of f name (other_value_type n) a v = error (unsupported name)

-- The branch where both sets have the metric.
unfoldable pub combine : FloatOps → String → MetricValue → MetricValue → Result MetricValue
combine f name a v =
    if not (value_type_eq a.value_type v.value_type)
    then error (unsupported name)
    else add_of f name a.value_type a v

-- One round of the loop.
unfoldable pub aggregate_one :
    FloatOps → String → Dict MetricValue → Dict MetricValue → Result (Dict MetricValue)
aggregate_one f name src dst = elim (lookup name src) [
  | none ↦ ok dst
  | some v ↦ elim (lookup name dst) [
    | none ↦ ok (insert name v dst)
    | some a ↦ do c ← combine f name a v; ok (insert name c dst)
  ]
]

-- The metrics of `dst` after the call. `src` and `dst` are the `MetricValues` of the two sets.
unfoldable pub aggregate :
    FloatOps → Dict MetricValue → Dict MetricValue → List String → Result (Dict MetricValue)
aggregate f src dst [] = ok dst
aggregate f src dst (name ∷ names) = do
  dst' ← aggregate_one f name src dst
  aggregate f src dst' names
