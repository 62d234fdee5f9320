-- ===== src/Core/Values.antt =====
-- metrics/core/types.go: metric values, metric sets and data batches.
use heapster.Common.{ℕ, String, List, Option, none, some, Bool, true, false, ◌==◌}
use heapster.Common.Dict.{Dict}
use heapster.Common.Int64.{Float64}
use heapster.Common.Time.{Time}

-- The types below are Go integers, so that each has values beside its constants.
pub data MetricType : Type 0 where
  cumulative gauge delta : MetricType
  other_metric_type : ℕ → MetricType

pub data ValueType : Type 0 where
  int64_type float_type : ValueType
  other_value_type : ℕ → ValueType

pub data UnitsType : Type 0 where
  count bytes milliseconds nanoseconds millicores : UnitsType
  other_units_type : ℕ → UnitsType

unfoldable pub metric_type_string : MetricType → String
metric_type_string cumulative = "cumulative"
metric_type_string gauge = "gauge"
metric_type_string delta = "delta"
metric_type_string (other_metric_type n) = ""

unfoldable pub value_type_string : ValueType → String
value_type_string int64_type = "int64"
value_type_string float_type = "double"
value_type_string (other_value_type n) = ""

-- `UnitsCount` has no case of its own.
unfoldable pub units_type_string : UnitsType → String
units_type_string bytes = "bytes"
units_type_string milliseconds = "ms"
units_type_string nanoseconds = "ns"
units_type_string millicores = "millicores"
units_type_string _ = ""

-- The comparison `a.ValueType == b.ValueType`.
abbrev pub value_type_eq : ValueType → ValueType → Bool
value_type_eq int64_type int64_type = true
value_type_eq float_type float_type = true
value_type_eq (other_value_type m) (other_value_type n) = m == n
value_type_eq _ _ = false

pub record MetricValue : Type 0 where
  pub int_value : ℕ  -- int64, by its bit pattern
  pub float_value : Float64
  pub metric_type : MetricType
  pub value_type : ValueType

-- The dynamic value that `GetValue` returns; `none` stands for `nil`.
pub data Interface : Type 0 where
  an_int64 : ℕ → Interface
  a_float64 : Float64 → Interface

abbrev get_value_of : ValueType → MetricValue → Option Interface
get_value_of int64_type v = some (an_int64 v.int_value)
get_value_of float_type v = some (a_float64 v.float_value)
get_value_of (other_value_type n) v = none

unfoldable pub get_value : MetricValue → Option Interface
get_value v = get_value_of v.value_type v

pub record LabeledMetric : Type 0 where
  pub name : String
  pub labels : Dict String
  pub value : MetricValue

-- The same method of a labeled metric.
abbrev pub labeled_value : LabeledMetric → Option Interface
labeled_value m = get_value_of m.value.value_type m.value

pub record MetricSet : Type 0 where
  pub collection_start_time : Time
  pub entity_create_time : Time
  pub scrape_time : Time
  pub metric_values : Dict MetricValue
  pub labels : Dict String
  pub labeled_metrics : List LabeledMetric

pub record DataBatch : Type 0 where
  pub timestamp : Time
  pub metric_sets : Dict MetricSet

-- Values that the code writes down: a number of the given type, and a float gauge.
abbrev pub int_metric : MetricType → ℕ → MetricValue
int_metric t n = record { int_value = n; float_value = 0; metric_type = t; value_type = int64_type }

abbrev pub float_gauge : Float64 → MetricValue
float_gauge x = record {
  int_value = 0;
  float_value = x;
  metric_type = gauge;
  value_type = float_type;
}
