-- ===== src/Sources/Kubelet/Values.antt =====
-- metrics/sources/kubelet/kubelet.go: the values of a container's metric set.
use heapster.Common.{
  ℕ, String, List, [], ◌∷◌, ◌++◌, Option, none, some, Bool, true, if◌then◌else◌, str_eq,
}
use heapster.Common.Dict.{Dict, lookup, insert}
use heapster.Common.Int64.{Float64}
use heapster.Common.Text.{concat}
use heapster.Common.Time.{Time, before}
use heapster.Core.Cadvisor.{ContainerSpec, ContainerStats}
use heapster.Core.Metrics.Defs.{Metric}
use heapster.Core.Metrics.Tables.{standard_metrics, labeled_metrics}
use heapster.Core.Values.{
  MetricType, gauge, cumulative, int64_type, float_type, MetricValue, LabeledMetric, MetricSet,
}

-- What the code reads of a `cadvisor.ContainerInfo`.
pub record MetricVal : Type 0 where
  pub timestamp : Time
  pub int_value : ℕ
  pub float_value : Float64

pub record Sample : Type 0 where
  pub timestamp : Time
  pub stats : ContainerStats
  pub custom_metrics : Dict (List MetricVal)

pub record CustomSpec : Type 0 where
  pub name : String
  pub metric_type : String
  pub format : String

pub record ContainerInfo : Type 0 where
  pub name : String
  pub spec : ContainerSpec
  pub labels : Dict String
  pub image : String
  pub has_custom_metrics : Bool
  pub custom_metrics : List CustomSpec
  pub stats : List Sample

abbrev value_if :
    Bool
    → Option (Time → ContainerSpec → ContainerStats → MetricValue)
    → Time
    → ContainerSpec
    → ContainerStats
    → Option MetricValue
value_if true (some get) now spec stats = some (get now spec stats)
value_if _ _ now spec stats = none

-- `metric.HasValue != nil && metric.HasValue(&c.Spec)`, and the value. Every metric with the one
-- function has the other.
abbrev standard_value : Time → ContainerSpec → ContainerStats → Metric → Option MetricValue
standard_value now spec stats m = elim m.has_value [
  | none ↦ none
  | some has ↦ value_if (has spec) m.get_value now spec stats
]

abbrev put_if : String → Option MetricValue → Dict MetricValue → Dict MetricValue
put_if name none values = values
put_if name (some v) values = insert name v values

-- The loop over `StandardMetrics`.
unfoldable pub standard_values :
    Time → ContainerSpec → ContainerStats → List Metric → Dict MetricValue → Dict MetricValue
standard_values now spec stats [] values = values
standard_values now spec stats (m ∷ ms) values =
    standard_values now spec stats ms
      (put_if m.descriptor.name (standard_value now spec stats m) values)

abbrev labeled_if :
    Bool
    → Option (ContainerSpec → ContainerStats → List LabeledMetric)
    → ContainerSpec
    → ContainerStats
    → List LabeledMetric
labeled_if true (some get) spec stats = get spec stats
labeled_if _ _ spec stats = []

abbrev labeled_value_of : ContainerSpec → ContainerStats → Metric → List LabeledMetric
labeled_value_of spec stats m = elim m.has_labeled_metric [
  | none ↦ []
  | some has ↦ labeled_if (has spec stats) m.get_labeled_metric spec stats
]

-- The loop over `LabeledMetrics`.
unfoldable pub labeled_values :
    ContainerSpec → ContainerStats → List Metric → List LabeledMetric → List LabeledMetric
labeled_values spec stats [] out = out
labeled_values spec stats (m ∷ ms) out =
    labeled_values spec stats ms (out ++ labeled_value_of spec stats m)

-- The newest of the values of a custom metric: of two with one time, the first.
unfoldable pub newest_of : MetricVal → List MetricVal → MetricVal
newest_of newest [] = newest
newest_of newest (v ∷ vs) = newest_of (if before newest.timestamp v.timestamp then v else newest) vs

abbrev custom_type : String → Option MetricType
custom_type t =
    if str_eq t "gauge" then some gauge else if str_eq t "cumulative" then some cumulative else none

abbrev custom_of_format : String → MetricType → MetricVal → Option MetricValue
custom_of_format format t v =
    if str_eq format "int"
    then some (record {
      int_value = v.int_value;
      float_value = 0;
      metric_type = t;
      value_type = int64_type;
    })
    else if str_eq format "float"
    then some (record {
      int_value = 0;
      float_value = v.float_value;
      metric_type = t;
      value_type = float_type;
    })
    else none

abbrev custom_of_type : CustomSpec → Option MetricType → MetricVal → Option MetricValue
custom_of_type spec none v = none
custom_of_type spec (some t) v = custom_of_format spec.format t v

-- The value of a custom metric; none where there is no sample, or its type or format is unknown.
unfoldable pub custom_value : CustomSpec → Option (List MetricVal) → Option MetricValue
custom_value spec none = none
custom_value spec (some []) = none
custom_value spec (some (v ∷ vs)) =
    custom_of_type spec (custom_type spec.metric_type) (newest_of v (v ∷ vs))

unfoldable pub custom_values :
    List CustomSpec → Dict (List MetricVal) → Dict MetricValue → Dict MetricValue
custom_values [] found values = values
custom_values (spec ∷ specs) found values = custom_values specs found (
    put_if (concat ("custom/" ∷ spec.name ∷ [])) (custom_value spec (lookup spec.name found))
      values)

-- All values of a set, from one sample.
unfoldable pub decode_values : Time → ContainerInfo → Sample → MetricSet → MetricSet
decode_values now c sample ms =
    let standard = standard_values now c.spec sample.stats standard_metrics ms.metric_values in
    record ms {
      metric_values =
          if c.has_custom_metrics
          then custom_values c.custom_metrics sample.custom_metrics standard
          else standard;
      labeled_metrics = labeled_values c.spec sample.stats labeled_metrics ms.labeled_metrics;
    }
