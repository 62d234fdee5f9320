-- ===== src/Core/Metrics/Families.antt =====
-- metrics/core/metrics.go: `MetricFamilyForName` and `IsNodeAutoscalingMetric`.
use heapster.Common.{String, List, [], ◌∷◌, ◌||◌, Bool, false, if◌then◌else◌, str_eq}
use heapster.Core.Metrics.Defs.{Metric}
use heapster.Core.Metrics.Tables.{
  cpu_metrics, filesystem_metrics, memory_metrics, network_metrics, node_autoscaling_metrics,
}

pub data MetricFamily : Type 0 where
  family_cpu family_filesystem family_memory family_network family_general : MetricFamily

abbrev pub Families : Type 0
Families = List (MetricFamily × List Metric)

abbrev pub metric_families : Families
metric_families =
    (family_cpu, cpu_metrics)
    ∷ (family_filesystem, filesystem_metrics)
    ∷ (family_memory, memory_metrics)
    ∷ (family_network, network_metrics)
    ∷ []

-- The inner loops: whether a metric of the list has the name.
abbrev pub has_name : List Metric → String → Bool
has_name [] name = false
has_name (m ∷ ms) name = str_eq name m.descriptor.name || has_name ms name

-- The loop over the map, whose order is open: it is an argument.
unfoldable pub family_in : Families → String → MetricFamily
family_in [] name = family_general
family_in ((family, ms) ∷ rest) name =
    let other = family_in rest name in if has_name ms name then family else other

unfoldable pub metric_family_for_name : String → MetricFamily
unfolding family_in
metric_family_for_name name = family_in metric_families name

unfoldable pub is_node_autoscaling_metric : String → Bool
is_node_autoscaling_metric name = has_name node_autoscaling_metrics name
