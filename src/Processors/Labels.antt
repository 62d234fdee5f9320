-- ===== src/Processors/Labels.antt =====
-- The tests on a metric set's labels that every file of metrics/processors makes.
use heapster.Common.{String, Option, none, some, Bool, false, str_eq}
use heapster.Common.Dict.{lookup, value_or}
use heapster.Core.Values.{MetricSet}
use heapster.Core.Labels.{label_metric_set_type}

-- `t, found := ms.Labels[LabelMetricSetType.Key]; found && t == kind`.
abbrev pub is_kind : String → Option String → Bool
is_kind kind none = false
is_kind kind (some t) = str_eq t kind

unfoldable pub has_kind : String → MetricSet → Bool
has_kind kind ms = is_kind kind (lookup label_metric_set_type.key ms.labels)

-- `ms.Labels[key]`, the empty text for a missing label.
unfoldable pub label_of : String → MetricSet → String
label_of key ms = value_or "" (lookup key ms.labels)
