-- ===== src/Processors/Namespace.antt =====
-- metrics/processors/namespace_aggregator.go: a namespace's metrics are those of its pods.
pub mod Pods
pub mod Total
use heapster.Common.{String, List, [], ◌∷◌, Option, none, some, not, if◌then◌else◌, str_eq}
use heapster.Common.Dict.{Dict, lookup, insert, insert_all, keys}
use heapster.Common.Int64.{FloatOps}
use heapster.Common.Result.{Result, ok, ◌>>=◌}
use heapster.Common.Time.{zero_time}
use heapster.Core.Keys.{namespace_key}
use heapster.Core.Labels.{
  metric_set_type_pod, metric_set_type_namespace, label_metric_set_type, label_namespace_name,
  label_pod_namespace_uid,
}
use heapster.Core.Values.{MetricSet, DataBatch}
use heapster.Processors.Aggregate.{aggregate}
use heapster.Processors.Labels.{has_kind, label_of}

unfoldable pub namespace_metric_set : String → String → MetricSet
namespace_metric_set namespace_name uid = record {
  collection_start_time = zero_time;
  entity_create_time = zero_time;
  scrape_time = zero_time;
  metric_values = [];
  labels =
      (label_metric_set_type.key, metric_set_type_namespace)
      ∷ (label_namespace_name.key, namespace_name)
      ∷ (label_pod_namespace_uid.key, uid)
      ∷ [];
  labeled_metrics = [];
}

-- The loop's state: the sets made so far, and those of the batch.
pub record NamespaceState : Type 0 where
  pub namespaces : Dict MetricSet
  pub sets : Dict MetricSet

-- The pod's values go to the set made for the namespace, or to the batch's own, or to a new one.
unfoldable pub into_namespace :
    FloatOps → List String → MetricSet → String → NamespaceState → Result NamespaceState
into_namespace f metrics pod namespace_name s =
    let key = namespace_key namespace_name in
    elim (lookup key s.namespaces) [
      | some namespace ↦ do
        values ← aggregate f pod.metric_values namespace.metric_values metrics
        ok (record s {
          namespaces = insert key (record namespace { metric_values = values }) s.namespaces;
        })
      | none ↦ elim (lookup key s.sets) [
        | some namespace ↦ do
          values ← aggregate f pod.metric_values namespace.metric_values metrics
          ok (record s { sets = insert key (record namespace { metric_values = values }) s.sets })
        | none ↦
            let namespace =
              namespace_metric_set namespace_name (label_of label_pod_namespace_uid.key pod) in
            do
              values ← aggregate f pod.metric_values namespace.metric_values metrics
              ok (record s {
                namespaces = insert key (record namespace { metric_values = values }) s.namespaces;
              })
      ]
    ]

unfoldable pub namespace_visit :
    FloatOps → List String → MetricSet → NamespaceState → Result NamespaceState
namespace_visit f metrics ms s =
    if not (has_kind metric_set_type_pod ms)
    then ok s
    else elim (lookup label_namespace_name.key ms.labels) [
      | none ↦ ok s
      | some namespace_name ↦ into_namespace f metrics ms namespace_name s
    ]

unfoldable pub namespace_loop :
    FloatOps → List String → List String → NamespaceState → Result NamespaceState
namespace_loop f metrics [] s = ok s
namespace_loop f metrics (key ∷ rest) s = do
  s' ← elim (lookup key s.sets) [ none ↦ ok s | some ms ↦ namespace_visit f metrics ms s ]
  namespace_loop f metrics rest s'

-- `NamespaceAggregator.Process` with its field `MetricsToAggregate`.
unfoldable pub namespace_process : FloatOps → List String → DataBatch → Result DataBatch
namespace_process f metrics batch = do
  s ←
      namespace_loop f metrics (keys batch.metric_sets)
        (record { namespaces = []; sets = batch.metric_sets })
  ok (record batch { metric_sets = insert_all s.namespaces s.sets })
