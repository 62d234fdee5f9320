-- ===== src/Processors/Pod.antt =====
-- metrics/processors/pod_aggregator.go: a pod's metrics are those of its containers, except where
-- the source gave the pod itself a value.
use heapster.Common.{
  String, List, [], ◌∷◌, Option, none, some, Bool, true, false, not, if◌then◌else◌, contains,
}
use heapster.Common.Dict.{Dict, lookup, insert, insert_all, keys, value_or}
use heapster.Common.Int64.{FloatOps, add64}
use heapster.Common.Result.{Result, ok, error, ◌>>=◌}
use heapster.Common.Text.{concat}
use heapster.Common.Time.{zero_time}
use heapster.Core.Keys.{pod_key}
use heapster.Core.Labels.{
  LabelDescriptor, metric_set_type_pod, metric_set_type_pod_container, label_metric_set_type,
  label_pod_id, label_pod_name, label_namespace_name, label_pod_namespace_uid, label_hostname,
  label_host_id,
}
use heapster.Core.Metrics.Defs.{Metric}
use heapster.Core.Metrics.Tables.{standard_metrics}
use heapster.Core.Values.{
  MetricType, ValueType, int64_type, float_type, other_value_type, cumulative, delta, MetricValue,
  MetricSet, DataBatch, value_type_eq,
}
use heapster.Processors.Labels.{has_kind}

abbrev pub labels_to_populate : List LabelDescriptor
labels_to_populate =
    label_pod_id ∷ label_pod_name ∷ label_namespace_name ∷ label_pod_namespace_uid ∷ label_hostname
    ∷ label_host_id ∷ []

abbrev pub populate_one : String → Option String → Dict String → Dict String
populate_one key none out = out
populate_one key (some val) out = insert key val out

unfoldable pub populate : List LabelDescriptor → Dict String → Dict String → Dict String
populate [] labels out = out
populate (l ∷ ls) labels out = populate ls labels (populate_one l.key (lookup l.key labels) out)

unfoldable pub pod_metric_set : Dict String → MetricSet
pod_metric_set labels = record {
  collection_start_time = zero_time;
  entity_create_time = zero_time;
  scrape_time = zero_time;
  metric_values = [];
  labels =
      populate labels_to_populate labels ((label_metric_set_type.key, metric_set_type_pod) ∷ []);
  labeled_metrics = [];
}

abbrev is_skipped_type : MetricType → Bool
is_skipped_type cumulative = true
is_skipped_type delta = true
is_skipped_type _ = false

-- The names that `NewPodAggregator` collects, as a list in place of a set.
unfoldable pub skipped_of : List Metric → List String
skipped_of [] = []
skipped_of (m ∷ ms) =
    let rest = skipped_of ms in
    if is_skipped_type m.descriptor.metric_type then m.descriptor.name ∷ rest else rest

unfoldable pub skipped_metrics : List String
unfolding skipped_of
skipped_metrics = skipped_of standard_metrics

-- The metrics of the pod, and the keys `podKey+metricName` that are to be summed.
pub record PodValues : Type 0 where
  pub values : Dict MetricValue
  pub require_aggregate : Dict Bool

abbrev sum_of : FloatOps → String → ValueType → MetricValue → MetricValue → Result MetricValue
sum_of f name int64_type a v = ok (record a { int_value = add64 a.int_value v.int_value })
sum_of f name float_type a v = ok (record a { float_value = f.fadd a.float_value v.float_value })
sum_of f name (other_value_type n) a v =
    error (concat ("PodAggregator: type not supported in " ∷ name ∷ []))

-- The pod has a value already. It is written back as it is where it is not to be summed; a value
-- of another type is passed over.
unfoldable pub add_present :
    FloatOps → Bool → String → MetricValue → MetricValue → PodValues → Result PodValues
add_present f required name a v p =
    if not required
    then ok (record p { values = insert name a p.values })
    else if not (value_type_eq a.value_type v.value_type)
    then ok p
    else (do c ← sum_of f name a.value_type a v; ok (record p { values = insert name c p.values }))

-- One metric of a container.
unfoldable pub add_metric :
    FloatOps → List String → String → String → MetricValue → PodValues → Result PodValues
add_metric f skipped podkey name v p =
    if contains skipped name then ok p else elim (lookup name p.values) [
      | none ↦ ok (record {
        values = insert name v p.values;
        require_aggregate = insert (concat (podkey ∷ name ∷ [])) true p.require_aggregate;
      })
      | some a ↦
          add_present f (value_or false (lookup (concat (podkey ∷ name ∷ [])) p.require_aggregate))
            name a v p
    ]

-- The loop over the metrics of a container.
unfoldable pub add_metrics :
    FloatOps → List String → String → Dict MetricValue → PodValues → Result PodValues
add_metrics f skipped podkey [] p = ok p
add_metrics f skipped podkey ((name, v) ∷ rest) p = do
  p' ← add_metric f skipped podkey name v p
  add_metrics f skipped podkey rest p'

pub record PodState : Type 0 where
  pub new_pods : Dict MetricSet
  pub require_aggregate : Dict Bool
  pub sets : Dict MetricSet

-- The container's values go to the batch's pod, or to the pod made before, or to a new one.
unfoldable pub into_pod : FloatOps → List String → MetricSet → String → PodState → Result PodState
into_pod f skipped container podkey s = elim (lookup podkey s.sets) [
  | some pod ↦ do
    p ←
        add_metrics f skipped podkey container.metric_values
          (record { values = pod.metric_values; require_aggregate = s.require_aggregate })
    ok (record s {
      require_aggregate = p.require_aggregate;
      sets = insert podkey (record pod { metric_values = p.values }) s.sets;
    })
  | none ↦
      let pod = value_or (pod_metric_set container.labels) (lookup podkey s.new_pods) in
      do
        p ←
            add_metrics f skipped podkey container.metric_values
              (record { values = pod.metric_values; require_aggregate = s.require_aggregate })
        ok (record s {
          require_aggregate = p.require_aggregate;
          new_pods = insert podkey (record pod { metric_values = p.values }) s.new_pods;
        })
]

abbrev pub pod_of : Dict String → Option (String × String)
pod_of labels = elim (lookup label_namespace_name.key labels) [
  | none ↦ none
  | some ns ↦ elim (lookup label_pod_name.key labels) [ none ↦ none | some pod ↦ some (ns, pod) ]
]

unfoldable pub container_visit : FloatOps → List String → MetricSet → PodState → Result PodState
container_visit f skipped ms s =
    if not (has_kind metric_set_type_pod_container ms) then ok s else elim (pod_of ms.labels) [
      | none ↦ ok s
      | some (ns, pod_name) ↦ into_pod f skipped ms (pod_key ns pod_name) s
    ]

unfoldable pub container_loop : FloatOps → List String → List String → PodState → Result PodState
container_loop f skipped [] s = ok s
container_loop f skipped (key ∷ rest) s = do
  s' ← elim (lookup key s.sets) [ none ↦ ok s | some ms ↦ container_visit f skipped ms s ]
  container_loop f skipped rest s'

-- `PodAggregator.Process` with its field `skippedMetrics`.
unfoldable pub pod_process : FloatOps → List String → DataBatch → Result DataBatch
pod_process f skipped batch = do
  s ←
      container_loop f skipped (keys batch.metric_sets)
        (record { new_pods = []; require_aggregate = []; sets = batch.metric_sets })
  ok (record batch { metric_sets = insert_all s.new_pods s.sets })
