-- ===== src/Sinks/Metric.antt =====
-- metrics/sinks/metric/metric_sink.go: the sink that keeps recent batches in memory for the API. Its
-- mutex makes each method one step; the current time is an argument.
pub mod History
pub mod Series
pub mod Stores
pub mod LabeledSeries
use heapster.Common.{
  ℕ, ◌-◌, String, List, [], ◌∷◌, ◌++◌, Option, none, some, Bool, true, false, not, ◌&&◌, ◌||◌,
  if◌then◌else◌, select, get_last?, length, contains, str_eq, ◌==◌,
}
use heapster.Common.Dict.{Dict, lookup, insert, keys, value_or}
use heapster.Common.Text.{concat}
use heapster.Common.Time.{Time, after, before}
use heapster.Core.Labels.{
  metric_set_type_node, metric_set_type_pod, metric_set_type_namespace,
  metric_set_type_pod_container, metric_set_type_system_container, label_metric_set_type,
  label_hostname, label_namespace_name, label_pod_name, label_container_name,
}
use heapster.Core.Values.{MetricValue, LabeledMetric, MetricSet, DataBatch, gauge, int_metric}
use heapster.Processors.Labels.{label_of}

pub record MultimetricStore : Type 0 where
  pub timestamp : Time
  pub store : Dict (Dict ℕ)

-- The durations are not negative, and no longer than the time since year 1.
pub record MetricSink : Type 0 where
  pub long_store_metrics : List String
  pub long_store_duration : ℕ
  pub short_store_duration : ℕ
  pub short_store : List DataBatch
  pub long_store : List MultimetricStore

unfoldable pub new_metric_sink : ℕ → ℕ → List String → MetricSink
new_metric_sink short long metrics = record {
  long_store_metrics = metrics;
  long_store_duration = long;
  short_store_duration = short;
  short_store = [];
  long_store = [];
}

empty_stores : List String → Dict (Dict ℕ) → Dict (Dict ℕ)
empty_stores [] store = store
empty_stores (metric ∷ metrics) store = empty_stores metrics (insert metric [] store)

unfoldable pub store_value : String → String → Option MetricValue → Dict (Dict ℕ) → Dict (Dict ℕ)
store_value key metric none store = store
store_value key metric (some v) store =
    insert metric (insert key v.int_value (value_or [] (lookup metric store))) store

unfoldable pub store_set : String → MetricSet → List String → Dict (Dict ℕ) → Dict (Dict ℕ)
store_set key ms [] store = store
store_set key ms (metric ∷ metrics) store =
    store_set key ms metrics (store_value key metric (lookup metric ms.metric_values) store)

unfoldable pub store_sets : List String → Dict MetricSet → Dict (Dict ℕ) → Dict (Dict ℕ)
store_sets metrics [] store = store
store_sets metrics ((key, ms) ∷ rest) store =
    store_sets metrics rest (store_set key ms metrics store)

unfoldable pub build_multimetric_store : List String → DataBatch → MultimetricStore
unfolding empty_stores
build_multimetric_store metrics batch = record {
  timestamp = batch.timestamp;
  store = store_sets metrics batch.metric_sets (empty_stores metrics []);
}

unfoldable pub pop_old : List DataBatch → Time → List DataBatch
pop_old storage cutoff = select (λ b. after b.timestamp cutoff) storage

unfoldable pub pop_old_store : List MultimetricStore → Time → List MultimetricStore
pop_old_store storages cutoff = select (λ s. after s.timestamp cutoff) storages

unfoldable pub export_data : Time → DataBatch → MetricSink → MetricSink
export_data now batch sink = record sink {
  long_store =
      pop_old_store sink.long_store (now - sink.long_store_duration)
      ++ build_multimetric_store sink.long_store_metrics batch ∷ [];
  short_store = pop_old sink.short_store (now - sink.short_store_duration) ++ batch ∷ [];
}

unfoldable pub get_latest_data_batch : MetricSink → Option DataBatch
get_latest_data_batch sink = get_last? sink.short_store

copy_batches : List DataBatch → List DataBatch → List DataBatch
copy_batches [] result = result
copy_batches (b ∷ bs) result = copy_batches bs (result ++ b ∷ [])

unfoldable pub get_short_store : MetricSink → List DataBatch
unfolding copy_batches
get_short_store sink = copy_batches sink.short_store []

pub record TimestampedMetricValue : Type 0 where
  pub value : MetricValue
  pub timestamp : Time

abbrev pub Series : Type 0
Series = Dict (List TimestampedMetricValue)

-- `result[key] = append(result[key], point)`.
unfoldable pub append_point : String → TimestampedMetricValue → Series → Series
append_point key point result = insert key (value_or [] (lookup key result) ++ point ∷ []) result

abbrev pub in_range : Time → Time → Time → Bool
in_range start end t = not (before t start) && not (after t end)

abbrev pub append_found : String → Time → Option MetricValue → Series → Series
append_found key t none result = result
append_found key t (some v) result = append_point key (record { value = v; timestamp = t }) result

-- The loop over the keys for one stored batch; `find` reads the batch.
unfoldable pub collect_keys : (String → Option MetricValue) → Time → List String → Series → Series
collect_keys find t [] result = result
collect_keys find t (key ∷ ks) result =
    collect_keys find t ks (append_found key t (find key) result)

-- What a key holds of a metric in a store of numbers, and in a batch.
abbrev pub as_gauge : Option ℕ → Option MetricValue
as_gauge none = none
as_gauge (some n) = some (int_metric gauge n)

unfoldable pub stored_value : String → MultimetricStore → String → Option MetricValue
stored_value metric s key = as_gauge (lookup key (value_or [] (lookup metric s.store)))

abbrev pub value_in_set : String → Option MetricSet → Option MetricValue
value_in_set metric none = none
value_in_set metric (some ms) = lookup metric ms.metric_values

unfoldable pub batch_value : String → DataBatch → String → Option MetricValue
batch_value metric b key = value_in_set metric (lookup key b.metric_sets)

unfoldable pub collect_long :
    String → List String → Time → Time → List MultimetricStore → Series → Series
collect_long metric ks start end [] result = result
collect_long metric ks start end (s ∷ stores) result = collect_long metric ks start end stores (
    if in_range start end s.timestamp
    then collect_keys (stored_value metric s) s.timestamp ks result
    else result)

unfoldable pub collect_short : String → List String → Time → Time → List DataBatch → Series → Series
collect_short metric ks start end [] result = result
collect_short metric ks start end (b ∷ batches) result = collect_short metric ks start end batches (
    if in_range start end b.timestamp
    then collect_keys (batch_value metric b) b.timestamp ks result
    else result)

unfoldable pub get_metric : String → List String → Time → Time → MetricSink → Series
get_metric metric ks start end sink =
    if contains sink.long_store_metrics metric
    then collect_long metric ks start end sink.long_store []
    else collect_short metric ks start end sink.short_store []

-- Every label that is asked for is there with its value.
unfoldable pub labels_match : Dict String → Dict String → Bool
labels_match [] have = true
labels_match ((k, v) ∷ labels) have =
    elim (lookup k have) [ none ↦ false | some w ↦ str_eq w v ] && labels_match labels have

unfoldable pub is_match : String → Dict String → LabeledMetric → Bool
is_match name labels m =
    str_eq m.name name && (length m.labels == length labels && labels_match labels m.labels)

unfoldable pub collect_labeled_set :
    String → Dict String → String → Time → List LabeledMetric → Series → Series
collect_labeled_set name labels key t [] result = result
collect_labeled_set name labels key t (m ∷ ms) result = collect_labeled_set name labels key t ms (
    if is_match name labels m
    then append_point key (record { value = m.value; timestamp = t }) result
    else result)

abbrev pub labeled_of : Option MetricSet → List LabeledMetric
labeled_of none = []
labeled_of (some ms) = ms.labeled_metrics

unfoldable pub collect_labeled_keys :
    String → Dict String → DataBatch → List String → Series → Series
collect_labeled_keys name labels b [] result = result
collect_labeled_keys name labels b (key ∷ ks) result =
    collect_labeled_keys name labels b ks (
      collect_labeled_set name labels key b.timestamp (labeled_of (lookup key b.metric_sets))
        result)

unfoldable pub collect_labeled :
    String → Dict String → List String → Time → Time → List DataBatch → Series → Series
collect_labeled name labels ks start end [] result = result
collect_labeled name labels ks start end (b ∷ batches) result =
    collect_labeled name labels ks start end batches (
      if in_range start end b.timestamp
      then collect_labeled_keys name labels b ks result
      else result)

unfoldable pub get_labeled_metric :
    String → Dict String → List String → Time → Time → MetricSink → Series
get_labeled_metric name labels ks start end sink =
    collect_labeled name labels ks start end sink.short_store []

abbrev pub values_of : Option MetricSet → Dict MetricValue
values_of none = []
values_of (some ms) = ms.metric_values

add_names : List String → Dict Bool → Dict Bool
add_names [] names = names
add_names (n ∷ ns) names = add_names ns (insert n true names)

unfoldable pub metric_names_in : String → List DataBatch → Dict Bool → Dict Bool
unfolding add_names
metric_names_in key [] names = names
metric_names_in key (b ∷ batches) names =
    metric_names_in key batches (add_names (keys (values_of (lookup key b.metric_sets))) names)

unfoldable pub get_metric_names : String → MetricSink → List String
get_metric_names key sink = keys (metric_names_in key sink.short_store [])

-- The loop of `getAllNames` over the last batch.
unfoldable pub names_where :
    (MetricSet → Bool) → (String → MetricSet → String) → Dict MetricSet → List String
names_where predicate name [] = []
names_where predicate name ((key, ms) ∷ rest) =
    let more = names_where predicate name rest in if predicate ms then name key ms ∷ more else more

abbrev names_of_last :
    (MetricSet → Bool) → (String → MetricSet → String) → Option DataBatch → List String
names_of_last predicate name none = []
names_of_last predicate name (some b) = names_where predicate name b.metric_sets

unfoldable pub get_all_names :
    (MetricSet → Bool) → (String → MetricSet → String) → MetricSink → List String
get_all_names predicate name sink = names_of_last predicate name (get_last? sink.short_store)

-- `ms.Labels[key] == value`.
abbrev pub label_is : String → String → MetricSet → Bool
label_is key value ms = str_eq (label_of key ms) value

unfoldable pub get_metric_set_keys : MetricSink → List String
get_metric_set_keys = get_all_names (λ ms. true) (λ key ms. key)

unfoldable pub get_nodes : MetricSink → List String
get_nodes =
    get_all_names (label_is label_metric_set_type.key metric_set_type_node)
      (λ key ms. label_of label_hostname.key ms)

unfoldable pub get_pods : MetricSink → List String
get_pods = get_all_names (label_is label_metric_set_type.key metric_set_type_pod) (λ key ms.
    concat (label_of label_namespace_name.key ms ∷ "/" ∷ label_of label_pod_name.key ms ∷ []))

unfoldable pub get_namespaces : MetricSink → List String
get_namespaces =
    get_all_names (label_is label_metric_set_type.key metric_set_type_namespace)
      (λ key ms. label_of label_namespace_name.key ms)

unfoldable pub get_pods_from_namespace : String → MetricSink → List String
get_pods_from_namespace namespace =
    get_all_names
      (λ ms.
        label_is label_metric_set_type.key metric_set_type_pod ms
        && label_is label_namespace_name.key namespace ms)
      (λ key ms. label_of label_pod_name.key ms)

unfoldable pub get_containers_for_pod_from_namespace : String → String → MetricSink → List String
get_containers_for_pod_from_namespace namespace pod =
    get_all_names
      (λ ms.
        label_is label_metric_set_type.key metric_set_type_pod_container ms
        && (label_is label_namespace_name.key namespace ms && label_is label_pod_name.key pod ms))
      (λ key ms. label_of label_container_name.key ms)

unfoldable pub get_system_containers_from_node : String → MetricSink → List String
get_system_containers_from_node node =
    get_all_names
      (λ ms.
        label_is label_metric_set_type.key metric_set_type_system_container ms
        && label_is label_hostname.key node ms)
      (λ key ms. label_of label_container_name.key ms)
