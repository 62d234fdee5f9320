-- ===== src/Tests/Chain.antt =====
-- metrics/heapster.go on concrete batches: a pod's container that a source reports, and what the
-- processors make of it.
use heapster.Common.{
  ◌*◌, ◌+◌, ◌≤◌, String, [], ◌∷◌, Option, none, some, true, ◌≡◌, refl, All, ◌↔◌, arith,
  if◌then◌else◌, str_eq,
}
use heapster.Common.Dict.{lookup, insert, insert_all, is_some, value_or}
use heapster.Common.Result.{Result, ok, error}
use heapster.Core.Keyed.{of_container, of_node, of_pod}
use heapster.Core.Keyed.Sound.{Sound}
use heapster.Core.Keys.{pod_key, pod_container_key, namespace_key, node_key, cluster_key}
use heapster.Core.Values.{MetricSet, DataBatch, int_metric, gauge}
use heapster.Manager.{run_round, run_processors}
use heapster.Processors.Namespace.{
  namespace_process, namespace_loop, namespace_visit, into_namespace, namespace_metric_set,
}
use heapster.Processors.Namespace.Total.{Aggregated, origin}
use heapster.Processors.NamespaceEnricher.{
  missing, namespace_enricher_process, add_namespace_infos, add_namespace_info,
}
use heapster.Processors.PodEnricher.{
  Container, Pod, Lister, resource_request_metrics, pod_enricher_process,
  update_container_resources_and_limits, enrich_sets, enrich_set, add_container_info, spec_info,
  container_info, status_info, add_pod_stub, pod_stub, pod_info, add_container_stubs,
  add_container_stub, add_requests, zero_if_missing, set_limit, new_request_metric,
}
use heapster.Processors.PodEnricher.Complete.{Served, pod_enricher_process-IsComplete}
use heapster.Processors.PodEnricher.Resources.{
  IsTable, requested, limited, resource_request_metrics-IsTable,
  update_container_resources_and_limits_lem,
}
use heapster.Processors.Rate.{new_rate_calculator, rate_process}
use heapster.Processors.Sound.Apart.{node_process-Sound, namespace_process-Sound}
use heapster.Processors.Node.Pods as OnNode
use heapster.Core.Metrics.Tables.{rate_metrics_mapping}
use heapster.Server.{Surroundings, create_data_processors, healthz_checker, get_kubernetes_address}
use heapster.Server.Chain.{run_round-Sound}
use heapster.Server.Checks.{healthz_checker-export_data}
use heapster.Sinks.Metric.{export_data, new_metric_sink}
use heapster.Processors.Pod.{
  pod_process, container_loop, container_visit, into_pod, add_metrics, add_metric, add_present,
  skipped_metrics,
}
use heapster.Processors.Node.{node_process, node_loop, node_visit, into_node}
use heapster.Processors.Cluster.{cluster_process, cluster_loop, cluster_metric_set}
use heapster.Processors.Autoscaling.{autoscaling_process, enrich_nodes}
use heapster.Processors.Aggregate.{aggregate, aggregate_one, combine}
use heapster.Processors.Labels.{has_kind, label_of}
use heapster.Common.Text.{cut}
use heapster.Tests.Data.{whole_ops, chosen, node_n1, pod_a}
use heapster.Util.LabelCopier.{LabelCopier, copy, copy_stored, joined_labels, sort_strings}

abbrev copier : LabelCopier
copier = record { label_separator = ","; stored_labels = ("app", "app") ∷ []; ignored_labels = [] }

abbrev container_c : Container
container_c = record {
  name = "c";
  image = "nginx";
  requests =
      ("cpu", record { milli_value = 250; value = 1 })
      ∷ ("x.com/gpu", record { milli_value = 2000; value = 2 })
      ∷ [];
  limits = ("memory", record { milli_value = 8000; value = 8 }) ∷ [];
}

abbrev kube_pod : Pod
kube_pod = record {
  namespace = "web";
  name = "a";
  uid = "u1";
  labels = ("app", "shop") ∷ [];
  containers = container_c ∷ [];
  container_statuses = record { name = "c"; restart_count = 2 } ∷ [];
  start_time = some 7;
}

abbrev lister : Lister
lister ns name = if str_eq name "a" then some kube_pod else none

abbrev container_batch : DataBatch
container_batch = record {
  timestamp = 960;
  metric_sets =
      (
        "namespace:web/pod:a/container:c",
        record pod_a {
          labels =
              ("type", "pod_container")
              ∷ ("namespace_name", "web")
              ∷ ("pod_name", "a")
              ∷ ("container_name", "c")
              ∷ [];
        },
      )
      ∷ [];
}

abbrev surroundings : Surroundings
surroundings = record {
  ops = whole_ops;
  calculator = new_rate_calculator rate_metrics_mapping;
  table = resource_request_metrics;
  label_copier = copier;
  pod_lister = lister;
  namespace_store = λ name. missing;
  node_list = ok [];
}

container_batch-Sound : Sound container_batch.metric_sets
unfolding pod_container_key lookup
container_batch-Sound = ((of_container refl refl, tt), (refl, tt))

pod_enricher_process-IsComplete_example :
    let after =
      (pod_enricher_process lister copier resource_request_metrics container_batch).0.metric_sets in
    ((key : String)
      → is_some (lookup key container_batch.metric_sets) ≡ true
      → is_some (lookup key after) ≡ true)
    × All
        (λ (e : String × MetricSet). Served lister (λ key. is_some (lookup key after)) e.1)
        container_batch.metric_sets
pod_enricher_process-IsComplete_example =
    pod_enricher_process-IsComplete lister copier resource_request_metrics container_batch
      (refl, tt)

update_container_resources_and_limits_lem_example :
    let after = update_container_resources_and_limits container_c [] resource_request_metrics in
    (lookup "cpu/request" after.0 ≡ requested "cpu" container_c)
    × (lookup "memory/request" after.0 ≡ requested "memory" container_c)
    × (lookup "ephemeral_storage/request" after.0 ≡ requested "ephemeral-storage" container_c)
    × (lookup "cpu/limit" after.0 ≡ limited "cpu" container_c)
    × (lookup "memory/limit" after.0 ≡ limited "memory" container_c)
    × (lookup "ephemeral_storage/limit" after.0 ≡ limited "ephemeral-storage" container_c)
    × IsTable after.1
update_container_resources_and_limits_lem_example =
    update_container_resources_and_limits_lem container_c [] resource_request_metrics
      resource_request_metrics-IsTable refl (refl, (refl, tt))

healthz_checker-export_data_example :
    let sink = export_data 1000 container_batch (new_metric_sink 900 60 []) in
    (healthz_checker sink 1100 ≡ none) ↔ (1100 ≤ 960 + 180 * 1000000000)
healthz_checker-export_data_example =
    healthz_checker-export_data (new_metric_sink 900 60 []) 1000 1100 container_batch (omega arith)

abbrev batch_in : Option DataBatch → DataBatch
batch_in none = container_batch
batch_in (some b) = b

abbrev exported_batch : DataBatch
exported_batch = batch_in (run_round (ok container_batch) (create_data_processors surroundings))

run_round-Sound_example : Sound exported_batch.metric_sets
unfolding run_round run_processors create_data_processors rate_process new_rate_calculator
    pod_enricher_process enrich_sets enrich_set add_container_info spec_info container_info
    status_info add_pod_stub pod_stub pod_info add_container_stubs add_container_stub
    update_container_resources_and_limits add_requests zero_if_missing set_limit new_request_metric
    namespace_enricher_process add_namespace_infos add_namespace_info pod_process container_loop
    container_visit into_pod add_metrics add_metric add_present skipped_metrics namespace_process
    namespace_loop namespace_visit into_namespace namespace_metric_set node_process node_loop
    node_visit into_node cluster_process cluster_loop cluster_metric_set autoscaling_process
    enrich_nodes aggregate aggregate_one combine has_kind label_of pod_key pod_container_key
    namespace_key node_key cluster_key lookup insert insert_all copy copy_stored joined_labels
    sort_strings
run_round-Sound_example =
    run_round-Sound surroundings container_batch exported_batch (refl, tt) container_batch-Sound
      refl

-- A pod under its own key.
abbrev keyed_pods : DataBatch
keyed_pods = record {
  timestamp = 960;
  metric_sets =
      (
        "namespace:web/pod:a",
        record pod_a {
          labels = ("type", "pod") ∷ ("namespace_name", "web") ∷ ("pod_name", "a") ∷ [];
        },
      )
      ∷ [];
}

keyed_pods-Sound : Sound keyed_pods.metric_sets
unfolding pod_key lookup
keyed_pods-Sound = ((of_pod refl refl, tt), (refl, tt))

abbrev batch_of : Result DataBatch → DataBatch
batch_of (error e) = keyed_pods
batch_of (ok b) = b

namespace_process-Sound_example :
    Aggregated whole_ops chosen "namespace:web" keyed_pods
      (origin "namespace:web" keyed_pods.metric_sets
        (lookup "namespace:web" keyed_pods.metric_sets))
      (lookup "namespace:web"
        (batch_of (namespace_process whole_ops chosen keyed_pods)).metric_sets)
unfolding namespace_process namespace_loop namespace_visit into_namespace namespace_metric_set
    aggregate aggregate_one combine has_kind label_of namespace_key lookup
namespace_process-Sound_example =
    namespace_process-Sound whole_ops chosen keyed_pods
      {batch' = batch_of (namespace_process whole_ops chosen keyed_pods)} (refl, (refl, tt))
      keyed_pods-Sound (refl, tt) refl "namespace:web"

-- A node and a pod on it, under their own keys.
abbrev keyed_node : DataBatch
keyed_node = record {
  timestamp = 960;
  metric_sets =
      (
        "namespace:web/pod:a",
        record pod_a {
          labels =
              ("type", "pod")
              ∷ ("namespace_name", "web")
              ∷ ("pod_name", "a")
              ∷ ("nodename", "n1")
              ∷ [];
        },
      )
      ∷ ("node:n1", record node_n1 { labels = ("type", "node") ∷ ("nodename", "n1") ∷ [] })
      ∷ [];
}

keyed_node-Sound : Sound keyed_node.metric_sets
unfolding pod_key node_key lookup
keyed_node-Sound = ((of_pod refl refl, (of_node refl refl, tt)), (refl, (refl, tt)))

node_process-Sound_example :
    OnNode.Aggregated whole_ops chosen "node:n1" keyed_node
      (lookup "node:n1" keyed_node.metric_sets)
      (lookup "node:n1" (batch_of (node_process whole_ops chosen keyed_node)).metric_sets)
unfolding node_process node_loop node_visit into_node aggregate aggregate_one combine has_kind
    label_of node_key lookup insert
node_process-Sound_example =
    node_process-Sound whole_ops chosen keyed_node
      {batch' = batch_of (node_process whole_ops chosen keyed_node)} (refl, (refl, tt))
      keyed_node-Sound refl "node:n1"

-- The address is that of the first source of Kubernetes, whichever its API.
kubernetes_address :
    get_kubernetes_address {Url = String} (
      record { key = "log"; val = "a" } ∷ record { key = "kubernetes.summary_api"; val = "b" } ∷ [])
    ≡ ok "b"
unfolding get_kubernetes_address cut
kubernetes_address = refl

-- The stub of a pod has the pod's key, and the requests reach the namespace and the cluster.
cluster_request :
    lookup "cpu/request"
      (value_or pod_a (lookup "cluster" exported_batch.metric_sets)).metric_values
    ≡ some (int_metric gauge 250)
unfolding run_round run_processors create_data_processors rate_process new_rate_calculator
    pod_enricher_process enrich_sets enrich_set add_container_info spec_info container_info
    status_info add_pod_stub pod_stub pod_info add_container_stubs add_container_stub
    update_container_resources_and_limits add_requests zero_if_missing set_limit new_request_metric
    namespace_enricher_process add_namespace_infos add_namespace_info pod_process container_loop
    container_visit into_pod add_metrics add_metric add_present skipped_metrics namespace_process
    namespace_loop namespace_visit into_namespace namespace_metric_set node_process node_loop
    node_visit into_node cluster_process cluster_loop cluster_metric_set autoscaling_process
    enrich_nodes aggregate aggregate_one combine has_kind label_of pod_key pod_container_key
    namespace_key node_key cluster_key lookup insert insert_all copy copy_stored joined_labels
    sort_strings
cluster_request = refl
