-- ===== src/Tests/Aggregators.antt =====
-- metrics/processors: the aggregators on concrete batches.
use mathlib.Core.List.{Perm, Permᴰ}
use heapster.Common.{
  arith, ◌++◌, ◌%◌, [], ◌∷◌, some, true, contains, Distinct, All, ◌≡◌, refl, String,
}
use heapster.Common.Dict.{lookup, insert, keys, insert_all}
use heapster.Common.Int64.{two64, add64}
use heapster.Common.Result.{ok}
use heapster.Core.Keys.{cluster_key, node_key, namespace_key}
use heapster.Core.Values.{MetricSet, DataBatch, gauge, int_metric, cumulative}
use heapster.Processors.Aggregate.{aggregate, aggregate_one, combine}
use heapster.Processors.Aggregate.Laws.{Outcome, aggregate_lem}
use heapster.Processors.Aggregate.Row.{column, IsInt, int_of}
use heapster.Processors.Cluster.{cluster_process, cluster_loop, cluster_metric_set}
use heapster.Processors.Cluster.Sum.{
  HasCluster, cluster_process_lem, cluster_process-total, cluster_process-succeeds, namespace_total,
  namespace_values,
}
use heapster.Processors.Cluster.Order.{cluster_process_order}
use heapster.Processors.Labels.{has_kind, label_of}
use heapster.Processors.Node.{node_process, node_loop, node_visit, into_node}
use heapster.Processors.Node.Pods
use heapster.Processors.Namespace.{
  namespace_process, namespace_loop, namespace_visit, into_namespace, namespace_metric_set,
}
use heapster.Processors.Namespace.Total
use heapster.Core.Labels.{
  label_metric_set_type, label_namespace_name, label_pod_namespace_uid, metric_set_type_namespace,
}
use heapster.Tests.Data.{
  whole_ops, chosen, pods, namespaces, namespaces_turned, pod_a, pod_b, node_n1,
}

chosen-Distinct : Distinct chosen
chosen-Distinct = (refl, (refl, tt))

-- The namespaces give 7 + 2 for CPU and 11 for memory.
abbrev cluster_set : MetricSet
cluster_set = record {
  collection_start_time = 0;
  entity_create_time = 0;
  scrape_time = 0;
  metric_values =
      ("cpu/request", int_metric gauge 9) ∷ ("memory/request", int_metric gauge 11) ∷ [];
  labels = ("type", "cluster") ∷ [];
  labeled_metrics = [];
}

abbrev with_cluster : DataBatch → DataBatch
with_cluster b = record b { metric_sets = b.metric_sets ++ ("cluster", cluster_set) ∷ [] }

namespaces_run : cluster_process whole_ops chosen namespaces ≡ ok (with_cluster namespaces)
unfolding cluster_process cluster_loop aggregate aggregate_one combine lookup insert has_kind add64
    cluster_metric_set cluster_key
namespaces_run = refl

namespaces_turned_run :
    cluster_process whole_ops chosen namespaces_turned ≡ ok (with_cluster namespaces_turned)
unfolding cluster_process cluster_loop aggregate aggregate_one combine lookup insert has_kind add64
    cluster_metric_set cluster_key
namespaces_turned_run = refl

cpu_IsInt : All IsInt (column "cpu/request" (namespace_values namespaces.metric_sets))
unfolding lookup has_kind
cpu_IsInt = (refl, (refl, tt))

cpu_turned_IsInt : All IsInt (column "cpu/request" (namespace_values namespaces_turned.metric_sets))
unfolding lookup has_kind
cpu_turned_IsInt = (refl, (refl, tt))

cluster_process_lem_example : HasCluster whole_ops chosen namespaces (with_cluster namespaces)
cluster_process_lem_example =
    cluster_process_lem whole_ops chosen namespaces chosen-Distinct namespaces_run

cluster_process-total_example :
    (cluster : MetricSet) × (lookup cluster_key (with_cluster namespaces).metric_sets
      ≡ some cluster)
    × (int_of (lookup "cpu/request" cluster.metric_values) % two64
        ≡ namespace_total "cpu/request" namespaces.metric_sets)
cluster_process-total_example =
    cluster_process-total whole_ops chosen namespaces "cpu/request" chosen-Distinct namespaces_run
      refl cpu_IsInt

-- Whatever the name, the values of the two namespaces are integers or missing.
All-IsInt :
    (m : String)
    → contains chosen m ≡ true
    → All IsInt (column m (namespace_values namespaces.metric_sets))
unfolding lookup has_kind
All-IsInt m h = (ground arith, (ground arith, tt))

cluster_process-succeeds_example :
    (batch' : DataBatch) × (cluster_process whole_ops chosen namespaces ≡ ok batch')
cluster_process-succeeds_example =
    cluster_process-succeeds whole_ops chosen namespaces chosen-Distinct All-IsInt

turned : Perm namespaces.metric_sets namespaces_turned.metric_sets
turned = ∣ Permᴰ.trans (Permᴰ.cons refl (Permᴰ.swap refl refl)) (Permᴰ.swap refl refl) ∣₁

cluster_process_order_example :
    int_of (lookup "cpu/request" cluster_set.metric_values) % two64
    ≡ int_of (lookup "cpu/request" cluster_set.metric_values) % two64
unfolding lookup cluster_key
cluster_process_order_example =
    cluster_process_order whole_ops chosen namespaces namespaces_turned "cpu/request"
      chosen-Distinct namespaces_run namespaces_turned_run refl cpu_IsInt cpu_turned_IsInt turned
      cluster_set cluster_set refl refl

aggregate_lem_example : Outcome whole_ops pod_a.metric_values pod_b.metric_values chosen
aggregate_lem_example =
    aggregate_lem whole_ops pod_a.metric_values pod_b.metric_values chosen chosen-Distinct

abbrev pods_after : DataBatch
pods_after = record {
  timestamp = 100;
  metric_sets =
      ("namespace:web/pod:a", pod_a)
      ∷ (
        "node:n1",
        record node_n1 {
          metric_values =
              ("uptime", int_metric cumulative 9)
              ∷ ("cpu/request", int_metric gauge 7)
              ∷ ("memory/request", int_metric gauge 40)
              ∷ [];
        },
      )
      ∷ ("namespace:web/pod:b", pod_b)
      ∷ [];
}

pods_run : node_process whole_ops chosen pods ≡ ok pods_after
unfolding node_process node_loop node_visit into_node aggregate aggregate_one combine lookup insert
    has_kind label_of add64 node_key
pods_run = refl

pods-Distinct : Distinct (keys pods.metric_sets)
pods-Distinct = (refl, (refl, (refl, tt)))

pods-Apart : Pods.Apart pods.metric_sets
unfolding has_kind node_key lookup label_of
pods-Apart = ((refl, (refl, tt)), ((refl, tt), (tt, tt)))

node_process_lem_example :
    (pods_after.timestamp ≡ pods.timestamp)
    × ((key : String)
        → Pods.Aggregated whole_ops chosen key pods
            (lookup key pods.metric_sets)
            (lookup key pods_after.metric_sets))
node_process_lem_example =
    Pods.node_process_lem whole_ops chosen pods chosen-Distinct pods-Distinct pods-Apart pods_run

-- The namespace that the batch lacks is made.
abbrev web_made : MetricSet
web_made = record {
  collection_start_time = 0;
  entity_create_time = 0;
  scrape_time = 0;
  metric_values =
      ("cpu/request", int_metric gauge 7) ∷ ("memory/request", int_metric gauge 40) ∷ [];
  labels =
      (label_metric_set_type.key, metric_set_type_namespace)
      ∷ (label_namespace_name.key, "web")
      ∷ (label_pod_namespace_uid.key, "")
      ∷ [];
  labeled_metrics = [];
}

abbrev pods_with_web : DataBatch
pods_with_web = record pods { metric_sets = pods.metric_sets ++ ("namespace:web", web_made) ∷ [] }

web_run : namespace_process whole_ops chosen pods ≡ ok pods_with_web
unfolding namespace_process namespace_loop namespace_visit into_namespace namespace_metric_set
    aggregate aggregate_one combine lookup insert insert_all has_kind label_of add64 namespace_key
web_run = refl

web-Apart : Total.Apart pods.metric_sets
unfolding has_kind namespace_key lookup label_of
web-Apart = ((refl, (refl, tt)), ((refl, tt), (tt, tt)))

namespace_process_lem_example :
    (pods_with_web.timestamp ≡ pods.timestamp)
    × ((key : String)
        → Total.Aggregated whole_ops chosen key pods
            (Total.origin key pods.metric_sets (lookup key pods.metric_sets))
            (lookup key pods_with_web.metric_sets))
namespace_process_lem_example =
    Total.namespace_process_lem whole_ops chosen pods chosen-Distinct pods-Distinct web-Apart
      web_run
