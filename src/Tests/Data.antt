-- ===== src/Tests/Data.antt =====
-- The concrete batches that the tests run on.
use heapster.Common.{◌+◌, ◌*◌, ◌/◌, String, List, [], ◌∷◌}
use heapster.Common.Dict.{Dict}
use heapster.Common.Int64.{FloatOps}
use heapster.Core.Labels.{
  label_metric_set_type, label_namespace_name, label_nodename, metric_set_type_pod,
  metric_set_type_node, metric_set_type_namespace,
}
use heapster.Core.Values.{MetricValue, MetricSet, DataBatch, gauge, cumulative, int_metric}

-- Whole numbers in place of floats.
abbrev pub whole_ops : FloatOps
whole_ops = record {
  fadd = λ a b. a + b;
  fmul = λ a b. a * b;
  fdiv = λ a b. a / b;
  of_int64 = λ n. n;
}

abbrev pub chosen : List String
chosen = "cpu/request" ∷ "memory/request" ∷ []

abbrev pub set_of : Dict String → Dict MetricValue → MetricSet
set_of labels values = record {
  collection_start_time = 5;
  entity_create_time = 5;
  scrape_time = 100;
  metric_values = values;
  labels = labels;
  labeled_metrics = [];
}

abbrev pub labels_of_pod : Dict String
labels_of_pod =
    (label_metric_set_type.key, metric_set_type_pod)
    ∷ (label_namespace_name.key, "web")
    ∷ (label_nodename.key, "n1")
    ∷ []

abbrev pub pod_a : MetricSet
pod_a = set_of labels_of_pod (("cpu/request", int_metric gauge 3) ∷ [])

abbrev pub pod_b : MetricSet
pod_b =
    set_of labels_of_pod
      (("memory/request", int_metric gauge 40) ∷ ("cpu/request", int_metric gauge 4) ∷ [])

abbrev pub node_n1 : MetricSet
node_n1 =
    set_of ((label_metric_set_type.key, metric_set_type_node) ∷ [])
      (("uptime", int_metric cumulative 9) ∷ [])

abbrev pub namespace_web : MetricSet
namespace_web =
    set_of
      ((label_metric_set_type.key, metric_set_type_namespace)
        ∷ (label_namespace_name.key, "web")
        ∷ [])
      (("cpu/request", int_metric gauge 7) ∷ [])

abbrev pub namespace_db : MetricSet
namespace_db =
    set_of
      ((label_metric_set_type.key, metric_set_type_namespace)
        ∷ (label_namespace_name.key, "db")
        ∷ [])
      (("cpu/request", int_metric gauge 2) ∷ ("memory/request", int_metric gauge 11) ∷ [])

abbrev pub pods : DataBatch
pods = record {
  timestamp = 100;
  metric_sets =
      ("namespace:web/pod:a", pod_a) ∷ ("node:n1", node_n1) ∷ ("namespace:web/pod:b", pod_b) ∷ [];
}

abbrev pub namespaces : DataBatch
namespaces = record {
  timestamp = 100;
  metric_sets =
      ("namespace:web", namespace_web) ∷ ("node:n1", node_n1) ∷ ("namespace:db", namespace_db) ∷ [];
}

abbrev pub namespaces_turned : DataBatch
namespaces_turned = record {
  timestamp = 100;
  metric_sets =
      ("namespace:db", namespace_db) ∷ ("namespace:web", namespace_web) ∷ ("node:n1", node_n1) ∷ [];
}
