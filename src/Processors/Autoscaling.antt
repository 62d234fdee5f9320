-- ===== src/Processors/Autoscaling.antt =====
-- metrics/processors/node_autoscaling_enricher.go: nodes are given their capacity, what can be
-- allocated, and the share of it that is used and requested. The lister of client-go is a
-- parameter: the nodes that it lists.
pub mod Metrics
use heapster.Common.{
  ℕ, String, List, [], ◌∷◌, Option, none, some, Bool, not, ◌&&◌, if◌then◌else◌, ◌==◌,
}
use heapster.Common.Dict.{Dict, lookup, insert, value_or, is_some}
use heapster.Common.Int64.{Float64, FloatOps}
use heapster.Common.Result.{Result, ok, ◌>>=◌}
use heapster.Core.Keys.{node_key}
use heapster.Core.Metrics.Defs.{Metric}
use heapster.Core.Metrics.Derived
use heapster.Core.Metrics.Standard
use heapster.Core.Values.{MetricValue, MetricSet, DataBatch, float_gauge}
use heapster.Util.LabelCopier.{LabelCopier, copy}

-- What the code reads of a `kube_api.Node`: quantities by their `MilliValue()` for CPU and their
-- `Value()` otherwise, which are 0 for a quantity that is not there.
pub record Quantities : Type 0 where
  pub cpu : ℕ
  pub mem : ℕ
  pub ephemeral_storage : Option ℕ

pub record KubeNode : Type 0 where
  pub name : String
  pub labels : Dict String
  pub capacity : Quantities
  pub allocatable : Quantities

abbrev pub int_or_zero : Option MetricValue → ℕ
int_or_zero none = 0
int_or_zero (some v) = v.int_value

unfoldable pub get_int : Dict MetricValue → Metric → ℕ
get_int values metric = int_or_zero (lookup metric.descriptor.name values)

unfoldable pub set_float : Metric → Float64 → Dict MetricValue → Dict MetricValue
set_float metric x values = insert metric.descriptor.name (float_gauge x) values

-- `if a != 0 { setFloat(utilization, used/a); setFloat(reservation, requested/a) }`.
unfoldable pub set_shares :
    FloatOps → Metric → Metric → ℕ → ℕ → ℕ → Dict MetricValue → Dict MetricValue
set_shares f utilization reservation used requested a values =
    if a == 0
    then values
    else set_float reservation (f.fdiv (f.of_int64 requested) (f.of_int64 a))
        (set_float utilization (f.fdiv (f.of_int64 used) (f.of_int64 a)) values)

abbrev pub set_pair : FloatOps → Metric → Metric → ℕ → ℕ → Dict MetricValue → Dict MetricValue
set_pair f capacity allocatable c a values =
    set_float allocatable (f.of_int64 a) (set_float capacity (f.of_int64 c) values)

-- The storage metrics, where the node states both its capacity and what can be allocated.
unfoldable pub set_storage :
    FloatOps → ℕ → ℕ → Option ℕ → Option ℕ → Dict MetricValue → Dict MetricValue
set_storage f used requested (some c) (some a) values =
    set_shares f Derived.metric_node_ephemeral_storage_utilization
      Derived.metric_node_ephemeral_storage_reservation used requested a
      (set_pair f Derived.metric_node_ephemeral_storage_capacity
        Derived.metric_node_ephemeral_storage_allocatable c a values)
set_storage f used requested _ _ values = values

-- The body of the loop: the six numbers are read before anything is written.
unfoldable pub node_values : FloatOps → KubeNode → Dict MetricValue → Dict MetricValue
node_values f node values =
    let cpu =
      set_pair f Derived.metric_node_cpu_capacity Derived.metric_node_cpu_allocatable
        node.capacity.cpu node.allocatable.cpu
        (set_shares f Derived.metric_node_cpu_utilization Derived.metric_node_cpu_reservation
          (get_int values Derived.metric_cpu_usage_rate) (get_int values Derived.metric_cpu_request)
          node.allocatable.cpu values) in
    let mem =
      set_pair f Derived.metric_node_memory_capacity Derived.metric_node_memory_allocatable
        node.capacity.mem node.allocatable.mem
        (set_shares f Derived.metric_node_memory_utilization Derived.metric_node_memory_reservation
          (get_int values Standard.metric_memory_usage)
          (get_int values Derived.metric_memory_request) node.allocatable.mem cpu) in
    set_storage f (get_int values Derived.metric_ephemeral_storage_usage)
      (get_int values Derived.metric_ephemeral_storage_request) node.capacity.ephemeral_storage
      node.allocatable.ephemeral_storage mem

unfoldable pub enrich_node : FloatOps → LabelCopier → KubeNode → MetricSet → MetricSet
enrich_node f copier node ms = record ms {
  labels = copy copier node.labels ms.labels;
  metric_values = node_values f node ms.metric_values;
}

unfoldable pub enrich_nodes :
    FloatOps → LabelCopier → List KubeNode → Dict MetricSet → Dict MetricSet
enrich_nodes f copier [] sets = sets
enrich_nodes f copier (node ∷ nodes) sets =
    enrich_nodes f copier nodes (elim (lookup (node_key node.name) sets) [
      | none ↦ sets
      | some ms ↦ insert (node_key node.name) (enrich_node f copier node ms) sets
    ])

-- `NodeAutoscalingEnricher.Process`, given what the lister returns.
unfoldable pub autoscaling_process :
    FloatOps → LabelCopier → Result (List KubeNode) → DataBatch → Result DataBatch
autoscaling_process f copier listed batch = do
  nodes ← listed
  ok (record batch { metric_sets = enrich_nodes f copier nodes batch.metric_sets })
