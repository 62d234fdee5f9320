-- ===== src/Processors/Node.antt =====
-- metrics/processors/node_aggregator.go: the requests and limits of a node are those of its pods.
-- A batch holds pointers to its metric sets: the loop reads each set as it stands by then.
pub mod Pods
use heapster.Common.{String, List, [], ◌∷◌, Option, none, some, not, if◌then◌else◌, str_eq}
use heapster.Common.Dict.{Dict, lookup, insert, keys}
use heapster.Common.Int64.{FloatOps}
use heapster.Common.Result.{Result, ok, ◌>>=◌}
use heapster.Core.Keys.{node_key}
use heapster.Core.Labels.{metric_set_type_pod, label_nodename}
use heapster.Core.Values.{MetricSet, DataBatch}
use heapster.Processors.Aggregate.{aggregate}
use heapster.Processors.Labels.{has_kind, label_of}

-- The aggregation of one pod into the set under a node's key, if there is one.
unfoldable pub into_node :
    FloatOps → List String → MetricSet → String → Dict MetricSet → Result (Dict MetricSet)
into_node f metrics pod nodekey sets = elim (lookup nodekey sets) [
  | none ↦ ok sets
  | some node ↦ do
    values ← aggregate f pod.metric_values node.metric_values metrics
    ok (insert nodekey (record node { metric_values = values }) sets)
]

-- One round. A pod without a node's name, or with an empty one, is skipped.
unfoldable pub node_visit :
    FloatOps → List String → MetricSet → Dict MetricSet → Result (Dict MetricSet)
node_visit f metrics ms sets =
    if not (has_kind metric_set_type_pod ms)
    then ok sets
    else if str_eq (label_of label_nodename.key ms) ""
    then ok sets
    else into_node f metrics ms (node_key (label_of label_nodename.key ms)) sets

unfoldable pub node_loop :
    FloatOps → List String → List String → Dict MetricSet → Result (Dict MetricSet)
node_loop f metrics [] sets = ok sets
node_loop f metrics (key ∷ rest) sets = do
  sets' ← elim (lookup key sets) [ none ↦ ok sets | some ms ↦ node_visit f metrics ms sets ]
  node_loop f metrics rest sets'

-- `NodeAggregator.Process` with its field `MetricsToAggregate`.
unfoldable pub node_process : FloatOps → List String → DataBatch → Result DataBatch
node_process f metrics batch = do
  sets ← node_loop f metrics (keys batch.metric_sets) batch.metric_sets
  ok (record batch { metric_sets = sets })
