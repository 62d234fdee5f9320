-- ===== src/Processors/Cluster.antt =====
-- metrics/processors/cluster_aggregator.go: the cluster's metrics are those of its namespaces.
pub mod Sum
pub mod Order
use heapster.Common.{String, List, [], ◌∷◌, if◌then◌else◌}
use heapster.Common.Dict.{Dict, insert}
use heapster.Common.Int64.{FloatOps}
use heapster.Common.Result.{Result, ok, ◌>>=◌}
use heapster.Common.Time.{zero_time}
use heapster.Core.Keys.{cluster_key}
use heapster.Core.Labels.{label_metric_set_type, metric_set_type_cluster, metric_set_type_namespace}
use heapster.Core.Values.{MetricValue, MetricSet, DataBatch}
use heapster.Processors.Aggregate.{aggregate}
use heapster.Processors.Labels.{has_kind}

unfoldable pub cluster_metric_set : MetricSet
cluster_metric_set = record {
  collection_start_time = zero_time;
  entity_create_time = zero_time;
  scrape_time = zero_time;
  metric_values = [];
  labels = (label_metric_set_type.key, metric_set_type_cluster) ∷ [];
  labeled_metrics = [];
}

-- The loop over the batch; its state is the `MetricValues` of the new set.
unfoldable pub cluster_loop :
    FloatOps → List String → Dict MetricSet → Dict MetricValue → Result (Dict MetricValue)
cluster_loop f metrics [] cluster = ok cluster
cluster_loop f metrics ((key, ms) ∷ rest) cluster = do
  cluster' ←
      if has_kind metric_set_type_namespace ms
      then aggregate f ms.metric_values cluster metrics
      else ok cluster
  cluster_loop f metrics rest cluster'

-- `ClusterAggregator.Process` with its field `MetricsToAggregate`.
unfoldable pub cluster_process : FloatOps → List String → DataBatch → Result DataBatch
cluster_process f metrics batch = do
  values ← cluster_loop f metrics batch.metric_sets cluster_metric_set.metric_values
  ok (record batch {
    metric_sets =
        insert cluster_key (record cluster_metric_set { metric_values = values }) batch.metric_sets;
  })
