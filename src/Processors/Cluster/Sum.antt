-- ===== src/Processors/Cluster/Sum.antt =====
-- metrics/processors/cluster_aggregator.go: what the cluster's metric set holds after `Process`.
use heapster.Common.{
  ℕ, ◌%◌, String, List, [], ◌∷◌, map, none, some, true, Bool-cases, if◌then◌else◌, ◌≡◌, refl, ◌∙◌,
  sym, str_eq, str_eq_refl, contains, Distinct, All, inl, inr,
}
use heapster.Common.Dict.{Dict, insert, lookup, lookup-insert}
use heapster.Common.Int64.{FloatOps, two64, sum64, add64-zero-sum64}
use heapster.Common.Result.{ok, ◌>>=◌, >>=-eq-ok, ok_injective}
use heapster.Core.Keys.{cluster_key}
use heapster.Core.Labels.{metric_set_type_namespace, metric_set_type_cluster}
use heapster.Core.Values.{MetricValue, MetricSet, DataBatch}
use heapster.Processors.Aggregate.{aggregate}
use heapster.Processors.Aggregate.Row.{
  aggregate_row-IsInt, aggregate_row, merge_all, column, lookup-aggregate_row, IsInt, int_of,
  int_of-merge_all,
}
use heapster.Processors.Cluster.{cluster_metric_set, cluster_loop, cluster_process}
use heapster.Processors.Labels.{has_kind}

-- The metrics of the namespaces of a batch, in its order.
abbrev pub namespace_values : Dict MetricSet → List (Dict MetricValue)
namespace_values [] = []
namespace_values ((key, ms) ∷ rest) =
    let more = namespace_values rest in
    if has_kind metric_set_type_namespace ms then ms.metric_values ∷ more else more

cluster_loop-row :
    (f : FloatOps) (metrics : List String) (sets : Dict MetricSet) (c : Dict MetricValue)
    → cluster_loop f metrics sets c ≡ aggregate_row f metrics (namespace_values sets) c
unfolding cluster_loop
cluster_loop-row f metrics [] c = refl
cluster_loop-row f metrics ((key, ms) ∷ rest) c =
    elim (Bool-cases (has_kind metric_set_type_namespace ms)) [
      | inl e ↦
          rw e (λ i.
            aggregate f ms.metric_values c metrics >>= λ d. cluster_loop-row f metrics rest d i)
      | inr e ↦ rw e (cluster_loop-row f metrics rest c)
    ]

-- The batch with a set under the cluster's key: it has the label of a cluster, and of the chosen
-- metrics the merge of the namespaces' values, in the order of the batch.
abbrev pub HasCluster : FloatOps → List String → DataBatch → DataBatch → Type 0
HasCluster f metrics batch batch' =
    (cluster : MetricSet) × ((key : String)
      → lookup key batch'.metric_sets
        ≡ (if str_eq cluster_key key then some cluster else lookup key batch.metric_sets))
    × (batch'.timestamp ≡ batch.timestamp)
    × (has_kind metric_set_type_cluster cluster ≡ true)
    × ((m : String)
        → lookup m cluster.metric_values ≡ (
            if contains metrics m
            then merge_all f (column m (namespace_values batch.metric_sets)) none
            else none))

-- A successful `Process` puts one set under the cluster's key and leaves every other set, and the
-- timestamp, as they were. That set has the label of a cluster, and each of its metrics is the
-- merge of the namespaces' values of a chosen metric, in the order of the batch; it has no other.
-- No metric is chosen twice.
pub cluster_process_lem :
    (f : FloatOps) (metrics : List String) (batch : DataBatch) {batch' : DataBatch}
    → Distinct metrics
    → cluster_process f metrics batch ≡ ok batch'
    → HasCluster f metrics batch batch'
unfolding cluster_process cluster_metric_set has_kind lookup
cluster_process_lem f metrics batch d h =
    let (values, r, e) = >>=-eq-ok (cluster_loop f metrics batch.metric_sets []) _ h in
    let set : MetricSet = record cluster_metric_set { metric_values = values } in
    let eq = ok_injective e in
    let row = sym (cluster_loop-row f metrics batch.metric_sets []) ∙ r in
    (
      set,
      λ key. rw (← eq) (lookup-insert key cluster_key set batch.metric_sets),
      rw (← eq),
      refl,
      λ m. lookup-aggregate_row f metrics (namespace_values batch.metric_sets) [] m d row,
    )

-- The total of a metric over the namespaces, as an `int64` wraps.
unfoldable pub namespace_total : String → Dict MetricSet → ℕ
namespace_total m sets = sum64 (map int_of (column m (namespace_values sets)))

-- Where `Process` succeeds, no metric is chosen twice, and the namespaces have only integers for a
-- chosen metric, the cluster's value of it is the total over the namespaces, modulo 2 ^ 64.
pub cluster_process-total :
    (f : FloatOps) (metrics : List String) (batch : DataBatch) {batch' : DataBatch} (m : String)
    → Distinct metrics
    → cluster_process f metrics batch ≡ ok batch'
    → contains metrics m ≡ true
    → All IsInt (column m (namespace_values batch.metric_sets))
    → (cluster : MetricSet) × (lookup cluster_key batch'.metric_sets ≡ some cluster)
      × (int_of (lookup m cluster.metric_values) % two64 ≡ namespace_total m batch.metric_sets)
unfolding namespace_total
cluster_process-total f metrics batch m d h chosen ints =
    let (cluster, found, stamp, kind, look) = cluster_process_lem f metrics batch d h in
    let vs = column m (namespace_values batch.metric_sets) in
    (
      cluster,
      rw (found cluster_key, str_eq_refl),
      rw (look m, chosen) (int_of-merge_all f vs none ints tt ∙ add64-zero-sum64 (map int_of vs)),
    )

-- Where the namespaces have only integers for the chosen metrics, and none is chosen twice,
-- `Process` succeeds.
pub cluster_process-succeeds :
    (f : FloatOps) (metrics : List String) (batch : DataBatch)
    → Distinct metrics
    → ((m : String)
        → contains metrics m ≡ true
        → All IsInt (column m (namespace_values batch.metric_sets)))
    → (batch' : DataBatch) × (cluster_process f metrics batch ≡ ok batch')
unfolding cluster_process cluster_metric_set lookup
cluster_process-succeeds f metrics batch d h =
    let values = namespace_values batch.metric_sets in
    let (v, r) = aggregate_row-IsInt f metrics values [] d (λ m k. (h m k, tt)) in
    let e = cluster_loop-row f metrics batch.metric_sets [] ∙ r in
    (
      record batch {
        metric_sets =
            insert cluster_key (record cluster_metric_set { metric_values = v }) batch.metric_sets;
      },
      rw e,
    )
