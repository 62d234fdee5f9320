-- ===== src/Tests/Rates.antt =====
-- metrics/processors: the rate calculator and the enrichers on concrete sets.
use heapster.Common.{
  ℕ, List, ◌+◌, str_eq, if◌then◌else◌, false, ◌-◌, ◌*◌, ◌/◌, [], ◌∷◌, some, none, ◌≡◌, refl, arith,
}
use heapster.Common.Dict.{lookup, or_else}
use heapster.Common.Int64.{sub64, mul64, div64, abs64}
use heapster.Core.Metrics.Derived.{metric_cpu_usage_rate}
use heapster.Core.Metrics.Families.{is_node_autoscaling_metric}
use heapster.Core.Metrics.Tables.{rate_metrics_mapping}
use heapster.Core.Values.{MetricSet, DataBatch, gauge, cumulative, int_metric}
use heapster.Processors.Autoscaling.{KubeNode, node_values}
use heapster.Processors.Autoscaling.Metrics.{NodeShares, node_values_lem, node_values_others}
use heapster.Processors.NamespaceEnricher.{
  Store, missing, namespace_uid, namespace_enricher_process,
}
use heapster.Processors.NamespaceEnricher.Uids.{Enriched, namespace_enricher_process_lem}
use heapster.Processors.Rate.{cpu_rate, rate_set}
use heapster.Processors.Rate.Batches.{
  rate_from, lookup-rate_set, rate_metrics_mapping-IsMapping, cpu_usage_rate_lem,
}
use heapster.Tests.Data.{whole_ops, pods, pod_a}

abbrev minute : ℕ
minute = 60000000000

-- 2018-01-01, and the CPU counter at a scrape.
abbrev scraped : ℕ → ℕ → MetricSet
scraped later usage = record pod_a {
  scrape_time = 63650361600000000000 + later;
  metric_values = ("cpu/usage", int_metric cumulative usage) ∷ [];
}

-- Half a core for a minute.
abbrev old_set : MetricSet
old_set = scraped 0 7000000000

abbrev new_set : MetricSet
new_set = scraped minute 37000000000

cpu_usage_rate_lem_example :
    lookup metric_cpu_usage_rate.descriptor.name
      (rate_set whole_ops rate_metrics_mapping (some old_set) new_set).metric_values
    ≡ some (
        int_metric gauge
          (1000 * (37000000000 - 7000000000) / (new_set.scrape_time - old_set.scrape_time)))
unfolding lookup
cpu_usage_rate_lem_example =
    cpu_usage_rate_lem whole_ops old_set new_set (int_metric cumulative 37000000000)
      (int_metric cumulative 7000000000) refl refl refl (omega arith) (omega arith) (omega arith)
      (omega arith) (omega arith)

half_a_core : cpu_rate 37000000000 7000000000 minute ≡ 500
unfolding cpu_rate mul64 div64 sub64 abs64
half_a_core = refl

lookup-rate_set_example :
    lookup "cpu/usage_rate"
      (rate_set whole_ops rate_metrics_mapping (some old_set) new_set).metric_values
    ≡ or_else
        (rate_from whole_ops rate_metrics_mapping (some old_set) new_set "cpu/usage_rate")
        (lookup "cpu/usage_rate" new_set.metric_values)
lookup-rate_set_example =
    lookup-rate_set whole_ops rate_metrics_mapping (some old_set) new_set "cpu/usage_rate"
      rate_metrics_mapping-IsMapping

abbrev batch_of : ℕ → MetricSet → DataBatch
batch_of later ms = record {
  timestamp = 63650361600000000000 + later;
  metric_sets = ("namespace:web/pod:a", ms) ∷ [];
}

abbrev one_namespace : Store
one_namespace name = if str_eq name "web" then namespace_uid "u-1" else missing

-- The second batch is stale, and is not taken.
abbrev runs : List (DataBatch × (DataBatch → DataBatch))
runs =
    (batch_of 0 old_set, namespace_enricher_process one_namespace)
    ∷ (batch_of 0 new_set, namespace_enricher_process one_namespace)
    ∷ []

namespace_enricher_process_lem_example :
    Enriched one_namespace
      (lookup "namespace:web/pod:a" pods.metric_sets)
      (lookup "namespace:web/pod:a" (namespace_enricher_process one_namespace pods).metric_sets)
namespace_enricher_process_lem_example =
    namespace_enricher_process_lem one_namespace pods "namespace:web/pod:a"

abbrev kube_node : KubeNode
kube_node = record {
  name = "n1";
  labels = [];
  capacity = record { cpu = 4000; mem = 8000; ephemeral_storage = none };
  allocatable = record { cpu = 2000; mem = 6000; ephemeral_storage = none };
}

node_values_lem_example :
    NodeShares whole_ops kube_node (("cpu/request", int_metric gauge 500) ∷ [])
node_values_lem_example =
    node_values_lem whole_ops kube_node (("cpu/request", int_metric gauge 500) ∷ [])

uptime_other : is_node_autoscaling_metric "uptime" ≡ false
unfolding is_node_autoscaling_metric
uptime_other = refl

node_values_others_example :
    lookup "uptime" (node_values whole_ops kube_node (("uptime", int_metric cumulative 9) ∷ []))
    ≡ lookup "uptime" (("uptime", int_metric cumulative 9) ∷ [])
node_values_others_example =
    node_values_others whole_ops "uptime" uptime_other kube_node
      (("uptime", int_metric cumulative 9) ∷ [])
