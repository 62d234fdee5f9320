-- ===== src/Server.antt =====
-- metrics/heapster.go: the processors that a batch goes through, and the checks of the server. The
-- options are those of metrics/options/options.go.
pub mod Chain
pub mod Checks
use heapster.Common.{
  ℕ, ◌+◌, String, List, [], ◌∷◌, Option, none, some, Bool, not, ◌&&◌, ◌||◌, if◌then◌else◌, str_eq,
  ltb, length, ◌%◌,
}
use heapster.Common.Dict.{Dict}
use heapster.Common.Int64.{FloatOps, two63, two64}
use heapster.Common.Result.{Result, ok, error}
use heapster.Common.Text.{cut}
use heapster.Common.Time.{Time}
use heapster.Core.Metrics.Defs.{Metric}
use heapster.Core.Metrics.Derived
use heapster.Core.Metrics.Standard
use heapster.Core.Values.{MetricSet, DataBatch}
use heapster.Flags.{Uri}
use heapster.Processors.Autoscaling.{KubeNode, autoscaling_process}
use heapster.Processors.Cluster.{cluster_process}
use heapster.Processors.Namespace.{namespace_process}
use heapster.Processors.NamespaceEnricher.{Store, namespace_enricher_process}
use heapster.Processors.Node.{node_process}
use heapster.Processors.Pod.{pod_process, skipped_metrics}
use heapster.Processors.PodEnricher.{Lister, pod_enricher_process}
use heapster.Processors.Rate.{RateCalculator, rate_process}
use heapster.Sinks.Metric.{MetricSink, get_latest_data_batch}
use heapster.Util.LabelCopier.{LabelCopier}

abbrev pub metrics_to_aggregate : List String
metrics_to_aggregate =
    Derived.metric_cpu_usage_rate.descriptor.name ∷ Standard.metric_memory_usage.descriptor.name
    ∷ Derived.metric_cpu_request.descriptor.name ∷ Derived.metric_cpu_limit.descriptor.name
    ∷ Derived.metric_memory_request.descriptor.name ∷ Derived.metric_memory_limit.descriptor.name
    ∷ []

abbrev pub metrics_to_aggregate_for_node : List String
metrics_to_aggregate_for_node =
    Derived.metric_cpu_request.descriptor.name ∷ Derived.metric_cpu_limit.descriptor.name
    ∷ Derived.metric_memory_request.descriptor.name ∷ Derived.metric_memory_limit.descriptor.name
    ∷ Derived.metric_ephemeral_storage_request.descriptor.name
    ∷ Derived.metric_ephemeral_storage_limit.descriptor.name ∷ []

-- What the processors know as a round begins: the rate calculator's state, the table of request
-- metrics, and what client-go's listers and stores answer.
pub record Surroundings : Type 0 where
  pub ops : FloatOps
  pub calculator : RateCalculator
  pub table : Dict Metric
  pub label_copier : LabelCopier
  pub pod_lister : Lister
  pub namespace_store : Store
  pub node_list : Result (List KubeNode)

-- The processors that `createDataProcessorsOrDie` puts together, in its order.
unfoldable pub create_data_processors : Surroundings → List (DataBatch → Result DataBatch)
create_data_processors w =
    (λ b. ok (rate_process w.ops w.calculator b).0)
    ∷ (λ b. ok (pod_enricher_process w.pod_lister w.label_copier w.table b).0)
    ∷ (λ b. ok (namespace_enricher_process w.namespace_store b))
    ∷ pod_process w.ops skipped_metrics
    ∷ namespace_process w.ops metrics_to_aggregate
    ∷ node_process w.ops metrics_to_aggregate_for_node
    ∷ cluster_process w.ops metrics_to_aggregate
    ∷ autoscaling_process w.ops w.label_copier w.node_list
    ∷ []

abbrev pub min_metrics_count : ℕ
min_metrics_count = 1

abbrev pub max_metrics_delay : ℕ
max_metrics_delay = 180000000000

abbrev pub check_batch : Time → Option DataBatch → Option String
check_batch now none = some "could not get the latest data batch"
check_batch now (some batch) =
    if ltb (batch.timestamp + max_metrics_delay) now
    then some "No current data batch available"
    else (if ltb (length batch.metric_sets) min_metrics_count
        then some "Not enough metrics found in the latest data batch"
        else none)

-- `healthzChecker`: the error at the time of the request, if any; its text is cut short.
unfoldable pub healthz_checker : MetricSink → Time → Option String
healthz_checker sink now = check_batch now (get_latest_data_batch sink)

abbrev first_part : String → Option (String × String) → String
first_part s none = s
first_part s (some (a, b)) = a

-- `getKubernetesAddress`: the URL of the first source whose key is "kubernetes" up to a ".".
unfoldable pub get_kubernetes_address : {Url : Type 0} → List (Uri Url) → Result Url
get_kubernetes_address [] = error "No kubernetes source found."
get_kubernetes_address (uri ∷ args) =
    let rest = get_kubernetes_address args in
    if str_eq (first_part uri.key (cut b'.' uri.key)) "kubernetes" then ok uri.val else rest

pub record HeapsterRunOptions : Type 0 where
  pub metric_resolution : ℕ  -- an int64, by its bit pattern
  pub tls_cert_file : String
  pub tls_key_file : String
  pub tls_client_ca_file : String

-- The comparison of two `int64`.
abbrev pub lt64 : ℕ → ℕ → Bool
lt64 a b = ltb ((a + two63) % two64) ((b + two63) % two64)

abbrev pub is_given : String → Bool
is_given s = not (str_eq s "")

-- `validateFlags`; none stands for a nil error.
unfoldable pub validate_flags : HeapsterRunOptions → Option String
validate_flags opt =
    if lt64 opt.metric_resolution 5000000000
    then some "metric resolution should not be less than 5 seconds"
    else (if (is_given opt.tls_cert_file && not (is_given opt.tls_key_file))
          || (not (is_given opt.tls_cert_file) && is_given opt.tls_key_file)
        then some "both TLS certificate & key are required to enable TLS serving"
        else (if is_given opt.tls_client_ca_file && not (is_given opt.tls_cert_file)
            then some "client cert authentication requires TLS certificate & key"
            else none))
