-- ===== src/Sources/Summary.antt =====
-- metrics/sources/summary/summary.go: the kubelet's summary is decoded into metric sets. Values has
-- the functions that write one part of a set.
pub mod Values
pub mod Heads
pub mod Keyed
pub mod Containers
pub mod Panics
use heapster.Common.{
  String, List, [], ◌∷◌, Option, none, some, Bool, true, false, if◌then◌else◌, str_eq,
}
use heapster.Common.Dict.{Dict, lookup, insert, insert_all}
use heapster.Common.Result.{Result, ok, ◌>>=◌}
use heapster.Common.Text.{concat}
use heapster.Common.Time.{Time, before, zero_time}
use heapster.Core.Keys.{node_key, node_container_key, pod_key, pod_container_key}
use heapster.Core.Labels.{
  label_nodename, label_hostname, label_host_id, label_metric_set_type, label_pod_id,
  label_pod_name, label_namespace_name, label_container_name, metric_set_type_node,
  metric_set_type_pod, metric_set_type_pod_container, metric_set_type_system_container,
}
use heapster.Core.Values.{MetricSet, DataBatch}
use heapster.Sources.Stats.{ContainerStats, PodReference, PodStats, NodeStats, Summary, FsStats}
use heapster.Sources.Summary.Values.{
  decode_uptime, decode_cpu_stats, decode_ephemeral_storage_stats,
  decode_ephemeral_storage_stats_for_container, decode_memory_stats, decode_accelerator_stats,
  decode_network_stats, decode_fs_stats, decode_user_defined_metrics, get_scrape_time,
}

-- The part of `NodeInfo` that the decoding reads.
pub record NodeInfo : Type 0 where
  pub node_name : String
  pub host_name : String
  pub host_id : String

abbrev pub volume_resource_prefix : String
volume_resource_prefix = "Volume:"

unfoldable pub clone_labels : Dict String → Dict String
clone_labels labels = insert_all labels []

-- `systemNameMap`: the summary's names of system containers, and the original ones.
abbrev pub system_name_map : Dict String
system_name_map = ("runtime", "docker-daemon") ∷ ("misc", "system") ∷ []

abbrev legacy_or : Option String → String → String
legacy_or none name = name
legacy_or (some legacy) name = legacy

unfoldable pub get_system_container_name : ContainerStats → String
get_system_container_name c = legacy_or (lookup c.name system_name_map) c.name

-- The set of a container before its values are decoded.
unfoldable pub container_set : Dict String → ContainerStats → Bool → MetricSet
container_set pod_labels c is_system_container = record {
  collection_start_time = c.start_time;
  entity_create_time = zero_time;
  scrape_time = get_scrape_time c.cpu c.memory none;
  metric_values = [];
  labels =
      insert label_container_name.key
        (if is_system_container then get_system_container_name c else c.name)
        (insert label_metric_set_type.key metric_set_type_pod_container (clone_labels pod_labels));
  labeled_metrics = [];
}

-- `decodeContainerStats`; an error stands for the panic at a missing number of used bytes.
unfoldable pub decode_container_stats :
    Time → Dict String → ContainerStats → Bool → Result MetricSet
decode_container_stats now pod_labels c is_system_container = do
  let ms = decode_fs_stats "logs" c.logs (
      decode_fs_stats "/" c.rootfs (
        decode_accelerator_stats c.accelerators (
          decode_memory_stats c.memory (
            decode_cpu_stats c.cpu
              (decode_uptime now c.start_time (container_set pod_labels c is_system_container))))))
  stored ← decode_ephemeral_storage_stats_for_container c.rootfs c.logs ms
  ok (decode_user_defined_metrics c.user_defined_metrics stored)

-- The loop over a pod's volumes.
unfoldable pub decode_volumes : List (String × FsStats) → MetricSet → MetricSet
decode_volumes [] ms = ms
decode_volumes ((name, fs) ∷ volumes) ms =
    decode_volumes volumes
      (decode_fs_stats (concat (volume_resource_prefix ∷ name ∷ [])) (some fs) ms)

unfoldable pub pod_labels : Dict String → PodReference → Dict String
pod_labels node_labels ref = insert label_namespace_name.key ref.namespace (
    insert label_pod_name.key ref.name (
      insert label_pod_id.key ref.uid
        (insert label_metric_set_type.key metric_set_type_pod (clone_labels node_labels))))

-- The sets of a pod and of a node before their values are decoded.
abbrev pub bare_pod_set : Dict String → PodStats → MetricSet
bare_pod_set node_labels pod = record {
  collection_start_time = pod.start_time;
  entity_create_time = zero_time;
  scrape_time = get_scrape_time none none pod.network;
  metric_values = [];
  labels = pod_labels node_labels pod.pod_ref;
  labeled_metrics = [];
}

abbrev pub bare_node_set : Dict String → NodeStats → MetricSet
bare_node_set labels node = record {
  collection_start_time = node.start_time;
  entity_create_time = zero_time;
  scrape_time = get_scrape_time node.cpu node.memory node.network;
  metric_values = [];
  labels = insert label_metric_set_type.key metric_set_type_node (clone_labels labels);
  labeled_metrics = [];
}

unfoldable pub pod_set : Time → Dict String → PodStats → MetricSet
pod_set now node_labels pod = decode_volumes pod.volume_stats (
    decode_ephemeral_storage_stats pod.ephemeral_storage (
      decode_memory_stats pod.memory (
        decode_cpu_stats pod.cpu (
          decode_network_stats pod.network
            (decode_uptime now pod.start_time (bare_pod_set node_labels pod))))))

-- A container is left out where the set under its key began later.
abbrev is_outdated : ContainerStats → Option MetricSet → Bool
is_outdated c none = false
is_outdated c (some ms) = before c.start_time ms.collection_start_time

-- The loop over a pod's containers.
unfoldable pub decode_containers :
    Time
    → Dict String
    → PodReference
    → List ContainerStats
    → Dict MetricSet
    → Result (Dict MetricSet)
decode_containers now labels ref [] metrics = ok metrics
decode_containers now labels ref (c ∷ cs) metrics =
    let key = pod_container_key ref.namespace ref.name c.name in
    let skipped = decode_containers now labels ref cs metrics in
    let kept = decode_container_stats now labels c false >>= λ ms.
    decode_containers now labels ref cs (insert key ms metrics) in
    if is_outdated c (lookup key metrics) then skipped else kept

unfoldable pub decode_pod_stats :
    Time → Dict String → PodStats → Dict MetricSet → Result (Dict MetricSet)
decode_pod_stats now node_labels pod metrics =
    let ms = pod_set now node_labels pod in
    decode_containers now ms.labels pod.pod_ref pod.containers
      (insert (pod_key pod.pod_ref.namespace pod.pod_ref.name) ms metrics)

-- The loop over the node's system containers.
unfoldable pub decode_system_containers :
    Time → Dict String → String → List ContainerStats → Dict MetricSet → Result (Dict MetricSet)
decode_system_containers now labels node_name [] metrics = ok metrics
decode_system_containers now labels node_name (c ∷ cs) metrics = do
  ms ← decode_container_stats now labels c true
  let system = record ms {
    labels = insert label_metric_set_type.key metric_set_type_system_container ms.labels;
  }
  decode_system_containers now labels node_name cs
      (insert (node_container_key node_name (get_system_container_name c)) system metrics)

unfoldable pub node_set : Time → Dict String → NodeStats → MetricSet
node_set now labels node = decode_ephemeral_storage_stats node.fs (
    decode_fs_stats "/" node.fs (
      decode_network_stats node.network (
        decode_memory_stats node.memory (
          decode_cpu_stats node.cpu
            (decode_uptime now node.start_time (bare_node_set labels node))))))

unfoldable pub decode_node_stats :
    Time → Dict String → NodeStats → Dict MetricSet → Result (Dict MetricSet)
decode_node_stats now labels node metrics =
    decode_system_containers now labels node.node_name node.system_containers
      (insert (node_key node.node_name) (node_set now labels node) metrics)

unfoldable pub decode_pods :
    Time → Dict String → List PodStats → Dict MetricSet → Result (Dict MetricSet)
decode_pods now labels [] metrics = ok metrics
decode_pods now labels (pod ∷ pods) metrics = do
  metrics' ← decode_pod_stats now labels pod metrics
  decode_pods now labels pods metrics'

abbrev pub base_labels : NodeInfo → Dict String
base_labels node =
    (label_nodename.key, node.node_name)
    ∷ (label_hostname.key, node.host_name)
    ∷ (label_host_id.key, node.host_id)
    ∷ []

-- `decodeSummary`, with the current time, which the uptimes are counted to.
unfoldable pub decode_summary : Time → NodeInfo → Summary → Result (Dict MetricSet)
decode_summary now node summary = do
  metrics ← decode_node_stats now (base_labels node) summary.node []
  decode_pods now (base_labels node) summary.pods metrics

-- `ScrapeMetrics`, given what the kubelet's client returns.
unfoldable pub summary_scrape_metrics : Time → NodeInfo → Result Summary → Result DataBatch
summary_scrape_metrics now node fetched = do
  summary ← fetched
  sets ← decode_summary now node summary
  ok (record { timestamp = now; metric_sets = sets })
