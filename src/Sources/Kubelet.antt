-- ===== src/Sources/Kubelet.antt =====
-- metrics/sources/kubelet/kubelet.go: cAdvisor's containers are decoded into metric sets. Names are
-- texts of ASCII characters, whose bytes the code counts. An error stands for a panic.
pub mod Values
pub mod Keyed
use Prim.Native.String as Text
use Prim.Native.Char.{code}
use heapster.Common.{
  ℕ, zero, suc, ◌-◌, ◌==◌, String, List, [], ◌∷◌, ◌++◌, Option, none, some, Bool, true, false, not,
  ◌&&◌, ◌||◌, if◌then◌else◌, str_eq,
}
use heapster.Common.Dict.{Dict, lookup, insert, value_or}
use heapster.Common.Int64.{Float64}
use heapster.Common.Result.{Result, ok, error, ◌>>=◌}
use heapster.Common.Text.{cut, concat}
use heapster.Common.Time.{Time, before, zero_time}
use heapster.Core.Cadvisor.{ContainerSpec, ContainerStats}
use heapster.Core.Keys.{node_key, node_container_key, pod_key, pod_container_key}
use heapster.Core.Labels.{
  label_nodename, label_hostname, label_host_id, label_metric_set_type, label_node_schedulable,
  label_pod_id, label_pod_name, label_namespace_name, label_container_name,
  label_container_base_image, metric_set_type_node, metric_set_type_pod,
  metric_set_type_pod_container, metric_set_type_system_container,
}
use heapster.Core.Metrics.Defs.{Metric}
use heapster.Core.Metrics.Tables.{standard_metrics, labeled_metrics}
use heapster.Core.Values.{
  MetricType, gauge, cumulative, ValueType, int64_type, float_type, MetricValue, LabeledMetric,
  MetricSet, DataBatch,
}
use heapster.Sources.Nodes.{SourceNode}
use heapster.Sources.Kubelet.Values.{ContainerInfo, Sample, decode_values}

-- `strings.TrimPrefix(name, "/")`, as the code writes it out.
unfoldable pub without_slash : String → String
without_slash Text.[] = Text.[]
without_slash (Text.◌∷◌ c s) = if code c == b'/' then s else Text.◌∷◌ c s

-- `s[n:]`, which panics where the text is shorter.
unfoldable pub drop_chars : ℕ → String → Result String
drop_chars zero s = ok s
drop_chars (suc n) Text.[] = error "slice bounds out of range"
drop_chars (suc n) (Text.◌∷◌ c s) = drop_chars n s

abbrev name_before_dot : Option (String × String) → Result String
name_before_dot none = ok ""
name_before_dot (some (before_dot, after_dot)) = drop_chars 4 before_dot

-- The container's name: its label, or for Kubernetes 1.0 a part of its full name.
unfoldable pub container_name_of : ContainerInfo → String → Result String
container_name_of c label = if str_eq label "" then name_before_dot (cut b'.' c.name) else ok label

abbrev pub label_text : String → ContainerInfo → String
label_text key c = value_or "" (lookup key c.labels)

abbrev cut_or : String → Option (String × String) → String × String
cut_or pod_name none = ("", pod_name)
cut_or pod_name (some (ns, name)) = (ns, name)

-- The namespace and the pod's name, which Kubernetes 1.0 puts in one label.
unfoldable pub namespace_and_pod : String → String → String × String
namespace_and_pod ns pod_name =
    if str_eq ns "" then cut_or pod_name (cut b'/' pod_name) else (ns, pod_name)

unfoldable pub handle_system_container :
    SourceNode → ContainerInfo → Dict String → String × Dict String
handle_system_container node c labels =
    let name = without_slash c.name in
    (
      node_container_key node.node_name name,
      insert label_container_name.key name
          (insert label_metric_set_type.key metric_set_type_system_container labels),
    )

abbrev pub add_pod_labels : ContainerInfo → String → String → Dict String → Dict String
add_pod_labels c ns pod_name labels = insert label_namespace_name.key ns (
    insert label_pod_name.key pod_name
      (insert label_pod_id.key (label_text "io.kubernetes.pod.uid" c) labels))

-- The container "POD" stands for its pod.
unfoldable pub handle_kubernetes_container :
    String → String → String → ContainerInfo → Dict String → String × Dict String
handle_kubernetes_container name ns pod_name c labels =
    if str_eq name "POD"
    then (
      pod_key ns pod_name,
      add_pod_labels c ns pod_name (insert label_metric_set_type.key metric_set_type_pod labels),
    )
    else (
      pod_container_key ns pod_name name,
      add_pod_labels c ns pod_name (
          insert label_container_base_image.key c.image (
            insert label_container_name.key name
              (insert label_metric_set_type.key metric_set_type_pod_container labels))),
    )

abbrev pub source_labels : SourceNode → Dict String
source_labels node =
    (label_nodename.key, node.node_name)
    ∷ (label_hostname.key, node.host_name)
    ∷ (label_host_id.key, node.host_id)
    ∷ []

-- The key and the labels of a container that is not the node.
unfoldable pub container_key_and_labels :
    SourceNode → ContainerInfo → String → String × String → String × Dict String
container_key_and_labels node c name (ns, pod_name) =
    if str_eq name "" || (str_eq ns "" || str_eq pod_name "")
    then handle_system_container node c (source_labels node)
    else handle_kubernetes_container name ns pod_name c (source_labels node)

unfoldable pub key_and_labels : SourceNode → ContainerInfo → Result (String × Dict String)
key_and_labels node c =
    if str_eq c.name "/"
    then ok (
      node_key node.node_name,
      insert label_node_schedulable.key node.schedulable
          (insert label_metric_set_type.key metric_set_type_node (source_labels node)),
    )
    else (do
      name ← container_name_of c (label_text "io.kubernetes.container.name" c)
      ok (
          container_key_and_labels node c name (
            namespace_and_pod (label_text "io.kubernetes.pod.namespace" c)
              (label_text "io.kubernetes.pod.name" c))))

-- The set of a container with at least one sample, which is the first.
unfoldable pub decode_sample :
    Time → SourceNode → ContainerInfo → Sample → Result (String × MetricSet)
decode_sample now node c sample = do
  kl ← key_and_labels node c
  ok (
    kl.0,
    decode_values now c sample (record {
      collection_start_time = c.spec.creation_time;
      entity_create_time = zero_time;
      scrape_time = sample.timestamp;
      metric_values = [];
      labels = kl.1;
      labeled_metrics = [];
    }),
  )

-- `decodeMetrics`: nothing for a container with no samples.
unfoldable pub decode_samples :
    Time → SourceNode → ContainerInfo → List Sample → Result (Option (String × MetricSet))
decode_samples now node c [] = ok none
decode_samples now node c (sample ∷ older) = do set ← decode_sample now node c sample; ok (some set)

unfoldable pub decode_metrics :
    Time → SourceNode → ContainerInfo → Result (Option (String × MetricSet))
unfolding decode_samples
decode_metrics now node c = decode_samples now node c c.stats

abbrev pub put_set : Option (String × MetricSet) → Dict MetricSet → Dict MetricSet
put_set none sets = sets
put_set (some (name, ms)) sets = if str_eq name "" then sets else insert name ms sets

-- The loop of `ScrapeMetrics`.
unfoldable pub decode_all :
    Time → SourceNode → List ContainerInfo → Dict MetricSet → Result (Dict MetricSet)
decode_all now node [] sets = ok sets
decode_all now node (c ∷ cs) sets = do
  set ← decode_metrics now node c
  decode_all now node cs (put_set set sets)

-- `ScrapeMetrics`, given what the kubelet's client returns.
unfoldable pub kubelet_scrape_metrics :
    Time → SourceNode → Time → Result (List ContainerInfo) → Result DataBatch
kubelet_scrape_metrics now node end fetched = do
  containers ← fetched
  sets ← decode_all now node containers []
  ok (record { timestamp = end; metric_sets = sets })
