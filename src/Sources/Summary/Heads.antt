-- ===== src/Sources/Summary/Heads.antt =====
-- metrics/sources/summary/summary.go: the functions that write values leave the labels and the start
-- of the collection alone.
use heapster.Common.{
  ℕ, String, List, [], ◌∷◌, Option, none, some, Bool, Bool-cases, inl, inr, ◌≡◌, refl, ◌∙◌, ap,
}
use heapster.Common.Dict.{Dict}
use heapster.Common.Result.{ok, ok_injective, >>=-eq-ok}
use heapster.Common.Time.{Time, is_zero}
use heapster.Core.Metrics.Defs.{Metric}
use heapster.Core.Values.{MetricSet, MetricType}
use heapster.Sources.Stats.{
  CpuStats, MemoryStats, NetworkStats, FsStats, AcceleratorStats, UserDefinedMetric, ContainerStats,
  PodStats, NodeStats,
}
use heapster.Sources.Summary.Values.{
  add_int_metric, add_labeled_int_metric, decode_uptime, decode_cpu_stats,
  decode_ephemeral_storage_stats, decode_ephemeral_storage_stats_for_container, add_used,
  decode_memory_stats, decode_accelerator_stats, decode_network_stats, decode_fs_stats,
  decode_user_defined_metrics, add_user_metric, user_metric_type,
}
use heapster.Sources.Summary.{
  bare_pod_set, bare_node_set, decode_volumes, decode_container_stats, container_set, pod_set,
  node_set, pod_labels,
}

pub head : MetricSet → Dict String × Time
head ms = (ms.labels, ms.collection_start_time)

pub labels-head : (ms ms' : MetricSet) → head ms' ≡ head ms → ms'.labels ≡ ms.labels
unfolding head
labels-head ms ms' e = ap (λ (p : Dict String × Time). p.0) e

pub start-head :
    (ms ms' : MetricSet) → head ms' ≡ head ms → ms'.collection_start_time ≡ ms.collection_start_time
unfolding head
start-head ms ms' e = ap (λ (p : Dict String × Time). p.1) e

head-add_int_metric :
    (m : Metric) (v : Option ℕ) (ms : MetricSet) → head (add_int_metric m v ms) ≡ head ms
unfolding head add_int_metric
head-add_int_metric m none ms = refl
head-add_int_metric m (some v) ms = refl

head-add_labeled :
    (m : Metric) (l : Dict String) (v : Option ℕ) (ms : MetricSet)
    → head (add_labeled_int_metric m l v ms) ≡ head ms
unfolding head add_labeled_int_metric
head-add_labeled m l none ms = refl
head-add_labeled m l (some v) ms = refl

head-decode_uptime : (now t : Time) (ms : MetricSet) → head (decode_uptime now t ms) ≡ head ms
unfolding decode_uptime
head-decode_uptime now t ms = elim (Bool-cases (is_zero t)) [
  | inl q ↦ rw q
  | inr q ↦ rw q (head-add_int_metric _ _ ms)
]

head-decode_cpu_stats :
    (c : Option CpuStats) (ms : MetricSet) → head (decode_cpu_stats c ms) ≡ head ms
unfolding decode_cpu_stats
head-decode_cpu_stats none ms = refl
head-decode_cpu_stats (some c) ms = head-add_int_metric _ _ ms

head-decode_storage :
    (f : Option FsStats) (ms : MetricSet) → head (decode_ephemeral_storage_stats f ms) ≡ head ms
unfolding decode_ephemeral_storage_stats
head-decode_storage none ms = refl
head-decode_storage (some f) ms = head-add_int_metric _ _ ms

head-decode_memory_stats :
    (m : Option MemoryStats) (ms : MetricSet) → head (decode_memory_stats m ms) ≡ head ms
unfolding decode_memory_stats
head-decode_memory_stats none ms = refl
head-decode_memory_stats (some m) ms = simp head-add_int_metric

head-decode_network_stats :
    (n : Option NetworkStats) (ms : MetricSet) → head (decode_network_stats n ms) ≡ head ms
unfolding decode_network_stats
head-decode_network_stats none ms = refl
head-decode_network_stats (some n) ms = simp head-add_int_metric

head-decode_fs_stats :
    (k : String) (f : Option FsStats) (ms : MetricSet) → head (decode_fs_stats k f ms) ≡ head ms
unfolding decode_fs_stats
head-decode_fs_stats k none ms = refl
head-decode_fs_stats k (some f) ms = simp head-add_labeled

head-decode_accelerator_stats :
    (acs : List AcceleratorStats) (ms : MetricSet)
    → head (decode_accelerator_stats acs ms) ≡ head ms
unfolding decode_accelerator_stats
head-decode_accelerator_stats [] ms = refl
head-decode_accelerator_stats (a ∷ rest) ms =
    head-decode_accelerator_stats rest _ ∙ simp head-add_labeled

head-add_user_metric :
    (m : UserDefinedMetric) (t : Option MetricType) (ms : MetricSet)
    → head (add_user_metric m t ms) ≡ head ms
unfolding head
head-add_user_metric m none ms = refl
head-add_user_metric m (some t) ms = refl

head-decode_user_defined_metrics :
    (udm : List UserDefinedMetric) (ms : MetricSet)
    → head (decode_user_defined_metrics udm ms) ≡ head ms
unfolding decode_user_defined_metrics
head-decode_user_defined_metrics [] ms = refl
head-decode_user_defined_metrics (m ∷ udm) ms =
    head-decode_user_defined_metrics udm _
    ∙ head-add_user_metric m (user_metric_type m.metric_type) ms

head-decode_volumes :
    (vs : List (String × FsStats)) (ms : MetricSet) → head (decode_volumes vs ms) ≡ head ms
unfolding decode_volumes
head-decode_volumes [] ms = refl
head-decode_volumes ((name, fs) ∷ vs) ms =
    head-decode_volumes vs _ ∙ head-decode_fs_stats _ (some fs) ms

head-add_used :
    (r l : Option ℕ) (ms : MetricSet) {ms' : MetricSet}
    → add_used r l ms ≡ ok ms'
    → head ms' ≡ head ms
head-add_used (some r) (some l) ms h = rw (← ok_injective h) (head-add_int_metric _ _ ms)
head-add_used (some r) none ms h = cc
head-add_used none l ms h = cc

head-decode_storage_for_container :
    (r l : Option FsStats) (ms : MetricSet) {ms' : MetricSet}
    → decode_ephemeral_storage_stats_for_container r l ms ≡ ok ms'
    → head ms' ≡ head ms
unfolding decode_ephemeral_storage_stats_for_container
head-decode_storage_for_container (some r) (some l) ms h =
    head-add_used r.used_bytes l.used_bytes ms h
head-decode_storage_for_container (some r) none ms h = rw (← ok_injective h)
head-decode_storage_for_container none l ms h = rw (← ok_injective h)

-- A decoded container has the labels and the start that it was made with.
pub head-decode_container_stats :
    (now : Time) (labels : Dict String) (c : ContainerStats) (system : Bool) {ms : MetricSet}
    → decode_container_stats now labels c system ≡ ok ms
    → head ms ≡ head (container_set labels c system)
unfolding decode_container_stats
head-decode_container_stats now labels c system {ms} h =
    let (stored, r, e) = >>=-eq-ok _ _ h in
    let done : decode_user_defined_metrics c.user_defined_metrics stored ≡ ms = ok_injective e in
    rw (← done) (
      head-decode_user_defined_metrics c.user_defined_metrics stored
      ∙ head-decode_storage_for_container c.rootfs c.logs _ r
      ∙ simp (
        head-decode_fs_stats, head-decode_accelerator_stats, head-decode_memory_stats,
        head-decode_cpu_stats, head-decode_uptime,
      ))

pub labels-pod_set :
    (now : Time) (labels : Dict String) (pod : PodStats)
    → (pod_set now labels pod).labels ≡ pod_labels labels pod.pod_ref
unfolding pod_set
labels-pod_set now labels pod =
    let bare = bare_pod_set labels pod in
    let e : head (pod_set now labels pod) ≡ head bare =
      head-decode_volumes pod.volume_stats _
      ∙ simp (
        head-decode_storage, head-decode_memory_stats, head-decode_cpu_stats,
        head-decode_network_stats, head-decode_uptime,
      ) in
    labels-head bare (pod_set now labels pod) e

pub labels-node_set :
    (now : Time) (labels : Dict String) (node : NodeStats)
    → (node_set now labels node).labels ≡ (bare_node_set labels node).labels
unfolding node_set
labels-node_set now labels node =
    let e : head (node_set now labels node) ≡ head (bare_node_set labels node) = simp (
      head-decode_storage, head-decode_fs_stats, head-decode_memory_stats, head-decode_cpu_stats,
      head-decode_network_stats, head-decode_uptime,
    ) in
    labels-head (bare_node_set labels node) (node_set now labels node) e
