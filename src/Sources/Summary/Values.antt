-- ===== src/Sources/Summary/Values.antt =====
-- metrics/sources/summary/summary.go: the functions that write one part of a metric set.
use heapster.Common.{ℕ, String, List, [], ◌∷◌, ◌++◌, Option, none, some, not, if◌then◌else◌, str_eq}
use heapster.Common.Dict.{Dict, insert}
use heapster.Common.Int64.{add64}
use heapster.Common.Result.{Result, ok, error}
use heapster.Common.Text.{concat}
use heapster.Common.Time.{Time, is_zero, zero_time}
use heapster.Core.Labels.{
  label_resource_id, label_accelerator_make, label_accelerator_model, label_accelerator_id,
}
use heapster.Core.Metrics.Defs.{Metric, milliseconds_since}
use heapster.Core.Metrics.Standard
use heapster.Core.Metrics.Derived
use heapster.Core.Metrics.Labeled
use heapster.Core.Values.{MetricType, cumulative, gauge, delta, float_type, MetricSet, int_metric}
use heapster.Sources.Stats.{
  CpuStats, MemoryStats, NetworkStats, FsStats, AcceleratorStats, UserDefinedMetric,
}

unfoldable pub add_int_metric : Metric → Option ℕ → MetricSet → MetricSet
add_int_metric metric none ms = ms
add_int_metric metric (some value) ms = record ms {
  metric_values =
      insert metric.descriptor.name (int_metric metric.descriptor.metric_type value)
        ms.metric_values;
}

unfoldable pub add_labeled_int_metric : Metric → Dict String → Option ℕ → MetricSet → MetricSet
add_labeled_int_metric metric labels none ms = ms
add_labeled_int_metric metric labels (some value) ms = record ms {
  labeled_metrics =
      ms.labeled_metrics
      ++ record {
        name = metric.descriptor.name;
        labels = labels;
        value = int_metric metric.descriptor.metric_type value;
      }
        ∷ [];
}

unfoldable pub decode_uptime : Time → Time → MetricSet → MetricSet
decode_uptime now start_time ms =
    if is_zero start_time
    then ms
    else add_int_metric Standard.metric_uptime (some (milliseconds_since now start_time)) ms

unfoldable pub decode_cpu_stats : Option CpuStats → MetricSet → MetricSet
decode_cpu_stats none ms = ms
decode_cpu_stats (some cpu) ms =
    add_int_metric Standard.metric_cpu_usage cpu.usage_core_nano_seconds ms

unfoldable pub decode_ephemeral_storage_stats : Option FsStats → MetricSet → MetricSet
decode_ephemeral_storage_stats none ms = ms
decode_ephemeral_storage_stats (some storage) ms =
    add_int_metric Derived.metric_ephemeral_storage_usage storage.used_bytes ms

-- `*rootfs.UsedBytes + *logs.UsedBytes` panics where a pointer is nil.
abbrev pub add_used : Option ℕ → Option ℕ → MetricSet → Result MetricSet
add_used (some r) (some l) ms =
    ok (add_int_metric Derived.metric_ephemeral_storage_usage (some (add64 r l)) ms)
add_used _ _ ms = error "invalid memory address or nil pointer dereference"

unfoldable pub decode_ephemeral_storage_stats_for_container :
    Option FsStats → Option FsStats → MetricSet → Result MetricSet
decode_ephemeral_storage_stats_for_container (some rootfs) (some logs) ms =
    add_used rootfs.used_bytes logs.used_bytes ms
decode_ephemeral_storage_stats_for_container _ _ ms = ok ms

unfoldable pub decode_memory_stats : Option MemoryStats → MetricSet → MetricSet
decode_memory_stats none ms = ms
decode_memory_stats (some memory) ms =
    add_int_metric Standard.metric_memory_major_page_faults memory.major_page_faults (
      add_int_metric Standard.metric_memory_page_faults memory.page_faults (
        add_int_metric Standard.metric_memory_rss memory.rss_bytes (
          add_int_metric Standard.metric_memory_working_set memory.working_set_bytes
            (add_int_metric Standard.metric_memory_usage memory.usage_bytes ms))))

unfoldable pub decode_accelerator_stats : List AcceleratorStats → MetricSet → MetricSet
decode_accelerator_stats [] ms = ms
decode_accelerator_stats (a ∷ accelerators) ms =
    let labels =
      (label_accelerator_make.key, a.make)
      ∷ (label_accelerator_model.key, a.model)
      ∷ (label_accelerator_id.key, a.id)
      ∷ [] in
    decode_accelerator_stats accelerators (
      add_labeled_int_metric Labeled.metric_accelerator_duty_cycle labels (some a.duty_cycle) (
        add_labeled_int_metric Labeled.metric_accelerator_memory_used labels (some a.memory_used) (
          add_labeled_int_metric Labeled.metric_accelerator_memory_total labels
            (some a.memory_total) ms)))

unfoldable pub decode_network_stats : Option NetworkStats → MetricSet → MetricSet
decode_network_stats none ms = ms
decode_network_stats (some network) ms =
    add_int_metric Standard.metric_network_tx_errors network.tx_errors (
      add_int_metric Standard.metric_network_tx network.tx_bytes (
        add_int_metric Standard.metric_network_rx_errors network.rx_errors
          (add_int_metric Standard.metric_network_rx network.rx_bytes ms)))

unfoldable pub decode_fs_stats : String → Option FsStats → MetricSet → MetricSet
decode_fs_stats fs_key none ms = ms
decode_fs_stats fs_key (some fs) ms =
    let labels = (label_resource_id.key, fs_key) ∷ [] in
    add_labeled_int_metric Labeled.metric_filesystem_inodes_free labels fs.inodes_free (
      add_labeled_int_metric Labeled.metric_filesystem_inodes labels fs.inodes (
        add_labeled_int_metric Labeled.metric_filesystem_available labels fs.available_bytes (
          add_labeled_int_metric Labeled.metric_filesystem_limit labels fs.capacity_bytes
            (add_labeled_int_metric Labeled.metric_filesystem_usage labels fs.used_bytes ms))))

-- The type of a user-defined metric, if it is known.
abbrev pub user_metric_type : String → Option MetricType
user_metric_type t =
    if str_eq t "gauge"
    then some gauge
    else if str_eq t "cumulative"
    then some cumulative
    else if str_eq t "delta"
    then some delta
    else none

abbrev pub add_user_metric : UserDefinedMetric → Option MetricType → MetricSet → MetricSet
add_user_metric metric none ms = ms
add_user_metric metric (some t) ms = record ms {
  metric_values =
      insert (concat ("custom/" ∷ metric.name ∷ []))
        (record {
          int_value = 0;
          float_value = metric.value;
          metric_type = t;
          value_type = float_type;
        })
        ms.metric_values;
}

unfoldable pub decode_user_defined_metrics : List UserDefinedMetric → MetricSet → MetricSet
decode_user_defined_metrics [] ms = ms
decode_user_defined_metrics (metric ∷ udm) ms =
    decode_user_defined_metrics udm
      (add_user_metric metric (user_metric_type metric.metric_type) ms)

abbrev cpu_time : Option CpuStats → Time
cpu_time none = zero_time
cpu_time (some cpu) = cpu.time

abbrev memory_time : Option MemoryStats → Time
memory_time none = zero_time
memory_time (some memory) = memory.time

abbrev network_time : Option NetworkStats → Time
network_time none = zero_time
network_time (some network) = network.time

-- The first of the three times that is there and is not zero.
unfoldable pub get_scrape_time : Option CpuStats → Option MemoryStats → Option NetworkStats → Time
get_scrape_time cpu memory network =
    if not (is_zero (cpu_time cpu))
    then cpu_time cpu
    else if not (is_zero (memory_time memory))
    then memory_time memory
    else network_time network
