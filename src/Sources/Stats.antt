-- ===== src/Sources/Stats.antt =====
-- What metrics/sources/summary/summary.go reads of the kubelet's `stats.Summary`, whose types are
-- those of the vendored package k8s.io/kubernetes/pkg/kubelet/apis/stats/v1alpha1. A pointer is an
-- Option, an unsigned number a plain one.
use heapster.Common.{ℕ, String, List, Option}
use heapster.Common.Int64.{Float64}
use heapster.Common.Time.{Time}

pub record CpuStats : Type 0 where
  pub time : Time
  pub usage_core_nano_seconds : Option ℕ

pub record MemoryStats : Type 0 where
  pub time : Time
  pub usage_bytes : Option ℕ
  pub working_set_bytes : Option ℕ
  pub rss_bytes : Option ℕ
  pub page_faults : Option ℕ
  pub major_page_faults : Option ℕ

pub record NetworkStats : Type 0 where
  pub time : Time
  pub rx_bytes : Option ℕ
  pub rx_errors : Option ℕ
  pub tx_bytes : Option ℕ
  pub tx_errors : Option ℕ

pub record FsStats : Type 0 where
  pub available_bytes : Option ℕ
  pub capacity_bytes : Option ℕ
  pub used_bytes : Option ℕ
  pub inodes_free : Option ℕ
  pub inodes : Option ℕ

pub record AcceleratorStats : Type 0 where
  pub make : String
  pub model : String
  pub id : String
  pub memory_total : ℕ
  pub memory_used : ℕ
  pub duty_cycle : ℕ

pub record UserDefinedMetric : Type 0 where
  pub name : String
  pub metric_type : String
  pub value : Float64

pub record ContainerStats : Type 0 where
  pub name : String
  pub start_time : Time
  pub cpu : Option CpuStats
  pub memory : Option MemoryStats
  pub accelerators : List AcceleratorStats
  pub rootfs : Option FsStats
  pub logs : Option FsStats
  pub user_defined_metrics : List UserDefinedMetric

pub record PodReference : Type 0 where
  pub name : String
  pub namespace : String
  pub uid : String

pub record PodStats : Type 0 where
  pub pod_ref : PodReference
  pub start_time : Time
  pub containers : List ContainerStats
  pub cpu : Option CpuStats
  pub memory : Option MemoryStats
  pub network : Option NetworkStats
  pub volume_stats : List (String × FsStats)
  pub ephemeral_storage : Option FsStats

pub record NodeStats : Type 0 where
  pub node_name : String
  pub system_containers : List ContainerStats
  pub start_time : Time
  pub cpu : Option CpuStats
  pub memory : Option MemoryStats
  pub network : Option NetworkStats
  pub fs : Option FsStats

pub record Summary : Type 0 where
  pub node : NodeStats
  pub pods : List PodStats
