-- ===== src/Core/Cadvisor.antt =====
-- What metrics/core/metrics.go reads of cAdvisor's `ContainerSpec` and `ContainerStats`, types of
-- the vendored package github.com/google/cadvisor/info/v1. Unsigned numbers are plain numbers.
use heapster.Common.{ℕ, String, List, Bool}
use heapster.Common.Dict.{Dict}
use heapster.Common.Time.{Time}

pub record ContainerSpec : Type 0 where
  pub creation_time : Time
  pub has_cpu : Bool
  pub has_memory : Bool
  pub has_network : Bool
  pub has_filesystem : Bool
  pub has_disk_io : Bool

pub record InterfaceStats : Type 0 where
  pub rx_bytes : ℕ
  pub rx_errors : ℕ
  pub tx_bytes : ℕ
  pub tx_errors : ℕ

pub record FsStats : Type 0 where
  pub device : String
  pub usage : ℕ
  pub limit : ℕ
  pub available : ℕ
  pub has_inodes : Bool
  pub inodes : ℕ
  pub inodes_free : ℕ

pub record PerDiskStats : Type 0 where
  pub device : String
  pub major : ℕ
  pub minor : ℕ
  pub stats : Dict ℕ

pub record AcceleratorStats : Type 0 where
  pub make : String
  pub model : String
  pub id : String
  pub memory_total : ℕ
  pub memory_used : ℕ
  pub duty_cycle : ℕ

pub record ContainerStats : Type 0 where
  pub load_average : ℕ  -- int32, by its bit pattern
  pub cpu_usage_total : ℕ
  pub memory_usage : ℕ
  pub memory_cache : ℕ
  pub memory_rss : ℕ
  pub memory_working_set : ℕ
  pub pgfault : ℕ
  pub pgmajfault : ℕ
  pub interfaces : List InterfaceStats
  pub filesystem : List FsStats
  pub io_service_bytes : List PerDiskStats
  pub accelerators : List AcceleratorStats
