-- ===== src/Core/Metrics/Defs.antt =====
-- metrics/core/metrics.go: the types of a metric, and how the metrics read cAdvisor's structures.
use heapster.Common.{
  ℕ, String, List, [], ◌∷◌, Option, none, some, Bool, leb, if◌then◌else◌, ◌-◌, ◌/◌, str_eq,
}
use Prim.Native.Nat.{min}
use heapster.Common.Dict.{lookup, value_or}
use heapster.Common.Int64.{add64, neg64, two63}
use heapster.Common.Text.{concat, decimal}
use heapster.Common.Time.{Time}
use heapster.Core.Values.{
  MetricType, ValueType, UnitsType, gauge, MetricValue, LabeledMetric, int_metric,
}
use heapster.Core.Labels.{
  LabelDescriptor, label_resource_id, label_accelerator_make, label_accelerator_model,
  label_accelerator_id,
}
use heapster.Core.Cadvisor.{
  ContainerSpec, ContainerStats, InterfaceStats, FsStats, PerDiskStats, AcceleratorStats,
}

pub record MetricDescriptor : Type 0 where
  pub name : String
  pub description : String
  pub labels : List LabelDescriptor
  pub metric_type : MetricType
  pub value_type : ValueType
  pub units : UnitsType

-- The four functions may be nil. Those that read a value are also given the current time, which
-- one of them asks for.
pub record Metric : Type 0 where
  pub descriptor : MetricDescriptor
  pub has_value : Option (ContainerSpec → Bool)
  pub get_value : Option (Time → ContainerSpec → ContainerStats → MetricValue)
  pub has_labeled_metric : Option (ContainerSpec → ContainerStats → Bool)
  pub get_labeled_metric : Option (ContainerSpec → ContainerStats → List LabeledMetric)

abbrev pub plain : MetricDescriptor → Metric
plain d = record {
  descriptor = d;
  has_value = none;
  get_value = none;
  has_labeled_metric = none;
  get_labeled_metric = none;
}

abbrev pub valued :
    MetricDescriptor
    → (ContainerSpec → Bool)
    → (Time → ContainerSpec → ContainerStats → MetricValue)
    → Metric
valued d has get = record (plain d) { has_value = some has; get_value = some get }

abbrev pub labelled :
    MetricDescriptor
    → (ContainerSpec → ContainerStats → Bool)
    → (ContainerSpec → ContainerStats → List LabeledMetric)
    → Metric
labelled d has get = record (plain d) {
  has_labeled_metric = some has;
  get_labeled_metric = some get;
}

-- The loop `for _, s := range stat.Network.Interfaces { acc += s.Field }`.
unfoldable pub total : (InterfaceStats → ℕ) → ℕ → List InterfaceStats → ℕ
total field acc [] = acc
total field acc (i ∷ is) = total field (add64 acc (field i)) is

-- `time.Since(t).Nanoseconds() / time.Millisecond.Nanoseconds()`: `Sub` stops at the ends of
-- `int64`, and the division rounds towards zero.
unfoldable pub milliseconds_since : Time → Time → ℕ
milliseconds_since now t =
    if leb t now then min (now - t) (two63 - 1) / 1000000 else neg64 (min (t - now) two63 / 1000000)

abbrev resource_metric : String → String → ℕ → LabeledMetric
resource_metric name id n = record {
  name = name;
  labels = (label_resource_id.key, id) ∷ [];
  value = int_metric gauge n;
}

-- One value for each filesystem.
unfoldable pub filesystem_metrics : String → (FsStats → ℕ) → List FsStats → List LabeledMetric
filesystem_metrics name field [] = []
filesystem_metrics name field (fs ∷ rest) =
    resource_metric name fs.device (field fs) ∷ filesystem_metrics name field rest

-- One value for each filesystem that has inodes.
unfoldable pub inode_metrics : String → (FsStats → ℕ) → List FsStats → List LabeledMetric
inode_metrics name field [] = []
inode_metrics name field (fs ∷ rest) =
    let more = inode_metrics name field rest in
    if fs.has_inodes then resource_metric name fs.device (field fs) ∷ more else more

unfoldable pub accelerator_metrics :
    String → (AcceleratorStats → ℕ) → List AcceleratorStats → List LabeledMetric
accelerator_metrics name field [] = []
accelerator_metrics name field (ac ∷ rest) =
    record {
      name = name;
      labels =
          (label_accelerator_make.key, ac.make)
          ∷ (label_accelerator_model.key, ac.model)
          ∷ (label_accelerator_id.key, ac.id)
          ∷ [];
      value = int_metric gauge (field ac);
    }
    ∷ accelerator_metrics name field rest

-- The name of a disk: its device, or its numbers where the device is not known.
unfoldable pub disk_resource_id : PerDiskStats → String
disk_resource_id d =
    if str_eq d.device "" then concat (decimal d.major ∷ ":" ∷ decimal d.minor ∷ []) else d.device

-- One value for each disk; a kind of traffic that was not counted reads 0.
unfoldable pub disk_metrics : String → String → List PerDiskStats → List LabeledMetric
disk_metrics name kind [] = []
disk_metrics name kind (d ∷ rest) =
    resource_metric name (disk_resource_id d) (value_or 0 (lookup kind d.stats))
    ∷ disk_metrics name kind rest
