-- ===== src/Processors/Rate.antt =====
-- metrics/processors/rate_calculator.go: rates from the cumulative metrics of two batches. The
-- calculator keeps the last batch that it was given in order.
pub mod Values
pub mod Batches
pub mod Kept
pub mod Runs
use heapster.Common.{
  ℕ, String, List, [], ◌∷◌, ◌++◌, Option, none, some, Bool, not, ◌&&◌, ◌||◌, if◌then◌else◌, str_eq,
  ◌==◌,
}
use heapster.Common.Dict.{Dict, lookup, insert, value_or}
use heapster.Common.Int64.{Float64, FloatOps, sub64, mul64, div64}
use heapster.Common.Time.{after, unix_nano}
use heapster.Core.Labels.{label_resource_id}
use heapster.Core.Metrics.Defs.{Metric}
use heapster.Core.Metrics.Standard.{metric_cpu_usage}
use heapster.Core.Metrics.Labeled.{metric_disk_io_read, metric_disk_io_write}
use heapster.Core.Values.{
  MetricValue, LabeledMetric, MetricSet, DataBatch, gauge, float_type, int_metric, float_gauge,
  value_type_eq,
}

-- The nanoseconds between the scrapes of two sets.
abbrev pub scrape_delta : MetricSet → MetricSet → ℕ
scrape_delta new_ms old_ms = sub64 (unix_nano new_ms.scrape_time) (unix_nano old_ms.scrape_time)

-- `1e9 * float64(new - old) / float64(delta)`; `giga` is the constant 1e9.
unfoldable pub float_rate : FloatOps → ℕ → ℕ → ℕ → Float64
float_rate f new old delta =
    f.fdiv (f.fmul (f.of_int64 1000000000) (f.of_int64 (sub64 new old))) (f.of_int64 delta)

-- `1000 * (new - old) / delta`: nanoseconds of CPU to millicores.
unfoldable pub cpu_rate : ℕ → ℕ → ℕ → ℕ
cpu_rate new old delta = div64 (mul64 1000 (sub64 new old)) delta

abbrev pub resource_of : LabeledMetric → String
resource_of m = value_or "" (lookup label_resource_id.key m.labels)

-- The inner loop: the first old item with the name and the resource.
unfoldable pub find_old : String → LabeledMetric → List LabeledMetric → Option MetricValue
find_old name item_new [] = none
find_old name item_new (item_old ∷ rest) =
    if str_eq item_old.name name && str_eq (resource_of item_old) (resource_of item_new)
    then some item_old.value
    else find_old name item_new rest

-- One round over the labeled metrics of the new set: the rates to append.
unfoldable pub labeled_rate :
    FloatOps → String → Metric → MetricSet → MetricSet → LabeledMetric → List LabeledMetric
labeled_rate f name target new_ms old_ms item_new =
    if not (str_eq item_new.name name)
    then []
    else elim (find_old name item_new old_ms.labeled_metrics) [
      | none ↦ []
      | some old ↦
          if value_type_eq target.descriptor.value_type float_type
          then record {
            name = target.descriptor.name;
            labels = item_new.labels;
            value =
                float_gauge (
                  float_rate f item_new.value.int_value old.int_value (scrape_delta new_ms old_ms));
          }
            ∷ []
          else []
    ]

-- `range` goes over the items that the set has when the loop begins.
unfoldable pub labeled_rates :
    FloatOps → String → Metric → MetricSet → MetricSet → List LabeledMetric → List LabeledMetric
labeled_rates f name target new_ms old_ms [] = []
labeled_rates f name target new_ms old_ms (item ∷ rest) =
    labeled_rate f name target new_ms old_ms item ++ labeled_rates f name target new_ms old_ms rest

-- The value of a rate whose metric both sets have.
unfoldable pub rate_value :
    FloatOps
    → String
    → Metric
    → MetricSet
    → MetricSet
    → MetricValue
    → MetricValue
    → Option MetricValue
rate_value f name target new_ms old_ms new old =
    if str_eq name metric_cpu_usage.descriptor.name
    then some (int_metric gauge (cpu_rate new.int_value old.int_value (scrape_delta new_ms old_ms)))
    else if value_type_eq target.descriptor.value_type float_type
    then some (float_gauge (float_rate f new.int_value old.int_value (scrape_delta new_ms old_ms)))
    else none

abbrev pub both : Option MetricValue → Option MetricValue → Option (MetricValue × MetricValue)
both (some new) (some old) = some (new, old)
both _ _ = none

abbrev pub put_value : String → Option MetricValue → MetricSet → MetricSet
put_value name none ms = ms
put_value name (some v) ms = record ms { metric_values = insert name v ms.metric_values }

abbrev pub is_disk_io : String → Bool
is_disk_io name =
    str_eq name metric_disk_io_read.descriptor.name
    || str_eq name metric_disk_io_write.descriptor.name

abbrev rate_of :
    FloatOps
    → String
    → Metric
    → MetricSet
    → MetricSet
    → Option (MetricValue × MetricValue)
    → Option MetricValue
rate_of f name target new_ms old_ms none = none
rate_of f name target new_ms old_ms (some (new, old)) =
    rate_value f name target new_ms old_ms new old

-- One round over the mapping: the new set with the rate of one metric, if it can be taken.
unfoldable pub rate_step : FloatOps → MetricSet → String → Metric → MetricSet → MetricSet
rate_step f old_ms name target new_ms =
    if is_disk_io name
    then record new_ms {
      labeled_metrics =
          new_ms.labeled_metrics
          ++ labeled_rates f name target new_ms old_ms new_ms.labeled_metrics;
    }
    else put_value target.descriptor.name
        (rate_of f name target new_ms old_ms
          (both (lookup name new_ms.metric_values) (lookup name old_ms.metric_values)))
        new_ms

unfoldable pub rates : FloatOps → MetricSet → Dict Metric → MetricSet → MetricSet
rates f old_ms [] new_ms = new_ms
rates f old_ms ((name, target) ∷ mapping) new_ms =
    rates f old_ms mapping (rate_step f old_ms name target new_ms)

-- The body of the loop over the batch: what stands before the inner loop skips the set.
unfoldable pub rate_set : FloatOps → Dict Metric → Option MetricSet → MetricSet → MetricSet
rate_set f mapping none new_ms = new_ms
rate_set f mapping (some old_ms) new_ms =
    if not (after new_ms.scrape_time old_ms.scrape_time)
    then new_ms
    else if not (new_ms.collection_start_time == old_ms.collection_start_time)
    then new_ms
    else rates f old_ms mapping new_ms

unfoldable pub rate_sets : FloatOps → Dict Metric → Dict MetricSet → Dict MetricSet → Dict MetricSet
rate_sets f mapping previous [] = []
rate_sets f mapping previous ((key, ms) ∷ rest) =
    (key, rate_set f mapping (lookup key previous) ms) ∷ rate_sets f mapping previous rest

pub record RateCalculator : Type 0 where
  pub rate_metrics_mapping : Dict Metric
  pub previous_batch : Option DataBatch

unfoldable pub new_rate_calculator : Dict Metric → RateCalculator
new_rate_calculator metrics = record { rate_metrics_mapping = metrics; previous_batch = none }

rate_against : FloatOps → RateCalculator → DataBatch → Option DataBatch → DataBatch × RateCalculator
rate_against f c batch none = (batch, record c { previous_batch = some batch })
rate_against f c batch (some previous) =
    let batch' = record batch {
      metric_sets = rate_sets f c.rate_metrics_mapping previous.metric_sets batch.metric_sets;
    } in
    if not (after batch.timestamp previous.timestamp)
    then (batch, c)
    else (batch', record c { previous_batch = some batch' })

-- `RateCalculator.Process`, which never fails: the batch, and the calculator afterwards.
unfoldable pub rate_process : FloatOps → RateCalculator → DataBatch → DataBatch × RateCalculator
unfolding rate_against
rate_process f c batch = rate_against f c batch c.previous_batch
