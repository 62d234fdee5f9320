-- ===== src/Processors/Rate/Batches.antt =====
-- metrics/processors/rate_calculator.go: `Process` on whole batches, with Heapster's own mapping.
use heapster.Common.{
  ◌&&◌, ◌*◌, ◌-◌, ◌/◌, ◌≤◌, ◌<◌, String, [], ◌∷◌, Option, none, some, Bool, true, false,
  if◌then◌else◌, ◌==◌, ltb, ◌≡◌, refl, arith, str_eq, str_eq_iff, inl, inr, Bool-cases,
}
use heapster.Common.Dict.{Dict, lookup, or_else}
use heapster.Common.Int64.{FloatOps, two64, two63}
use heapster.Common.Time.{after}
use heapster.Core.Metrics.Standard.{metric_cpu_usage}
use heapster.Core.Metrics.Derived.{metric_cpu_usage_rate}
use heapster.Core.Metrics.Tables.{rate_metrics_mapping}
use heapster.Core.Metrics.Defs.{Metric}
use heapster.Core.Values.{MetricValue, MetricSet, DataBatch, gauge, int_metric}
use heapster.Processors.Rate.{RateCalculator, rate_set, rate_sets, rates, rate_value, rate_process}
use heapster.Processors.Rate.Values.{IsMapping, lookup-rates, cpu_rate_exact, rate_for}

abbrev pub rated : FloatOps → Dict Metric → Option MetricSet → Option MetricSet → Option MetricSet
rated f mapping old none = none
rated f mapping old (some ms) = some (rate_set f mapping old ms)

pub lookup-rate_sets :
    (f : FloatOps) (mapping : Dict Metric) (previous sets : Dict MetricSet) (key : String)
    → (lookup key (rate_sets f mapping previous sets)
        ≡ rated f mapping (lookup key previous) (lookup key sets))
unfolding lookup rate_sets
lookup-rate_sets f mapping previous [] key = refl
lookup-rate_sets f mapping previous ((k, ms) ∷ sets) key = elim (Bool-cases (str_eq k key)) [
  | inl q ↦ rw (q, (str_eq_iff k key).0 q)
  | inr q ↦ rw q (lookup-rate_sets f mapping previous sets key)
]

abbrev pub rated_batch : FloatOps → RateCalculator → DataBatch → DataBatch → DataBatch
rated_batch f c batch previous = record batch {
  metric_sets = rate_sets f c.rate_metrics_mapping previous.metric_sets batch.metric_sets;
}

pub rate_process-later :
    (f : FloatOps) (c : RateCalculator) (batch previous : DataBatch)
    → c.previous_batch ≡ some previous
    → after batch.timestamp previous.timestamp ≡ true
    → rate_process f c batch ≡ (
      rated_batch f c batch previous,
      record c { previous_batch = some (rated_batch f c batch previous) },
    )
unfolding rate_process
rate_process-later f c batch previous e q = rw (e, rate_process) (rw q)

pub rate_process-stale :
    (f : FloatOps) (c : RateCalculator) (batch previous : DataBatch)
    → c.previous_batch ≡ some previous
    → after batch.timestamp previous.timestamp ≡ false
    → rate_process f c batch ≡ (batch, c)
unfolding rate_process
rate_process-stale f c batch previous e q = rw (e, rate_process) (rw q)

pub rate_process-first :
    (f : FloatOps) (c : RateCalculator) (batch : DataBatch)
    → c.previous_batch ≡ none
    → rate_process f c batch ≡ (batch, record c { previous_batch = some batch })
unfolding rate_process
rate_process-first f c batch e = rw (e, rate_process)

-- Heapster's mapping meets the condition.
pub rate_metrics_mapping-IsMapping : IsMapping rate_metrics_mapping
rate_metrics_mapping-IsMapping = (
  (refl, (refl, (refl, (refl, (refl, (refl, (refl, (refl, (refl, tt))))))))),
  (refl, (refl, (refl, (refl, (refl, (refl, (refl, (refl, (refl, tt))))))))),
)

-- Rates are taken against a set that was scraped before and began collecting at the same time.
abbrev pub follows : MetricSet → MetricSet → Bool
follows new_ms old_ms =
    ltb old_ms.scrape_time new_ms.scrape_time
    && new_ms.collection_start_time == old_ms.collection_start_time

abbrev pub rate_from :
    FloatOps → Dict Metric → Option MetricSet → MetricSet → String → Option MetricValue
rate_from f mapping none new_ms n = none
rate_from f mapping (some old_ms) new_ms n =
    if follows new_ms old_ms then rate_for f old_ms new_ms mapping n else none

-- Every metric of a set afterwards is its rate, or what it was. There is a rate only where the set
-- was scraped after its predecessor and began collecting at the same time: it is taken from the
-- values that the two sets had at the start. The mapping gives no two metrics one target, and takes
-- no rate from a rate.
pub lookup-rate_set :
    (f : FloatOps) (mapping : Dict Metric) (old : Option MetricSet) (new_ms : MetricSet)
    (n : String)
    → IsMapping mapping
    → lookup n (rate_set f mapping old new_ms).metric_values
      ≡ or_else (rate_from f mapping old new_ms n) (lookup n new_ms.metric_values)
unfolding rate_set
lookup-rate_set f mapping none new_ms n h = refl
lookup-rate_set f mapping (some old_ms) new_ms n h =
    ground (arith, lookup-rates f old_ms mapping new_ms n h)

module _ (f : FloatOps) (old_ms new_ms : MetricSet) where
  -- With Heapster's mapping, the CPU rate of a set that follows its predecessor is the growth of
  -- the CPU counter in millicores. Both sets have the counter, they began collecting at the same
  -- time, the new one was scraped after the old one, the counter did not fall, and its growth times
  -- 1000 and the time between the scrapes fit an `int64`.
  pub cpu_usage_rate_lem :
      (new old : MetricValue)
      → lookup metric_cpu_usage.descriptor.name new_ms.metric_values ≡ some new
      → lookup metric_cpu_usage.descriptor.name old_ms.metric_values ≡ some old
      → new_ms.collection_start_time ≡ old_ms.collection_start_time
      → old_ms.scrape_time < new_ms.scrape_time
      → new_ms.scrape_time - old_ms.scrape_time < two63
      → old.int_value ≤ new.int_value
      → new.int_value < two64
      → 1000 * (new.int_value - old.int_value) < two63
      → lookup metric_cpu_usage_rate.descriptor.name
          (rate_set f rate_metrics_mapping (some old_ms) new_ms).metric_values
        ≡ some (
            int_metric gauge
              (1000 * (new.int_value - old.int_value) / (new_ms.scrape_time - old_ms.scrape_time)))
  unfolding rate_set rate_value
  cpu_usage_rate_lem new old hn ho start later small grew fits fine =
      let name = metric_cpu_usage_rate.descriptor.name in
      let goes : rate_set f rate_metrics_mapping (some old_ms) new_ms
          ≡ rates f old_ms rate_metrics_mapping new_ms =
        ground arith in
      let look =
        lookup-rates f old_ms rate_metrics_mapping new_ms name rate_metrics_mapping-IsMapping in
      rw (goes, look, hn, ho)
        (rw (
          cpu_rate_exact new.int_value old.int_value new_ms.scrape_time old_ms.scrape_time grew fine
            fits later small))
