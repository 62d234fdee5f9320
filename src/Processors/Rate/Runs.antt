-- ===== src/Processors/Rate/Runs.antt =====
-- metrics/processors/rate_calculator.go: `Process` over any run of batches. The calculator keeps the
-- batches with their rates, and the rates are those of the batches as they came.
use heapster.Common.{String, List, [], ◌∷◌, Option, none, some, if◌then◌else◌, ltb, ◌≡◌}
use heapster.Common.Dict.{Dict, lookup, or_else}
use heapster.Common.Int64.{FloatOps}
use heapster.Common.Time.{Time}
use heapster.Core.Metrics.Defs.{Metric}
use heapster.Core.Values.{MetricSet, DataBatch}
use heapster.Processors.Rate.{RateCalculator, rate_process}
use heapster.Processors.Rate.Values.{IsMapping}
use heapster.Processors.Rate.Batches.{rated, rate_from}
use heapster.Processors.Rate.Kept.{KeepsSet, KeepsBatch}

-- The batch that counts after another one has come: it is taken if it is later.
abbrev pub newest : Option DataBatch → DataBatch → DataBatch
newest none batch = batch
newest (some last) batch = if ltb last.timestamp batch.timestamp then batch else last

abbrev pub newest_of : Option DataBatch → List DataBatch → Option DataBatch
newest_of last [] = last
newest_of last (batch ∷ batches) = newest_of (some (newest last batch)) batches

-- The set that rates are taken against at a time.
abbrev pub earlier_set : Option DataBatch → Time → String → Option MetricSet
earlier_set none t key = none
earlier_set (some last) t key = if ltb last.timestamp t then lookup key last.metric_sets else none

-- A set whose values are its rates against another one, or what they were.
abbrev pub RatedAgainst :
    FloatOps → Dict Metric → Option MetricSet → Option MetricSet → Option MetricSet → Type 0
RatedAgainst f mapping old none rated = rated ≡ none
RatedAgainst f mapping old (some ms) rated =
    (ms' : MetricSet) × (rated ≡ some ms')
    × ((n : String)
        → lookup n ms'.metric_values
          ≡ or_else (rate_from f mapping old ms n) (lookup n ms.metric_values))

-- What the other processors do to the batch that the calculator keeps, whose sets they share with it.
abbrev pub change_kept : (DataBatch → DataBatch) → RateCalculator → RateCalculator
change_kept change c = record c {
  previous_batch = elim c.previous_batch [ none ↦ none | some b ↦ some (change b) ];
}

-- A change that leaves alone the time of a batch, the times of its sets, and the metrics that rates
-- are taken from.
abbrev pub IsHarmless : Dict Metric → (DataBatch → DataBatch) → Type 0
IsHarmless mapping change =
    (b : DataBatch)
    → ((change b).timestamp ≡ b.timestamp)
      × ((key : String)
          → KeepsSet mapping (lookup key b.metric_sets) (lookup key (change b).metric_sets))

-- The calculator after a run of batches, each with the change that follows it.
abbrev pub process_all :
    FloatOps → RateCalculator → List (DataBatch × (DataBatch → DataBatch)) → RateCalculator
process_all f c [] = c
process_all f c ((batch, change) ∷ rest) =
    process_all f (change_kept change (rate_process f c batch).1) rest

module _ (f : FloatOps) (mapping : Dict Metric) (m : IsMapping mapping) where
  -- What one call keeps and returns.
  abbrev Stepped : Option DataBatch → DataBatch → DataBatch × RateCalculator → Type 0
  Stepped last batch result =
      (result.1.rate_metrics_mapping ≡ mapping)
      × KeepsBatch mapping (some (newest last batch)) result.1.previous_batch
      × ((key : String)
          → RatedAgainst f mapping (earlier_set last batch.timestamp key)
              (lookup key batch.metric_sets) (lookup key result.0.metric_sets))
