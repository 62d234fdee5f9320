-- ===== src/Processors/Rate/Kept.antt =====
-- metrics/processors/rate_calculator.go: what a batch keeps of itself when it is given its rates.
use heapster.Common.{
  String, List, [], ◌∷◌, Option, none, some, true, false, Bool-cases, inl, inr, if◌then◌else◌, ◌≡◌,
  refl, sym, ap, subst, ◌∙◌, arith, str_eq, str_eq_iff, contains, All,
}
use heapster.Common.Dict.{Dict, lookup, keys}
use heapster.Common.Int64.{FloatOps}
use heapster.Core.Metrics.Defs.{Metric}
use heapster.Core.Values.{MetricValue, MetricSet, DataBatch}
use heapster.Processors.Rate.{
  rate_set, rates, rate_step, rate_of, rate_value, put_value, is_disk_io, both,
}
use heapster.Processors.Rate.Values.{IsMapping, rate_for, target_names, rate_for-none}
use heapster.Processors.Rate.Batches.{follows, rate_from, lookup-rate_set}

-- A set that is kept with its rates: its times, and every value that a rate is taken from, are those
-- that it came with.
abbrev pub Keeps : Dict Metric → MetricSet → MetricSet → Type 0
Keeps mapping raw kept =
    (kept.scrape_time ≡ raw.scrape_time)
    × (kept.collection_start_time ≡ raw.collection_start_time)
    × ((n : String)
        → contains (keys mapping) n ≡ true
        → lookup n kept.metric_values ≡ lookup n raw.metric_values)

abbrev pub KeepsSet : Dict Metric → Option MetricSet → Option MetricSet → Type 0
KeepsSet mapping none kept = kept ≡ none
KeepsSet mapping (some raw) kept = (ms : MetricSet) × (kept ≡ some ms) × Keeps mapping raw ms

abbrev pub KeepsBatch : Dict Metric → Option DataBatch → Option DataBatch → Type 0
KeepsBatch mapping none kept = kept ≡ none
KeepsBatch mapping (some raw) kept =
    (b : DataBatch) × (kept ≡ some b)
    × (b.timestamp ≡ raw.timestamp)
    × ((key : String) → KeepsSet mapping (lookup key raw.metric_sets) (lookup key b.metric_sets))

-- A metric that rates are taken from is no rate.
no_target :
    (ks ts : List String) (n : String)
    → contains ks n ≡ true
    → All (λ t. contains ks t ≡ false) ts
    → contains ts n ≡ false
no_target ks [] n h a = refl
no_target ks (t ∷ ts) n h a = elim (Bool-cases (str_eq t n)) [
  | inr q ↦ rw q (no_target ks ts n h a.1)
  | inl q ↦
      let e = ap (contains ks) ((str_eq_iff t n).0 q) in
      let clash : true ≡ false = sym h ∙ sym e ∙ a.0 in absurd (ground (arith, clash))
]

pub KeepsSet-trans :
    (mapping : Dict Metric) (a b c : Option MetricSet)
    → KeepsSet mapping a b
    → KeepsSet mapping b c
    → KeepsSet mapping a c
KeepsSet-trans mapping none b c e k = rw e at k
KeepsSet-trans mapping (some raw) b c (ms, e, (time, start, look)) k =
    let (ms', e', (time', start', look')) = subst (λ o. KeepsSet mapping o c) e k in
    (ms', e', (time' ∙ time, start' ∙ start, λ n h. look' n h ∙ look n h))

module _ (f : FloatOps) where
  times-put_value :
      (name : String) (o : Option MetricValue) (ms : MetricSet)
      → ((put_value name o ms).scrape_time ≡ ms.scrape_time)
        × ((put_value name o ms).collection_start_time ≡ ms.collection_start_time)
  times-put_value name none ms = (refl, refl)
  times-put_value name (some v) ms = (refl, refl)

  times-rate_step :
      (old_ms ms : MetricSet) (name : String) (target : Metric)
      → ((rate_step f old_ms name target ms).scrape_time ≡ ms.scrape_time)
        × ((rate_step f old_ms name target ms).collection_start_time ≡ ms.collection_start_time)
  unfolding rate_step
  times-rate_step old_ms ms name target = elim (Bool-cases (is_disk_io name)) [
    | inl d ↦ rw d (refl, refl)
    | inr d ↦ rw d (times-put_value target.descriptor.name _ ms)
  ]

  times-rates :
      (old_ms : MetricSet) (mapping : Dict Metric) (ms : MetricSet)
      → ((rates f old_ms mapping ms).scrape_time ≡ ms.scrape_time)
        × ((rates f old_ms mapping ms).collection_start_time ≡ ms.collection_start_time)
  unfolding rates
  times-rates old_ms [] ms = (refl, refl)
  times-rates old_ms ((name, target) ∷ mapping) ms =
      let step = times-rate_step old_ms ms name target in
      let rest = times-rates old_ms mapping (rate_step f old_ms name target ms) in
      (rest.0 ∙ step.0, rest.1 ∙ step.1)

  rate_set-follows :
      (mapping : Dict Metric) (old_ms ms : MetricSet)
      → rate_set f mapping (some old_ms) ms
        ≡ (if follows ms old_ms then rates f old_ms mapping ms else ms)
  unfolding rate_set
  rate_set-follows mapping old_ms ms = ground arith

  times-rate_set :
      (mapping : Dict Metric) (old : Option MetricSet) (ms : MetricSet)
      → ((rate_set f mapping old ms).scrape_time ≡ ms.scrape_time)
        × ((rate_set f mapping old ms).collection_start_time ≡ ms.collection_start_time)
  unfolding rate_set
  times-rate_set mapping none ms = (refl, refl)
  times-rate_set mapping (some old_ms) ms =
      rw (rate_set-follows mapping old_ms ms) (elim (Bool-cases (follows ms old_ms)) [
        | inl q ↦ rw q (times-rates old_ms mapping ms)
        | inr q ↦ rw q (refl, refl)
      ])

  rate_from-none :
      (mapping : Dict Metric) (old : Option MetricSet) (ms : MetricSet) (n : String)
      → contains (target_names mapping) n ≡ false
      → rate_from f mapping old ms n ≡ none
  rate_from-none mapping none ms n h = refl
  rate_from-none mapping (some old_ms) ms n h =
      rw (rate_for-none f old_ms ms mapping n h) (ground arith)

  -- A set keeps its times and the values that rates are taken from when it is given its rates.
  pub Keeps-rate_set :
      (mapping : Dict Metric) (old : Option MetricSet) (ms : MetricSet)
      → IsMapping mapping
      → Keeps mapping ms (rate_set f mapping old ms)
  Keeps-rate_set mapping old ms h = (
    (times-rate_set mapping old ms).0,
    (times-rate_set mapping old ms).1,
    λ n k.
        lookup-rate_set f mapping old ms n h
        ∙ rw (
            rate_from-none mapping old ms n
              (no_target (keys mapping) (target_names mapping) n k h.1)),
  )

  rate_of-kept :
      (raw kept ms : MetricSet) (name : String) (target : Metric)
      (o : Option (MetricValue × MetricValue))
      → kept.scrape_time ≡ raw.scrape_time
      → rate_of f name target ms kept o ≡ rate_of f name target ms raw o
  unfolding rate_value
  rate_of-kept raw kept ms name target none e = refl
  rate_of-kept raw kept ms name target (some (x, y)) e = rw e

  rate_for-kept :
      (mapping : Dict Metric) (raw kept ms : MetricSet) (n : String)
      → kept.scrape_time ≡ raw.scrape_time
      → ((k : String)
          → contains (keys mapping) k ≡ true
          → lookup k kept.metric_values ≡ lookup k raw.metric_values)
      → rate_for f kept ms mapping n ≡ rate_for f raw ms mapping n
  rate_for-kept [] raw kept ms n e look = refl
  rate_for-kept ((name, target) ∷ mapping) raw kept ms n e look =
      let rest = rate_for-kept mapping raw kept ms n e (λ k h. look k (ground (arith, h))) in
      let both_values = both (lookup name ms.metric_values) (lookup name raw.metric_values) in
      rw (rest, look name (ground (arith, str_eq_iff name name)))
        (rw (rate_of-kept raw kept ms name target both_values e) refl)

  -- Rates against a set that is kept with its rates are those against the set as it came.
  pub rate_from-kept :
      (mapping : Dict Metric) (raw kept : Option MetricSet) (ms : MetricSet) (n : String)
      → KeepsSet mapping raw kept
      → rate_from f mapping kept ms n ≡ rate_from f mapping raw ms n
  rate_from-kept mapping none kept ms n e = rw e
  rate_from-kept mapping (some raw) kept ms n (old_ms, e, (time, start, look)) =
      rw (e, rate_for-kept mapping raw old_ms ms n time look, time, start) refl
