-- ===== src/Sinks/Metric/LabeledSeries.antt =====
-- metrics/sinks/metric/metric_sink.go: `GetLabeledMetric` against the labeled metrics that a key has
-- in the short store.
use heapster.Common.{
  Option, Option-cases, none, Bool, all, ◌&&◌, ◌==◌, length, some, String, List, [], ◌∷◌, ◌++◌,
  true, false, Bool-cases, inl, inr, if◌then◌else◌, str_eq, str_eq_iff, contains, Distinct, ◌≡◌,
  refl, ◌∙◌, arith,
}
use mathlib.Core.List.{append-nil, append_assoc}
use heapster.Common.Dict.{Dict, lookup}
use heapster.Common.Time.{Time}
use heapster.Core.Values.{LabeledMetric, MetricSet, DataBatch}
use heapster.Sinks.Metric.{
  MetricSink, TimestampedMetricValue, Series, append_point, labels_match, is_match,
  collect_labeled_set, labeled_of, collect_labeled_keys, collect_labeled, get_labeled_metric,
}
use heapster.Sinks.Metric.Series.{points_at, points-append_found, between, in_range-between}

-- A labeled metric is asked for where it has the name, as many labels as are asked for, and each of
-- these with its value.
abbrev pub is_text : String → Option String → Bool
is_text text none = false
is_text text (some t) = str_eq t text

abbrev pub is_asked_for : String → Dict String → LabeledMetric → Bool
is_asked_for name labels m =
    str_eq m.name name
    && (length m.labels == length labels && all (λ e. is_text e.1 (lookup e.0 m.labels)) labels)

labels_match-all :
    (labels have : Dict String)
    → labels_match labels have ≡ all (λ e. is_text e.1 (lookup e.0 have)) labels
unfolding labels_match
labels_match-all [] have = refl
labels_match-all ((k, v) ∷ labels) have = elim (Option-cases (lookup k have)) [
  | inl e ↦ rw e
  | inr (w, e) ↦ rw (e, labels_match-all labels have)
]

is_match-is_asked_for :
    (name : String) (labels : Dict String) (m : LabeledMetric)
    → is_match name labels m ≡ is_asked_for name labels m
unfolding is_match
is_match-is_asked_for name labels m = rw (labels_match-all labels m.labels)

-- The points that the labeled metrics of one set give.
abbrev pub matching : String → Dict String → Time → List LabeledMetric → List TimestampedMetricValue
matching name labels t [] = []
matching name labels t (m ∷ ms) =
    let rest = matching name labels t ms in
    if is_asked_for name labels m then record { value = m.value; timestamp = t } ∷ rest else rest

abbrev pub metrics_of : Option MetricSet → List LabeledMetric
metrics_of none = []
metrics_of (some ms) = ms.labeled_metrics

labeled_of-metrics_of : (o : Option MetricSet) → labeled_of o ≡ metrics_of o
labeled_of-metrics_of none = refl
labeled_of-metrics_of (some ms) = refl

-- The points of one key in the short store.
abbrev pub labeled_points :
    String → Dict String → String → Time → Time → List DataBatch → List TimestampedMetricValue
labeled_points name labels key start end [] = []
labeled_points name labels key start end (b ∷ batches) =
    let rest = labeled_points name labels key start end batches in
    if between start end b.timestamp
    then matching name labels b.timestamp (metrics_of (lookup key b.metric_sets)) ++ rest
    else rest

module _ (name : String) (labels : Dict String) (key : String) where
  points-labeled_set :
      (j : String) (t : Time) (ms : List LabeledMetric) (result : Series)
      → points_at key (collect_labeled_set name labels j t ms result)
        ≡ points_at key result ++ (if str_eq j key then matching name labels t ms else [])
  unfolding collect_labeled_set
  points-labeled_set j t [] result = elim (Bool-cases (str_eq j key)) [
    | inl q ↦ rw (q, append-nil)
    | inr q ↦ rw (q, append-nil)
  ]
  points-labeled_set j t (m ∷ ms) result =
      let same = is_match-is_asked_for name labels m in
      elim (Bool-cases (is_asked_for name labels m)) [
        | inr q ↦ rw (same, q) (points-labeled_set j t ms result)
        | inl q ↦
            let p : TimestampedMetricValue = record { value = m.value; timestamp = t } in
            let one = points-append_found key j t (some m.value) result in
            rw (same, q)
              (points-labeled_set j t ms (append_point j p result)
                ∙ elim (Bool-cases (str_eq j key)) [
                  | inl r ↦
                      rw (one, r)
                        (append_assoc (points_at key result) (p ∷ []) (matching name labels t ms))
                  | inr r ↦ rw (one, r, append-nil, append-nil)
                ])
      ]

  points-labeled_keys-absent :
      (b : DataBatch) (ks : List String) (result : Series)
      → contains ks key ≡ false
      → points_at key (collect_labeled_keys name labels b ks result) ≡ points_at key result
  unfolding collect_labeled_keys
  points-labeled_keys-absent b [] result h = refl
  points-labeled_keys-absent b (k ∷ ks) result h =
      let other : str_eq k key ≡ false = ground arith in
      let ms = labeled_of (lookup k b.metric_sets) in
      points-labeled_keys-absent b ks (collect_labeled_set name labels k b.timestamp ms result)
        (ground arith)
      ∙ points-labeled_set k b.timestamp ms result
      ∙ rw (other, append-nil)

  points-labeled_keys :
      (b : DataBatch) (ks : List String) (result : Series)
      → Distinct ks
      → contains ks key ≡ true
      → points_at key (collect_labeled_keys name labels b ks result)
        ≡ points_at key result
          ++ matching name labels b.timestamp (labeled_of (lookup key b.metric_sets))
  unfolding collect_labeled_keys
  points-labeled_keys b [] result d h = cc
  points-labeled_keys b (k ∷ ks) result d h =
      let ms = labeled_of (lookup k b.metric_sets) in
      let next = collect_labeled_set name labels k b.timestamp ms result in
      let one = points-labeled_set k b.timestamp ms result in
      elim (Bool-cases (str_eq k key)) [
        | inl q ↦
            points-labeled_keys-absent b ks next (rw ((str_eq_iff k key).0 q) at d.0)
            ∙ one
            ∙ rw (q, (str_eq_iff k key).0 q)
        | inr q ↦ points-labeled_keys b ks next d.1 (ground arith) ∙ rw (one, q, append-nil)
      ]

module _ (name : String) (labels : Dict String) (ks : List String) (start end : Time) (key : String)
    (d : Distinct ks) (h : contains ks key ≡ true) where
  points-collect_labeled :
      (batches : List DataBatch) (result : Series)
      → points_at key (collect_labeled name labels ks start end batches result)
        ≡ points_at key result ++ labeled_points name labels key start end batches
  unfolding collect_labeled
  points-collect_labeled [] result = rw append-nil
  points-collect_labeled (b ∷ batches) result =
      let here = matching name labels b.timestamp (metrics_of (lookup key b.metric_sets)) in
      let found = labeled_of-metrics_of (lookup key b.metric_sets) in
      let same = in_range-between start end b.timestamp in
      elim (Bool-cases (between start end b.timestamp)) [
        | inl q ↦
            rw (same, q)
              (points-collect_labeled batches (collect_labeled_keys name labels b ks result)
                ∙ rw (points-labeled_keys name labels key b ks result d h, found)
                    (append_assoc (points_at key result) here
                      (labeled_points name labels key start end batches)))
        | inr q ↦ rw (same, q) (points-collect_labeled batches result)
      ]

  -- For a key that is asked for, `GetLabeledMetric` gives exactly the points of the key's labeled
  -- metrics that have the name, as many labels as are asked for, and each of these with its value,
  -- in the batches of the short store from `start` to `end`, both included, in their order. No key
  -- is asked twice.
  pub get_labeled_metric_lem :
      (sink : MetricSink)
      → points_at key (get_labeled_metric name labels ks start end sink)
        ≡ labeled_points name labels key start end sink.short_store
  unfolding get_labeled_metric lookup
  get_labeled_metric_lem sink = points-collect_labeled sink.short_store []
