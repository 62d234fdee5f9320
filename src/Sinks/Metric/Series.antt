-- ===== src/Sinks/Metric/Series.antt =====
-- metrics/sinks/metric/metric_sink.go: `GetMetric` against the points that a key has in the stores.
use mathlib.Core.List.{append-nil, append_assoc}
use heapster.Common.{
  ℕ, Option-cases, Bool, ◌&&◌, leb, String, List, [], ◌∷◌, ◌++◌, Option, none, some, true, false,
  Bool-cases, inl, inr, if◌then◌else◌, str_eq, str_eq_iff, contains, Distinct, ◌≡◌, refl, ◌∙◌,
  arith,
}
use heapster.Common.Dict.{Dict, lookup, value_or, lookup-insert}
use heapster.Common.Time.{Time}
use heapster.Core.Values.{MetricValue, MetricSet, DataBatch, gauge, int_metric}
use heapster.Sinks.Metric.{
  MultimetricStore, MetricSink, TimestampedMetricValue, Series, append_point, append_found,
  in_range, collect_keys, stored_value, batch_value, collect_long, collect_short, get_metric,
}

-- The points of a key in a result.
abbrev pub points_at : String → Series → List TimestampedMetricValue
points_at key result = value_or [] (lookup key result)

-- The point that one stored batch gives, if its time is in range.
abbrev pub point : Time → Option MetricValue → List TimestampedMetricValue
point t none = []
point t (some v) = record { value = v; timestamp = t } ∷ []

-- A time from the start to the end, both included.
abbrev pub between : Time → Time → Time → Bool
between start end t = leb start t && leb t end

pub in_range-between : (start end t : Time) → in_range start end t ≡ between start end t
in_range-between start end t = ground arith

-- What a set of a batch holds of a metric, and what the numbers of the long store hold of it.
abbrev pub of_set : String → Option MetricSet → Option MetricValue
of_set metric none = none
of_set metric (some ms) = lookup metric ms.metric_values

abbrev pub of_numbers : String → Option (Dict ℕ) → Option MetricValue
of_numbers key none = none
of_numbers key (some numbers) = elim (lookup key numbers) [
  | none ↦ none
  | some n ↦ some (int_metric gauge n)
]

batch_value-of_set :
    (metric : String) (b : DataBatch) (key : String)
    → batch_value metric b key ≡ of_set metric (lookup key b.metric_sets)
unfolding batch_value
batch_value-of_set metric b key = elim (Option-cases (lookup key b.metric_sets)) [
  | inl e ↦ rw e
  | inr (ms, e) ↦ rw e
]

stored_value-of_numbers :
    (metric : String) (s : MultimetricStore) (key : String)
    → stored_value metric s key ≡ of_numbers key (lookup metric s.store)
unfolding stored_value lookup
stored_value-of_numbers metric s key = elim (Option-cases (lookup metric s.store)) [
  | inl e ↦ rw e
  | inr (numbers, e) ↦ elim (Option-cases (lookup key numbers)) [
    | inl g ↦ rw e (rw (g, of_numbers))
    | inr (n, g) ↦ rw e (rw (g, of_numbers))
  ]
]

-- The points of one key in the long store, and in the short store.
abbrev pub long_points :
    String → String → Time → Time → List MultimetricStore → List TimestampedMetricValue
long_points metric key start end [] = []
long_points metric key start end (s ∷ stores) =
    let rest = long_points metric key start end stores in
    if between start end s.timestamp
    then point s.timestamp (of_numbers key (lookup metric s.store)) ++ rest
    else rest

abbrev pub short_points :
    String → String → Time → Time → List DataBatch → List TimestampedMetricValue
short_points metric key start end [] = []
short_points metric key start end (b ∷ batches) =
    let rest = short_points metric key start end batches in
    if between start end b.timestamp
    then point b.timestamp (of_set metric (lookup key b.metric_sets)) ++ rest
    else rest

pub points-append_found :
    (key j : String) (t : Time) (o : Option MetricValue) (result : Series)
    → points_at key (append_found j t o result)
      ≡ points_at key result ++ (if str_eq j key then point t o else [])
unfolding append_point
points-append_found key j t none result = elim (Bool-cases (str_eq j key)) [
  | inl q ↦ rw (q, append-nil)
  | inr q ↦ rw (q, append-nil)
]
points-append_found key j t (some v) result =
    let p : TimestampedMetricValue = record { value = v; timestamp = t } in
    let look = lookup-insert key j (points_at j result ++ p ∷ []) result in
    elim (Bool-cases (str_eq j key)) [
      | inl q ↦ rw (look, q, (str_eq_iff j key).0 q)
      | inr q ↦ rw (look, q, append-nil)
    ]

points-collect_keys-absent :
    (find : String → Option MetricValue) (t : Time) (ks : List String) (key : String)
    (result : Series)
    → contains ks key ≡ false
    → points_at key (collect_keys find t ks result) ≡ points_at key result
unfolding collect_keys
points-collect_keys-absent find t [] key result h = refl
points-collect_keys-absent find t (k ∷ ks) key result h =
    let other : str_eq k key ≡ false = ground arith in
    points-collect_keys-absent find t ks key (append_found k t (find k) result) (ground arith)
    ∙ points-append_found key k t (find k) result
    ∙ rw (other, append-nil)

points-collect_keys :
    (find : String → Option MetricValue) (t : Time) (ks : List String) (key : String)
    (result : Series)
    → Distinct ks
    → contains ks key ≡ true
    → points_at key (collect_keys find t ks result) ≡ points_at key result ++ point t (find key)
unfolding collect_keys
points-collect_keys find t [] key result d h = cc
points-collect_keys find t (k ∷ ks) key result d h = elim (Bool-cases (str_eq k key)) [
  | inl q ↦
      points-collect_keys-absent find t ks key (append_found k t (find k) result)
        (rw ((str_eq_iff k key).0 q) at d.0)
      ∙ points-append_found key k t (find k) result
      ∙ rw (q, (str_eq_iff k key).0 q)
  | inr q ↦
      points-collect_keys find t ks key (append_found k t (find k) result) d.1 (ground arith)
      ∙ rw (points-append_found key k t (find k) result, q, append-nil)
]

module _ (metric : String) (ks : List String) (start end : Time) (key : String) (d : Distinct ks)
    (h : contains ks key ≡ true) where
  points-collect_long :
      (stores : List MultimetricStore) (result : Series)
      → points_at key (collect_long metric ks start end stores result)
        ≡ points_at key result ++ long_points metric key start end stores
  unfolding collect_long
  points-collect_long [] result = rw append-nil
  points-collect_long (s ∷ stores) result =
      let same = in_range-between start end s.timestamp in
      elim (Bool-cases (between start end s.timestamp)) [
        | inl q ↦
            rw (same, q, ← stored_value-of_numbers metric s key)
              (points-collect_long stores
                  (collect_keys (stored_value metric s) s.timestamp ks result)
                ∙ rw (points-collect_keys (stored_value metric s) s.timestamp ks key result d h) (
                    append_assoc (points_at key result)
                      (point s.timestamp (stored_value metric s key))
                      (long_points metric key start end stores)))
        | inr q ↦ rw (same, q) (points-collect_long stores result)
      ]

  points-collect_short :
      (batches : List DataBatch) (result : Series)
      → points_at key (collect_short metric ks start end batches result)
        ≡ points_at key result ++ short_points metric key start end batches
  unfolding collect_short
  points-collect_short [] result = rw append-nil
  points-collect_short (b ∷ batches) result =
      let same = in_range-between start end b.timestamp in
      elim (Bool-cases (between start end b.timestamp)) [
        | inl q ↦
            rw (same, q, ← batch_value-of_set metric b key)
              (points-collect_short batches
                  (collect_keys (batch_value metric b) b.timestamp ks result)
                ∙ rw (points-collect_keys (batch_value metric b) b.timestamp ks key result d h) (
                    append_assoc (points_at key result)
                      (point b.timestamp (batch_value metric b key))
                      (short_points metric key start end batches)))
        | inr q ↦ rw (same, q) (points-collect_short batches result)
      ]

  -- For a key that is asked for, `GetMetric` gives exactly the points that the key has in the
  -- stored batches from `start` to `end`, both included, in the order of the store: the long
  -- store where the sink keeps the metric long, the short store otherwise. No key is asked twice.
  pub get_metric_lem :
      (sink : MetricSink)
      → points_at key (get_metric metric ks start end sink) ≡ (
          if contains sink.long_store_metrics metric
          then long_points metric key start end sink.long_store
          else short_points metric key start end sink.short_store)
  unfolding get_metric lookup
  get_metric_lem sink = elim (Bool-cases (contains sink.long_store_metrics metric)) [
    | inl q ↦ rw q (points-collect_long sink.long_store [])
    | inr q ↦ rw q (points-collect_short sink.short_store [])
  ]
