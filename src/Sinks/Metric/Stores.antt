-- ===== src/Sinks/Metric/Stores.antt =====
-- metrics/sinks/metric/metric_sink.go: the numbers of a long store are those of the batch.
use heapster.Common.{
  ℕ, String, List, [], ◌∷◌, Option, none, some, Bool, true, false, Bool-cases, inl, inr,
  if◌then◌else◌, ◌&&◌, str_eq, str_eq_iff, contains, Distinct, ◌≡◌, refl, ◌∙◌, arith,
}
use heapster.Common.Dict.{
  Dict, lookup, insert, keys, value_or, or_else, lookup-insert, is_some-lookup,
}
use heapster.Core.Values.{MetricValue, MetricSet, DataBatch}
use heapster.Sinks.Metric.{
  store_value, store_set, store_sets, empty_stores, build_multimetric_store, value_in_set, as_gauge,
  batch_value, stored_value,
}

-- What a key holds of a metric in a two-level map.
abbrev cell : String → String → Dict (Dict ℕ) → Option ℕ
cell m k store = lookup k (value_or [] (lookup m store))

abbrev pub int_part : Option MetricValue → Option ℕ
int_part none = none
int_part (some v) = some v.int_value

cell-store_value :
    (m k key metric : String) (o : Option MetricValue) (store : Dict (Dict ℕ))
    → cell m k (store_value key metric o store) ≡ (
        if str_eq metric m && str_eq key k
        then or_else (int_part o) (cell m k store)
        else cell m k store)
unfolding store_value
cell-store_value m k key metric none store = ground arith
cell-store_value m k key metric (some v) store =
    let inner = insert key v.int_value (value_or [] (lookup metric store)) in
    let outer = lookup-insert m metric inner store in
    elim (Bool-cases (str_eq metric m)) [
      | inr q ↦ rw (outer, q)
      | inl q ↦
          rw (outer, q, (str_eq_iff metric m).0 q)
            (lookup-insert k key v.int_value (value_or [] (lookup m store)) ∙ ground arith)
    ]

twice :
    (b : Bool) (x c : Option ℕ)
    → (if b && true then or_else x (or_else x c) else or_else x c) ≡ or_else x c
twice true none c = refl
twice true (some n) c = refl
twice false x c = refl

cell-store_set :
    (m k key : String) (ms : MetricSet) (metrics : List String) (store : Dict (Dict ℕ))
    → cell m k (store_set key ms metrics store) ≡ (
        if contains metrics m && str_eq key k
        then or_else (int_part (lookup m ms.metric_values)) (cell m k store)
        else cell m k store)
unfolding store_set
cell-store_set m k key ms [] store = refl
cell-store_set m k key ms (metric ∷ metrics) store =
    let v = lookup metric ms.metric_values in
    let one = cell-store_value m k key metric v store in
    cell-store_set m k key ms metrics (store_value key metric v store)
    ∙ elim (Bool-cases (str_eq metric m)) [
      | inr q ↦ rw (one, q)
      | inl q ↦ elim (Bool-cases (str_eq key k)) [
        | inr r ↦ ground (arith, one)
        | inl r ↦
            rw (one, q, r, (str_eq_iff metric m).0 q)
              (twice (contains metrics m) (int_part (lookup m ms.metric_values)) (cell m k store))
      ]
    ]

cell-store_sets :
    (m k : String) (metrics : List String) (sets : Dict MetricSet) (store : Dict (Dict ℕ))
    → Distinct (keys sets)
    → cell m k (store_sets metrics sets store) ≡ (
        if contains metrics m
        then or_else (int_part (value_in_set m (lookup k sets))) (cell m k store)
        else cell m k store)
unfolding store_sets lookup
cell-store_sets m k metrics [] store d = ground arith
cell-store_sets m k metrics ((key, ms) ∷ sets) store d =
    let one = cell-store_set m k key ms metrics store in
    cell-store_sets m k metrics sets (store_set key ms metrics store) d.1
    ∙ elim (Bool-cases (str_eq key k)) [
      | inr q ↦ rw (one, q) (ground arith)
      | inl q ↦
          let gone : lookup k sets ≡ none = absent k sets (rw ((str_eq_iff key k).0 q) at d.0) in
          rw (gone, one, q) (ground arith)
    ]
  where
    absent : (j : String) (l : Dict MetricSet) → contains (keys l) j ≡ false → lookup j l ≡ none
    absent j l h = ground (arith, is_some-lookup j l)

cell-empty_stores :
    (m k : String) (metrics : List String) (store : Dict (Dict ℕ))
    → cell m k store ≡ none
    → cell m k (empty_stores metrics store) ≡ none
unfolding empty_stores lookup
cell-empty_stores m k [] store h = h
cell-empty_stores m k (metric ∷ metrics) store h =
    cell-empty_stores m k metrics (insert metric [] store)
      (rw (lookup-insert m metric [] store) (split (str_eq metric m)))
  where
    split : (b : Bool) → lookup k (value_or [] (if b then some [] else lookup m store)) ≡ none
    split true = refl
    split false = h

-- For a metric that is kept long, a store built from a batch gives each key the integer that the
-- batch has for it, as a gauge, and nothing where the batch has nothing; it holds nothing of any
-- other metric. Its timestamp is the batch's. The batch has no key twice.
pub build_multimetric_store_lem :
    (metrics : List String) (batch : DataBatch) (metric key : String)
    → Distinct (keys batch.metric_sets)
    → (stored_value metric (build_multimetric_store metrics batch) key ≡ (
        if contains metrics metric
        then as_gauge (int_part (batch_value metric batch key))
        else none))
      × ((build_multimetric_store metrics batch).timestamp ≡ batch.timestamp)
unfolding build_multimetric_store stored_value batch_value lookup
build_multimetric_store_lem metrics batch metric key d =
    let start = empty_stores metrics [] in
    let none_yet = cell-empty_stores metric key metrics [] refl in
    (
      rw (cell-store_sets metric key metrics batch.metric_sets start d, none_yet)
          (tidy (contains metrics metric)
            (int_part (value_in_set metric (lookup key batch.metric_sets)))),
      refl,
    )
  where
    tidy :
        (b : Bool) (x : Option ℕ)
        → as_gauge (if b then or_else x none else none) ≡ (if b then as_gauge x else none)
    tidy true none = refl
    tidy true (some n) = refl
    tidy false x = refl
