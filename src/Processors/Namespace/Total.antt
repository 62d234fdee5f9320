-- ===== src/Processors/Namespace/Total.antt =====
-- metrics/processors/namespace_aggregator.go: every namespace's set after `Process`.
use heapster.Common.{
  ◌&&◌, String, List, [], ◌∷◌, Option, none, some, Option-cases, true, false, Bool-cases,
  if◌then◌else◌, ◌≡◌, refl, ◌∙◌, arith, contains, Distinct, All, inl, inr,
}
use heapster.Common.Dict.{Dict, lookup, keys, lookup-entries, lookup-insert_all}
use heapster.Common.Int64.{FloatOps}
use heapster.Common.Result.{ok, >>=-eq-ok, ok_injective}
use heapster.Core.Values.{MetricValue, MetricSet, DataBatch}
use heapster.Processors.Aggregate.Row.{aggregate_row, merge_all, column, lookup-aggregate_row}
use heapster.Processors.Labels.{has_kind}
use heapster.Processors.Namespace.{
  NamespaceState, namespace_visit, namespace_loop, namespace_process,
}
use heapster.Processors.Namespace.Pods.{
  is_pod, is_pod_in, created, view, Visited, namespace_visit_lem,
}

-- The metrics of the pods of a namespace, in the order of the batch.
abbrev pub pods_in : String → Dict MetricSet → List (Dict MetricValue)
pods_in nskey [] = []
pods_in nskey ((key, ms) ∷ rest) =
    let more = pods_in nskey rest in if is_pod_in nskey ms then ms.metric_values ∷ more else more

-- The set under the key before its pods are added: the one at hand, or the one made for the first
-- pod of the namespace, or none where there is no such pod.
abbrev pub origin : String → Dict MetricSet → Option MetricSet → Option MetricSet
origin nskey es (some namespace) = some namespace
origin nskey [] none = none
origin nskey ((key, ms) ∷ rest) none =
    let more = origin nskey rest none in if is_pod_in nskey ms then some (created ms) else more

-- No pod of a list stands under the key of a given pod's namespace, or of an earlier pod's.
abbrev pub ApartFrom : MetricSet → Dict MetricSet → Type 0
ApartFrom pod = All (λ e. (is_pod e.1 && is_pod_in e.0 pod) ≡ false)

abbrev pub Apart : Dict MetricSet → Type 0
Apart [] = Unit
Apart ((key, ms) ∷ rest) = ApartFrom ms rest × Apart rest

ApartFrom-same :
    (ms ms' : MetricSet) (es : Dict MetricSet)
    → is_pod ms' ≡ is_pod ms
    → (is_pod ms ≡ true → ms' ≡ ms)
    → ApartFrom ms es
    → ApartFrom ms' es
ApartFrom-same ms ms' [] kind same h = tt
ApartFrom-same ms ms' ((key, m) ∷ es) kind same h = (
  elim (Bool-cases (is_pod ms)) [ inl p ↦ rw (same p) h.0 | inr p ↦ ground arith ],
  ApartFrom-same ms ms' es kind same h.1,
)

abbrev Agree : String → MetricSet → Dict MetricSet → Type 0
Agree key ms sets =
    (ms' : MetricSet) × (lookup key sets ≡ some ms')
    × (is_pod ms' ≡ is_pod ms)
    × (is_pod ms ≡ true → ms' ≡ ms)

-- The set under the key at the end, from the one at the start.
abbrev Final :
    FloatOps → List String → List (Dict MetricValue) → Option MetricSet → Option MetricSet → Type 0
Final f metrics pods none after = after ≡ none
Final f metrics pods (some first) after =
    (values : Dict MetricValue) × (aggregate_row f metrics pods first.metric_values ≡ ok values)
    × (after ≡ some (record first { metric_values = values }))

module _ (f : FloatOps) (metrics : List String) where
  Agree-visit :
      (pod : MetricSet) (s s' : NamespaceState) (key : String) (ms : MetricSet)
      → Visited f metrics pod s s' key
      → (is_pod ms && is_pod_in key pod) ≡ false
      → Agree key ms s.sets
      → Agree key ms s'.sets
  unfolding has_kind
  Agree-visit pod s s' key ms v apart (ms', l, kind, same) = elim (Bool-cases (is_pod_in key pod)) [
    | inr q ↦ (ms', v.elsewhere q ∙ l, kind, same)
    | inl q ↦
        let (values, l') = v.values_only ms' l in
        let other : is_pod ms ≡ true → ⊥ = λ p. absurd (ground arith) in
        (record ms' { metric_values = values }, l', kind, λ p. absurd (other p))
  ]

  AllAgree-visit :
      (pod : MetricSet) (s : NamespaceState) {s' : NamespaceState} (es : Dict MetricSet)
      → namespace_visit f metrics pod s ≡ ok s'
      → ApartFrom pod es
      → All (λ e. Agree e.0 e.1 s.sets) es
      → All (λ e. Agree e.0 e.1 s'.sets) es
  AllAgree-visit pod s [] h apart a = tt
  AllAgree-visit pod s {s'} ((key, ms) ∷ es) h apart a = (
    Agree-visit pod s s' key ms (namespace_visit_lem f metrics pod s key h) apart.0 a.0,
    AllAgree-visit pod s es h apart.1 a.1,
  )

  -- A first round that does not touch the key, and the rest.
  Final-skip :
      (key k : String) (ms : MetricSet) (es : Dict MetricSet) (o o' after : Option MetricSet)
      → is_pod_in key ms ≡ false
      → o' ≡ o
      → Final f metrics (pods_in key es) (origin key es o') after
      → Final f metrics (pods_in key ((k, ms) ∷ es)) (origin key ((k, ms) ∷ es) o) after
  Final-skip key k ms es none o' after q e fin = rw q (rw e at fin)
  Final-skip key k ms es (some n) o' after q e fin = rw q (rw e at fin)

  -- The first round and the rest.
  Final-step :
      (key k : String) (ms : MetricSet) (es : Dict MetricSet) (s s' : NamespaceState)
      (after : Option MetricSet)
      → Visited f metrics ms s s' key
      → Final f metrics (pods_in key es) (origin key es (view s' key)) after
      → Final f metrics (pods_in key ((k, ms) ∷ es)) (origin key ((k, ms) ∷ es) (view s key)) after
  Final-step key k ms es s s' after v fin = elim (Bool-cases (is_pod_in key ms)) [
    | inr q ↦ Final-skip key k ms es (view s key) (view s' key) after q (v.away q) fin
    | inl q ↦
        let (v1, a, g) = v.added q in
        elim (Option-cases (view s key)) [
          | inl e ↦ let (v2, row, r) = rw (g, e) at fin in rw (e, q, rw e at a) (v2, row, r)
          | inr (n, e) ↦ let (v2, row, r) = rw (g, e) at fin in rw (e, q, rw e at a) (v2, row, r)
        ]
  ]

  loop_lem :
      (es : Dict MetricSet) (s : NamespaceState) {s' : NamespaceState} (key : String)
      → namespace_loop f metrics (keys es) s ≡ ok s'
      → Apart es
      → All (λ e. Agree e.0 e.1 s.sets) es
      → Final f metrics (pods_in key es) (origin key es (view s key)) (view s' key)
        × (Distinct (keys s.namespaces) → Distinct (keys s'.namespaces))
  unfolding namespace_loop
  loop_lem [] s {s'} key h apart a = elim (Option-cases (view s key)) [
    | inl e ↦ (rw (e, ← ok_injective {b = s'} h) e, λ d. rw (← ok_injective {b = s'} h) d)
    | inr (n, e) ↦ (
      rw (e, ← ok_injective {b = s'} h) (n.metric_values, refl, e),
      λ d. rw (← ok_injective {b = s'} h) d,
    )
  ]
  loop_lem ((k, ms) ∷ es) s {s'} key h apart ((ms', l, kind, same), a) =
      let (s1, visit, rest) = >>=-eq-ok _ _ (rw l at h) in
      let (fin, d) =
        loop_lem es s1 key rest apart.1
          (AllAgree-visit ms' s es visit (ApartFrom-same ms ms' es kind same apart.0) a) in
      let v = namespace_visit_lem f metrics ms' s key visit in
      elim (Bool-cases (is_pod ms)) [
        | inl p ↦ (
          Final-step key k ms es s s1 (view s' key) (rw (same p) at v) fin,
          λ q. d (v.distinct q),
        )
        | inr p ↦
            let off : is_pod_in key ms ≡ false = ground arith in
            let off' : is_pod_in key ms' ≡ false = ground arith in
            (
              Final-skip key k ms es (view s key) (view s1 key) (view s' key) off (v.away off') fin,
              λ q. d (v.distinct q),
            )
      ]

Agree-of_lookup :
    (m es : Dict MetricSet) → All (λ e. lookup e.0 m ≡ some e.1) es → All (λ e. Agree e.0 e.1 m) es
Agree-of_lookup m [] a = tt
Agree-of_lookup m ((k, ms) ∷ es) a = ((ms, a.0, refl, λ p. refl), Agree-of_lookup m es a.1)

-- The set under a key after `Process`: none where there was none and no pod of such a namespace;
-- or the set that was there, or was made for the first such pod, with new metrics: of the chosen
-- ones, the merge of its own value with those of the namespace's pods in the order of the batch.
abbrev pub Aggregated :
    FloatOps → List String → String → DataBatch → Option MetricSet → Option MetricSet → Type 0
Aggregated f metrics key batch none after = after ≡ none
Aggregated f metrics key batch (some first) after =
    (values : Dict MetricValue) × (after ≡ some (record first { metric_values = values }))
    × ((m : String)
        → lookup m values ≡ (
            if contains metrics m
            then merge_all f (column m (pods_in key batch.metric_sets))
                (lookup m first.metric_values)
            else lookup m first.metric_values))

Aggregated-Final :
    (f : FloatOps) (metrics : List String) (key : String) (batch : DataBatch)
    (first after : Option MetricSet)
    → Distinct metrics
    → Final f metrics (pods_in key batch.metric_sets) first after
    → Aggregated f metrics key batch first after
Aggregated-Final f metrics key batch none after d h = h
Aggregated-Final f metrics key batch (some first) after d (values, row, e) = (
  values,
  e,
  λ m.
      lookup-aggregate_row f metrics (pods_in key batch.metric_sets) first.metric_values
        {dst' = values} m d row,
)

-- After a successful `Process` a key that had no set still has none, unless it is the key of a pod's
-- namespace. Any other key holds the set that was there, or the one made for the first pod of the
-- namespace, with new metrics: each chosen one is the merge of its own value with those of the
-- namespace's pods, in the order of the batch, and any other stays. The timestamp stays. The batch
-- has no key twice and no pod under the key of a pod's namespace, and no metric is chosen twice.
pub namespace_process_lem :
    (f : FloatOps) (metrics : List String) (batch : DataBatch) {batch' : DataBatch}
    → Distinct metrics
    → Distinct (keys batch.metric_sets)
    → Apart batch.metric_sets
    → namespace_process f metrics batch ≡ ok batch'
    → (batch'.timestamp ≡ batch.timestamp)
      × ((key : String)
          → Aggregated f metrics key batch
              (origin key batch.metric_sets (lookup key batch.metric_sets))
              (lookup key batch'.metric_sets))
unfolding namespace_process lookup
namespace_process_lem f metrics batch dm dk apart h =
    let sets = batch.metric_sets in
    let start : NamespaceState = record { namespaces = []; sets = sets } in
    let (s, loop, e) = >>=-eq-ok (namespace_loop f metrics (keys sets) start) _ h in
    let eq = ok_injective e in
    (
      rw (← eq),
      λ key.
          let (fin, d) =
            loop_lem f metrics sets start {s' = s} key loop apart
              (Agree-of_lookup sets sets (lookup-entries sets dk)) in
          rw (← eq, lookup-insert_all s.namespaces s.sets key (d tt))
            (Aggregated-Final f metrics key batch (origin key sets (lookup key sets)) (view s key)
              dm fin),
    )
