-- ===== src/Processors/Namespace/Pods.antt =====
-- metrics/processors/namespace_aggregator.go: one round of `Process`, as it is seen through the
-- sets made so far and those of the batch together.
use heapster.Common.{
  String, List, Option, none, some, Option-cases, Bool, true, false, ◌&&◌, Bool-cases, ◌≡◌, refl,
  sym, subst, ◌∙◌, arith, str_eq, str_eq_iff, Distinct, inl, inr,
}
use heapster.Common.Dict.{
  Dict, lookup, insert, keys, is_some, or_else, value_or, lookup-insert, Distinct-keys-insert,
}
use heapster.Common.Int64.{FloatOps}
use heapster.Common.Result.{ok, >>=-eq-ok, ok_injective}
use heapster.Core.Keys.{namespace_key}
use heapster.Core.Labels.{metric_set_type_pod, label_namespace_name, label_pod_namespace_uid}
use heapster.Core.Values.{MetricValue, MetricSet}
use heapster.Processors.Aggregate.{aggregate}
use heapster.Processors.Labels.{has_kind, label_of}
use heapster.Processors.Namespace.{
  NamespaceState, namespace_metric_set, into_namespace, namespace_visit,
}

abbrev pub is_pod : MetricSet → Bool
is_pod ms = has_kind metric_set_type_pod ms

abbrev pub namespace_of : MetricSet → String
namespace_of ms = label_of label_namespace_name.key ms

-- The set is a pod of the namespace with that key.
abbrev pub is_pod_in : String → MetricSet → Bool
is_pod_in key ms =
    is_pod ms
    && (is_some (lookup label_namespace_name.key ms.labels)
        && str_eq (namespace_key (namespace_of ms)) key)

-- The set made for a namespace that the batch lacks, from its first pod.
abbrev pub created : MetricSet → MetricSet
created pod = namespace_metric_set (namespace_of pod) (label_of label_pod_namespace_uid.key pod)

-- The set under a key: one made so far, or the batch's.
abbrev pub view : NamespaceState → String → Option MetricSet
view s key = or_else (lookup key s.namespaces) (lookup key s.sets)

-- The set that the pod's values go to.
abbrev pub base : MetricSet → Option MetricSet → MetricSet
base pod o = value_or (created pod) o

-- What one round does to the state, at one key.
pub record Visited (f : FloatOps) (metrics : List String) (pod : MetricSet) (s s' : NamespaceState)
    (key : String) : Type 0 where
  pub away : is_pod_in key pod ≡ false → view s' key ≡ view s key
  pub added :
      is_pod_in key pod ≡ true
      → (values : Dict MetricValue) × (aggregate f pod.metric_values
            (base pod (view s key)).metric_values
            metrics
          ≡ ok values)
        × (view s' key ≡ some (record (base pod (view s key)) { metric_values = values }))
  pub distinct : Distinct (keys s.namespaces) → Distinct (keys s'.namespaces)
  pub elsewhere : is_pod_in key pod ≡ false → lookup key s'.sets ≡ lookup key s.sets
  pub values_only :
      (ms : MetricSet)
      → lookup key s.sets ≡ some ms
      → (values : Dict MetricValue) × (lookup key s'.sets
          ≡ some (record ms { metric_values = values }))

module _ (f : FloatOps) (metrics : List String) (pod : MetricSet) (s : NamespaceState)
    (key : String) (name : String) where
  -- The same for the aggregation itself, where `hit` says that the key is the namespace's.
  abbrev Into : NamespaceState → Type 0
  Into s' =
      (str_eq (namespace_key name) key ≡ false
        → (view s' key ≡ view s key) × (lookup key s'.sets ≡ lookup key s.sets))
      × (str_eq (namespace_key name) key ≡ true
          → let fresh = namespace_metric_set name (label_of label_pod_namespace_uid.key pod) in
            let old = value_or fresh (view s key) in
            (values : Dict MetricValue) × (aggregate f pod.metric_values old.metric_values metrics
              ≡ ok values)
            × (view s' key ≡ some (record old { metric_values = values })))
      × (Distinct (keys s.namespaces) → Distinct (keys s'.namespaces))
      × ((ms : MetricSet)
          → lookup key s.sets ≡ some ms
          → (values : Dict MetricValue) × (lookup key s'.sets
              ≡ some (record ms { metric_values = values })))

  Into-made :
      (n : MetricSet) (values : Dict MetricValue)
      → lookup (namespace_key name) s.namespaces ≡ some n
      → aggregate f pod.metric_values n.metric_values metrics ≡ ok values
      → Into (record s {
        namespaces = insert (namespace_key name) (record n { metric_values = values }) s.namespaces;
      })
  Into-made n values e a =
      let k = namespace_key name in
      let look = lookup-insert key k (record n { metric_values = values }) s.namespaces in
      (
        λ q. (rw (look, q), refl),
        λ q.
            let e1 : lookup key s.namespaces ≡ some n = rw ((str_eq_iff k key).0 q) at e in
            rw (e1, look, q) (values, a, refl),
        λ d. Distinct-keys-insert k _ s.namespaces d,
        λ ms g. (ms.metric_values, g),
      )

  Into-batch :
      (n : MetricSet) (values : Dict MetricValue)
      → lookup (namespace_key name) s.namespaces ≡ none
      → lookup (namespace_key name) s.sets ≡ some n
      → aggregate f pod.metric_values n.metric_values metrics ≡ ok values
      → Into (record s {
        sets = insert (namespace_key name) (record n { metric_values = values }) s.sets;
      })
  Into-batch n values e e' a =
      let k = namespace_key name in
      let look = lookup-insert key k (record n { metric_values = values }) s.sets in
      (
        λ q. (rw (look, q), rw (look, q)),
        λ q.
            let e1 : lookup key s.namespaces ≡ none = rw ((str_eq_iff k key).0 q) at e in
            let e2 : lookup key s.sets ≡ some n = rw ((str_eq_iff k key).0 q) at e' in
            rw (e1, e2, look, q) (values, a, refl),
        λ d. d,
        λ ms g. elim (Bool-cases (str_eq k key)) [
          | inr q ↦ (ms.metric_values, rw (look, q) g)
          | inl q ↦
              let e2 : lookup key s.sets ≡ some n = rw ((str_eq_iff k key).0 q) at e' in
              let same : n ≡ ms = cc (e2, g) in (values, rw (look, q, ← same))
        ],
      )

  Into-new :
      (values : Dict MetricValue)
      → lookup (namespace_key name) s.namespaces ≡ none
      → lookup (namespace_key name) s.sets ≡ none
      → let n = namespace_metric_set name (label_of label_pod_namespace_uid.key pod) in
        aggregate f pod.metric_values n.metric_values metrics ≡ ok values
        → Into (record s {
          namespaces =
              insert (namespace_key name) (record n { metric_values = values }) s.namespaces;
        })
  Into-new values e e' a =
      let k = namespace_key name in
      let n = namespace_metric_set name (label_of label_pod_namespace_uid.key pod) in
      let look = lookup-insert key k (record n { metric_values = values }) s.namespaces in
      (
        λ q. (rw (look, q), refl),
        λ q.
            let e1 : lookup key s.namespaces ≡ none = rw ((str_eq_iff k key).0 q) at e in
            let e2 : lookup key s.sets ≡ none = rw ((str_eq_iff k key).0 q) at e' in
            rw (e1, e2, look, q) (values, a, refl),
        λ d. Distinct-keys-insert k _ s.namespaces d,
        λ ms g. (ms.metric_values, g),
      )

  into_namespace_lem : {s' : NamespaceState} → into_namespace f metrics pod name s ≡ ok s' → Into s'
  unfolding into_namespace
  into_namespace_lem {s'} h =
      let k = namespace_key name in
      elim (Option-cases (lookup k s.namespaces)) [
        | inr (n, e) ↦
            let (values, a, r) = >>=-eq-ok _ _ (rw (e, into_namespace) at h) in
            subst Into (ok_injective {b = s'} r) (Into-made n values e a)
        | inl e ↦ elim (Option-cases (lookup k s.sets)) [
          | inr (n, e') ↦
              let (values, a, r) = >>=-eq-ok _ _ (rw (e, e', into_namespace) at h) in
              subst Into (ok_injective {b = s'} r) (Into-batch n values e e' a)
          | inl e' ↦
              let fresh = namespace_metric_set name (label_of label_pod_namespace_uid.key pod) in
              let (values, a, r) =
                >>=-eq-ok (aggregate f pod.metric_values fresh.metric_values metrics) _
                  (rw (e, e', into_namespace) at h) in
              subst Into (ok_injective {b = s'} r) (Into-new values e e' a)
        ]
      ]

module _ (f : FloatOps) (metrics : List String) (pod : MetricSet) (s : NamespaceState)
    (key : String) where
  skipped : is_pod_in key pod ≡ false → Visited f metrics pod s s key
  skipped off = record {
    away = λ q. refl;
    added = λ q. cc;
    distinct = λ d. d;
    elsewhere = λ q. refl;
    values_only = λ ms g. (ms.metric_values, g);
  }

  named :
      (name : String)
      → lookup label_namespace_name.key pod.labels ≡ some name
      → namespace_of pod ≡ name
  unfolding label_of
  named name e = rw e

  -- One round is as described above.
  pub namespace_visit_lem :
      {s' : NamespaceState}
      → namespace_visit f metrics pod s ≡ ok s'
      → Visited f metrics pod s s' key
  unfolding namespace_visit
  namespace_visit_lem {s'} h = elim (Bool-cases (is_pod pod)) [
    | inr p ↦
        subst (λ t. Visited f metrics pod s t key) {y = s'}
          (ok_injective (rw (p, namespace_visit) at h)) (skipped (ground arith))
    | inl p ↦ elim (Option-cases (lookup label_namespace_name.key pod.labels)) [
      | inl e ↦
          subst (λ t. Visited f metrics pod s t key) {y = s'}
            (ok_injective (rw (p, e, namespace_visit) at h)) (skipped (ground arith))
      | inr (name, e) ↦
          let (other, hit, distinct, kept) =
            into_namespace_lem f metrics pod s key name {s' = s'}
              (rw (p, e, namespace_visit) at h) in
          let nm : namespace_of pod ≡ name = named name e in
          let at_name : is_pod_in key pod ≡ str_eq (namespace_key name) key = rw (p, e, nm) in
          record {
            away = λ q. (other (sym at_name ∙ q)).0;
            added = λ q. rw nm (hit (sym at_name ∙ q));
            distinct = distinct;
            elsewhere = λ q. (other (sym at_name ∙ q)).1;
            values_only = kept;
          }
    ]
  ]
