-- ===== src/Processors/PodEnricher/Complete.antt =====
-- metrics/processors/pod_based_enricher.go: which sets are there after `Process`.
use heapster.Common.{
  String, List, [], ◌∷◌, some, Option-cases, true, false, Bool, Bool-cases, inl, inr, ◌≡◌, refl,
  ◌∙◌, sym, ap, str_eq, str_eq_iff, contains, Distinct, subst, All, arith,
}
use heapster.Common.Dict.{
  Dict, lookup, insert_all, keys, is_some, is_some-lookup, is_some-insert_all,
  Distinct-keys-insert_all,
}
use heapster.Core.Keyed.Same.{KeepsKeys, key_labels}
use heapster.Core.Keys.{pod_key, pod_container_key}
use heapster.Core.Labels.{
  label_metric_set_type, label_pod_name, label_namespace_name, metric_set_type_pod,
  metric_set_type_pod_container,
}
use heapster.Core.Metrics.Defs.{Metric}
use heapster.Core.Values.{MetricSet, DataBatch}
use heapster.Processors.Labels.{label_of}
use heapster.Processors.PodEnricher.{
  Container, Pod, Lister, EnricherState, pod_info, spec_info, container_info, add_pod_info,
  add_container_info, enrich_set, enrich_sets, pod_enricher_process,
}
use heapster.Processors.PodEnricher.Keyed.{Same-spec_info, Same-container_info}
use heapster.Util.LabelCopier.{LabelCopier}
use heapster.Processors.PodEnricher.Stubs.{
  has, Grows, has-Grows, Grows-container_stubs, has-container_stubs, Grows-pod_stub, has-pod_stub,
}

-- What `Process` does for a set whose pod is found: the pod's containers have sets, or the
-- container's pod has one.
abbrev pub Served : Lister → (String → Bool) → MetricSet → Type 0
Served lister present ms =
    let ns = label_of label_namespace_name.key ms in
    let name = label_of label_pod_name.key ms in
    let kind = label_of label_metric_set_type.key ms in
    (pod : Pod)
    → lister ns name ≡ some pod
    → (str_eq kind metric_set_type_pod ≡ true
        → All (λ (c : Container). present (pod_container_key pod.namespace pod.name c.name) ≡ true)
            pod.containers)
      × (str_eq kind metric_set_type_pod_container ≡ true → present (pod_key ns name) ≡ true)

All-implies :
    (present present' : String → Bool) (pod : Pod) (cs : List Container)
    → ((key : String) → present key ≡ true → present' key ≡ true)
    → All (λ (c : Container). present (pod_container_key pod.namespace pod.name c.name) ≡ true) cs
    → All (λ (c : Container). present' (pod_container_key pod.namespace pod.name c.name) ≡ true) cs
All-implies present present' pod [] imp a = tt
All-implies present present' pod (c ∷ cs) imp a =
    (imp _ a.0, All-implies present present' pod cs imp a.1)

Served-implies :
    (lister : Lister) (present present' : String → Bool) (ms : MetricSet)
    → ((key : String) → present key ≡ true → present' key ≡ true)
    → Served lister present ms
    → Served lister present' ms
Served-implies lister present present' ms imp h pod e = (
  λ p. All-implies present present' pod pod.containers imp ((h pod e).0 p),
  λ p. imp _ ((h pod e).1 p),
)

label_of-same :
    (name : String) (ms ms' : MetricSet)
    → lookup name ms'.labels ≡ lookup name ms.labels
    → label_of name ms' ≡ label_of name ms
unfolding label_of
label_of-same name ms ms' e = rw e refl

module _ (lister : Lister) (copier : LabelCopier) (sets : Dict MetricSet) where
  Grows-enrich_set :
      (key : String) (ms : MetricSet) (s : EnricherState)
      → Grows s (enrich_set lister copier sets key ms s).1
  unfolding enrich_set add_pod_info add_container_info
  Grows-enrich_set key ms s k h =
      let kind = label_of label_metric_set_type.key ms in
      let found = lister (label_of label_namespace_name.key ms) (label_of label_pod_name.key ms) in
      elim (Option-cases found) [
        | inl e ↦ rw e (ground (arith, h))
        | inr (pod, e) ↦ elim (Bool-cases (str_eq kind metric_set_type_pod)) [
          | inl q ↦
              rw (e, q)
                (Grows-container_stubs copier sets pod (pod_info copier pod ms) pod.containers s k
                  h)
          | inr q ↦ elim (Bool-cases (str_eq kind metric_set_type_pod_container)) [
            | inr p ↦ rw (e, q, p) h
            | inl p ↦
                let (ms1, table') = spec_info key pod pod.containers ms s.table in
                rw (e, q, p)
                  (Grows-pod_stub copier sets pod (container_info copier key pod ms1)
                    (record s { table = table' }) k h)
          ]
        ]
      ]

  Served-container :
      (key : String) (pod : Pod) (ms : MetricSet) (s : EnricherState)
      → KeepsKeys copier
      → has sets
          (add_container_info copier sets key pod ms s).1
          (pod_key (label_of label_namespace_name.key ms) (label_of label_pod_name.key ms))
        ≡ true
  unfolding add_container_info
  Served-container key pod ms s keeps =
      let (ms1, table') = spec_info key pod pod.containers ms s.table in
      let ms2 = container_info copier key pod ms1 in
      let same : (name : String)
          → contains key_labels name ≡ true
          → label_of name ms2 ≡ label_of name ms =
        λ name p. label_of-same name ms ms2 (
          Same-container_info copier keeps key pod ms1 name p
          ∙ Same-spec_info key pod pod.containers ms s.table name p) in
      rw (same "namespace_name" refl, same "pod_name" refl) at
        (has-pod_stub copier sets pod ms2 (record s { table = table' }))

  Served-enrich_set :
      (key : String) (ms : MetricSet) (s : EnricherState)
      → KeepsKeys copier
      → Served lister (has sets (enrich_set lister copier sets key ms s).1) ms
  unfolding enrich_set add_pod_info
  Served-enrich_set key ms s keeps pod e = (
    λ p. rw (p, e) (has-container_stubs copier sets pod (pod_info copier pod ms) pod.containers s),
    λ p.
        let kind = label_of label_metric_set_type.key ms in
        let other : str_eq kind metric_set_type_pod ≡ false =
          ap (λ x. str_eq x metric_set_type_pod)
            ((str_eq_iff kind metric_set_type_pod_container).0 p) in
        rw (other, p, e) (Served-container key pod ms s keeps),
  )

  Grows-enrich_sets :
      (es : Dict MetricSet) (s : EnricherState) → Grows s (enrich_sets lister copier sets es s).1
  unfolding enrich_sets
  Grows-enrich_sets [] s k h = h
  Grows-enrich_sets ((key, ms) ∷ es) s k h =
      Grows-enrich_sets es (enrich_set lister copier sets key ms s).1 k
        (Grows-enrich_set key ms s k h)

  Served-enrich_sets :
      (es : Dict MetricSet) (s : EnricherState)
      → KeepsKeys copier
      → All
          (λ (e : String × MetricSet).
            Served lister (has sets (enrich_sets lister copier sets es s).1) e.1)
          es
  unfolding enrich_sets
  Served-enrich_sets [] s keeps = tt
  Served-enrich_sets ((key, ms) ∷ es) s keeps =
      let s1 = (enrich_set lister copier sets key ms s).1 in
      let s2 = (enrich_sets lister copier sets es s1).1 in
      (
        Served-implies lister (has sets s1) (has sets s2) ms
            (λ k. has-Grows copier sets s1 s2 k (Grows-enrich_sets es s1))
            (Served-enrich_set key ms s keeps),
        Served-enrich_sets es s1 keeps,
      )

  keys-enrich_sets :
      (es : Dict MetricSet) (s : EnricherState)
      → keys (enrich_sets lister copier sets es s).0 ≡ keys es
  unfolding enrich_sets
  keys-enrich_sets [] s = refl
  keys-enrich_sets ((key, ms) ∷ es) s =
      ap (λ ks. key ∷ ks) (keys-enrich_sets es (enrich_set lister copier sets key ms s).1)

All-Served :
    (lister : Lister) (present present' : String → Bool) (es : Dict MetricSet)
    → ((key : String) → present key ≡ true → present' key ≡ true)
    → All (λ (e : String × MetricSet). Served lister present e.1) es
    → All (λ (e : String × MetricSet). Served lister present' e.1) es
All-Served lister present present' [] imp a = tt
All-Served lister present present' ((key, ms) ∷ es) imp a = (
  Served-implies lister present present' ms imp a.0,
  All-Served lister present present' es imp a.1,
)

-- `Process` drops no set of the batch. For every pod of the batch that the lister finds, each
-- container of the pod's spec has a set afterwards, and for every container whose pod the lister
-- finds, the pod has one. No label of a pod is stored under the name of a label that names a set.
pub pod_enricher_process-IsComplete :
    (lister : Lister) (copier : LabelCopier) (table : Dict Metric) (batch : DataBatch)
    → KeepsKeys copier
    → let after = (pod_enricher_process lister copier table batch).0.metric_sets in
      ((key : String)
        → is_some (lookup key batch.metric_sets) ≡ true
        → is_some (lookup key after) ≡ true)
      × All
          (λ (e : String × MetricSet). Served lister (λ key. is_some (lookup key after)) e.1)
          batch.metric_sets
unfolding pod_enricher_process
pod_enricher_process-IsComplete lister copier table batch keeps =
    let sets = batch.metric_sets in
    let start : EnricherState = record { new_ms = []; table = table } in
    let (sets', s) = enrich_sets lister copier sets sets start in
    let same : (key : String) → is_some (lookup key sets') ≡ is_some (lookup key sets) = λ key.
      is_some-lookup key sets'
      ∙ (ap (λ ks. contains ks key) (keys-enrich_sets lister copier sets sets start)
          ∙ sym (is_some-lookup key sets)) in
    (
      λ key h. ground (arith, is_some-insert_all key s.new_ms sets', same key, h),
      All-Served lister (has sets s) (λ key. is_some (lookup key (insert_all s.new_ms sets'))) sets
          (λ key h. ground (arith, is_some-insert_all key s.new_ms sets', same key, h))
          (Served-enrich_sets lister copier sets sets start keeps),
    )

-- No key stands twice afterwards, where none did before.
pub Distinct-keys-pod_enricher_process :
    (lister : Lister) (copier : LabelCopier) (table : Dict Metric) (batch : DataBatch)
    → Distinct (keys batch.metric_sets)
    → Distinct (keys (pod_enricher_process lister copier table batch).0.metric_sets)
unfolding pod_enricher_process
Distinct-keys-pod_enricher_process lister copier table batch d =
    let start : EnricherState = record { new_ms = []; table = table } in
    Distinct-keys-insert_all _ _ (
      subst Distinct
        (sym (keys-enrich_sets lister copier batch.metric_sets batch.metric_sets start)) d)
