-- ===== src/Processors/PodEnricher/Keyed.antt =====
-- metrics/processors/pod_based_enricher.go: after `Process` every set stands under the key that its
-- labels name.
use heapster.Common.{
  String, List, [], ◌∷◌, Option, none, some, Bool-cases, inl, inr, ◌≡◌, refl, str_eq, ◌||◌,
}
use heapster.Common.Dict.{Dict, lookup, insert, is_some}
use heapster.Core.Keyed.{
  Keyed, of_pod, of_container, AllKeyed, AllKeyed-insert, AllKeyed-insert_all,
}
use heapster.Core.Keyed.Same.{
  SameKeyLabels, Keyed-same, SameKeyLabels-insert, KeepsKeys, SameKeyLabels-copy,
  SameKeyLabels-trans,
}
use heapster.Core.Keys.{pod_key, pod_container_key}
use heapster.Core.Labels.{
  label_metric_set_type, label_pod_id, label_pod_name, label_namespace_name,
  label_container_base_image, metric_set_type_pod, metric_set_type_pod_container,
}
use heapster.Core.Metrics.Defs.{Metric}
use heapster.Common.Time.{Time}
use heapster.Core.Values.{MetricValue, MetricSet, DataBatch}
use heapster.Processors.Labels.{label_of}
use heapster.Processors.PodEnricher.{
  Container, ContainerStatus, Pod, Lister, EnricherState, with_start, stub_labels, container_stub,
  put_stub, add_container_stub, add_container_stubs, pod_info, image_unless, spec_info, status_info,
  container_info, pod_stub, add_pod_stub, add_pod_info, add_container_info, with_pod, enrich_set,
  enrich_sets, pod_enricher_process, update_container_resources_and_limits,
}
use heapster.Util.LabelCopier.{LabelCopier, copy}

labels-with_start : (t : Option Time) (ms : MetricSet) → (with_start t ms).labels ≡ ms.labels
labels-with_start none ms = refl
labels-with_start (some t) ms = refl

Same-refl : (labels : Dict String) → SameKeyLabels labels labels
Same-refl labels name p = refl

Same-image :
    (o : Option String) (image : String) (labels : Dict String)
    → SameKeyLabels labels (image_unless o image labels)
Same-image none image labels = SameKeyLabels-insert _ image labels refl
Same-image (some x) image labels = Same-refl labels

pub Same-spec_info :
    (key : String) (pod : Pod) (cs : List Container) (ms : MetricSet) (table : Dict Metric)
    → SameKeyLabels ms.labels (spec_info key pod cs ms table).0.labels
unfolding spec_info
Same-spec_info key pod [] ms table = Same-refl ms.labels
Same-spec_info key pod (c ∷ cs) ms table =
    elim (Bool-cases (str_eq key (pod_container_key pod.namespace pod.name c.name))) [
      | inl q ↦
          rw q (Same-image (lookup label_container_base_image.key ms.labels) c.image ms.labels)
      | inr q ↦ rw q (Same-spec_info key pod cs ms table)
    ]

labels-status_info :
    (key : String) (pod : Pod) (sts : List ContainerStatus) (ms : MetricSet)
    → (status_info key pod sts ms).labels ≡ ms.labels
unfolding status_info
labels-status_info key pod [] ms = refl
labels-status_info key pod (st ∷ sts) ms =
    elim (Bool-cases (str_eq key (pod_container_key pod.namespace pod.name st.name))) [
      | inl q ↦ rw q (labels-with_start pod.start_time _)
      | inr q ↦ rw q (labels-status_info key pod sts ms)
    ]

module _ (copier : LabelCopier) (keeps : KeepsKeys copier) where
  -- The labels after the pod's ID and its own labels.
  Same-id_and_labels :
      (pod : Pod) (labels : Dict String)
      → SameKeyLabels labels (copy copier pod.labels (insert label_pod_id.key pod.uid labels))
  Same-id_and_labels pod labels =
      SameKeyLabels-trans labels (insert label_pod_id.key pod.uid labels) _
        (SameKeyLabels-insert label_pod_id.key pod.uid labels refl)
        (SameKeyLabels-copy copier pod.labels _ keeps)

  Same-pod_info :
      (pod : Pod) (ms : MetricSet) → SameKeyLabels ms.labels (pod_info copier pod ms).labels
  unfolding pod_info
  Same-pod_info pod ms = rw (labels-with_start pod.start_time) (Same-id_and_labels pod ms.labels)

  pub Same-container_info :
      (key : String) (pod : Pod) (ms : MetricSet)
      → SameKeyLabels ms.labels (container_info copier key pod ms).labels
  unfolding container_info
  Same-container_info key pod ms =
      rw (labels-status_info key pod pod.container_statuses ms) (Same-id_and_labels pod ms.labels)

  Keyed-container_stub :
      (pod : Pod) (pod_ms : MetricSet) (c : Container) (values : Dict MetricValue)
      → Keyed
          (pod_container_key pod.namespace pod.name c.name)
          (container_stub copier pod pod_ms c values).labels
  unfolding container_stub lookup
  Keyed-container_stub pod pod_ms c values =
      Keyed-same (stub_labels pod pod_ms c) _ (SameKeyLabels-copy copier pod.labels _ keeps)
        (of_container refl refl)

  AllKeyed-container_stub :
      (sets : Dict MetricSet) (pod : Pod) (pod_ms : MetricSet) (c : Container) (s : EnricherState)
      → AllKeyed s.new_ms
      → AllKeyed (add_container_stub copier sets pod pod_ms c s).new_ms
  unfolding add_container_stub put_stub
  AllKeyed-container_stub sets pod pod_ms c s a =
      let key = pod_container_key pod.namespace pod.name c.name in
      let (values, table') = update_container_resources_and_limits c [] s.table in
      elim (Bool-cases (is_some (lookup key sets) || is_some (lookup key s.new_ms))) [
        | inl q ↦ rw q a
        | inr q ↦ rw q (
            AllKeyed-insert key (container_stub copier pod pod_ms c values) s.new_ms
              (Keyed-container_stub pod pod_ms c values) a)
      ]

  AllKeyed-container_stubs :
      (sets : Dict MetricSet) (pod : Pod) (pod_ms : MetricSet) (cs : List Container)
      (s : EnricherState)
      → AllKeyed s.new_ms
      → AllKeyed (add_container_stubs copier sets pod pod_ms cs s).new_ms
  unfolding add_container_stubs
  AllKeyed-container_stubs sets pod pod_ms [] s a = a
  AllKeyed-container_stubs sets pod pod_ms (c ∷ cs) s a =
      AllKeyed-container_stubs sets pod pod_ms cs (add_container_stub copier sets pod pod_ms c s)
        (AllKeyed-container_stub sets pod pod_ms c s a)

  Keyed-pod_stub :
      (pod : Pod) (ms : MetricSet)
      → Keyed
          (pod_key (label_of label_namespace_name.key ms) (label_of label_pod_name.key ms))
          (pod_info copier pod (pod_stub pod ms)).labels
  unfolding pod_stub lookup
  Keyed-pod_stub pod ms =
      Keyed-same _ _ (Same-pod_info pod (pod_stub pod ms))
        (rw (labels-with_start pod.start_time) (of_pod refl refl))

  AllKeyed-pod_stub :
      (sets : Dict MetricSet) (pod : Pod) (ms : MetricSet) (s : EnricherState)
      → AllKeyed s.new_ms
      → AllKeyed (add_pod_stub copier sets pod ms s).new_ms
  unfolding add_pod_stub
  AllKeyed-pod_stub sets pod ms s a =
      let key = pod_key (label_of label_namespace_name.key ms) (label_of label_pod_name.key ms) in
      let pod_ms = pod_info copier pod (pod_stub pod ms) in
      elim (Bool-cases (is_some (lookup key sets) || is_some (lookup key s.new_ms))) [
        | inl q ↦ rw q a
        | inr q ↦ rw q (
            AllKeyed-container_stubs sets pod pod_ms pod.containers
              (record s { new_ms = insert key pod_ms s.new_ms })
              (AllKeyed-insert key pod_ms s.new_ms (Keyed-pod_stub pod ms) a))
      ]

  abbrev Kept : String → MetricSet × EnricherState → Type 0
  Kept key (ms, s) = Keyed key ms.labels × AllKeyed s.new_ms

  Kept-pod :
      (sets : Dict MetricSet) (key : String) (pod : Pod) (ms : MetricSet) (s : EnricherState)
      → Keyed key ms.labels
      → AllKeyed s.new_ms
      → Kept key (add_pod_info copier sets pod ms s)
  unfolding add_pod_info
  Kept-pod sets key pod ms s h a = (
    Keyed-same ms.labels _ (Same-pod_info pod ms) h,
    AllKeyed-container_stubs sets pod (pod_info copier pod ms) pod.containers s a,
  )

  Kept-container :
      (sets : Dict MetricSet) (key : String) (pod : Pod) (ms : MetricSet) (s : EnricherState)
      → Keyed key ms.labels
      → AllKeyed s.new_ms
      → Kept key (add_container_info copier sets key pod ms s)
  unfolding add_container_info
  Kept-container sets key pod ms s h a =
      let (ms1, table') = spec_info key pod pod.containers ms s.table in
      (
        Keyed-same ms1.labels _ (Same-container_info key pod ms1)
            (Keyed-same ms.labels ms1.labels (Same-spec_info key pod pod.containers ms s.table) h),
        AllKeyed-pod_stub sets pod (container_info copier key pod ms1) (record s { table = table' })
            a,
      )

  Kept-with_pod :
      (add : Pod → MetricSet → EnricherState → MetricSet × EnricherState) (found : Option Pod)
      (key : String) (ms : MetricSet) (s : EnricherState)
      → ((pod : Pod) → Kept key (add pod ms s))
      → Keyed key ms.labels
      → AllKeyed s.new_ms
      → Kept key (with_pod add found ms s)
  Kept-with_pod add none key ms s k h a = (h, a)
  Kept-with_pod add (some pod) key ms s k h a = k pod

  Kept-enrich_set :
      (lister : Lister) (sets : Dict MetricSet) (key : String) (ms : MetricSet) (s : EnricherState)
      → Keyed key ms.labels
      → AllKeyed s.new_ms
      → Kept key (enrich_set lister copier sets key ms s)
  unfolding enrich_set
  Kept-enrich_set lister sets key ms s h a =
      let kind = label_of label_metric_set_type.key ms in
      let found = lister (label_of label_namespace_name.key ms) (label_of label_pod_name.key ms) in
      elim (Bool-cases (str_eq kind metric_set_type_pod)) [
        | inl q ↦ rw q (
            Kept-with_pod (add_pod_info copier sets) found key ms s
              (λ pod. Kept-pod sets key pod ms s h a) h a)
        | inr q ↦ elim (Bool-cases (str_eq kind metric_set_type_pod_container)) [
          | inl p ↦
              rw (q, p)
                (Kept-with_pod (add_container_info copier sets key) found key ms s
                  (λ pod. Kept-container sets key pod ms s h a) h a)
          | inr p ↦ rw (q, p) (h, a)
        ]
      ]

  AllKeyed-enrich_sets :
      (lister : Lister) (sets es : Dict MetricSet) (s : EnricherState)
      → AllKeyed es
      → AllKeyed s.new_ms
      → AllKeyed (enrich_sets lister copier sets es s).0
        × AllKeyed (enrich_sets lister copier sets es s).1.new_ms
  unfolding enrich_sets
  AllKeyed-enrich_sets lister sets [] s h a = (tt, a)
  AllKeyed-enrich_sets lister sets ((key, ms) ∷ es) s h a =
      let (k, a1) = Kept-enrich_set lister sets key ms s h.0 a in
      let (rest, a2) =
        AllKeyed-enrich_sets lister sets es (enrich_set lister copier sets key ms s).1 h.1 a1 in
      ((k, rest), a2)

-- `Process` keeps every set of a batch under the key that its labels name, and puts every set that it
-- makes under such a key too, whatever pods the lister finds. No label of a pod is stored under the
-- name of a label that names a set.
pub pod_enricher_process-AllKeyed :
    (lister : Lister) (copier : LabelCopier) (table : Dict Metric) (batch : DataBatch)
    → KeepsKeys copier
    → AllKeyed batch.metric_sets
    → AllKeyed (pod_enricher_process lister copier table batch).0.metric_sets
unfolding pod_enricher_process
pod_enricher_process-AllKeyed lister copier table batch keeps h =
    let (kept, made) =
      AllKeyed-enrich_sets copier keeps lister batch.metric_sets batch.metric_sets
        (record { new_ms = []; table = table }) h tt in
    AllKeyed-insert_all _ _ made kept
