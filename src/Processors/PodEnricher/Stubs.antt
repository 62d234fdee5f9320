-- ===== src/Processors/PodEnricher/Stubs.antt =====
-- metrics/processors/pod_based_enricher.go: the sets that are made for pods and containers.
use heapster.Common.{
  String, List, [], ◌∷◌, true, Bool, Bool-cases, inl, inr, ◌≡◌, refl, str_eq_refl, ◌||◌, All, arith,
}
use heapster.Common.Dict.{Dict, lookup, insert, is_some, is_some-insert}
use heapster.Core.Keys.{pod_key, pod_container_key}
use heapster.Core.Labels.{label_pod_name, label_namespace_name}
use heapster.Core.Values.{MetricSet}
use heapster.Processors.Labels.{label_of}
use heapster.Processors.PodEnricher.{
  Container, Pod, EnricherState, put_stub, add_container_stub, add_container_stubs, pod_info,
  pod_stub, add_pod_stub,
}
use heapster.Util.LabelCopier.{LabelCopier}

-- A set stands under the key, in the batch or among the new ones.
abbrev pub has : Dict MetricSet → EnricherState → String → Bool
has sets s key = is_some (lookup key sets) || is_some (lookup key s.new_ms)

abbrev pub Grows : EnricherState → EnricherState → Type 0
Grows s s' =
    (key : String) → is_some (lookup key s.new_ms) ≡ true → is_some (lookup key s'.new_ms) ≡ true

module _ (copier : LabelCopier) (sets : Dict MetricSet) where
  pub has-Grows :
      (s s' : EnricherState) (key : String)
      → Grows s s'
      → has sets s key ≡ true
      → has sets s' key ≡ true
  has-Grows s s' key g h = ground (arith, g key, h)

  Grows-container_stub :
      (pod : Pod) (pod_ms : MetricSet) (c : Container) (s : EnricherState)
      → Grows s (add_container_stub copier sets pod pod_ms c s)
  unfolding add_container_stub put_stub
  Grows-container_stub pod pod_ms c s k h =
      let key = pod_container_key pod.namespace pod.name c.name in
      elim (Bool-cases (has sets s key)) [
        | inl q ↦ rw q h
        | inr q ↦ rw (q, is_some-insert) (ground (arith, h))
      ]

  has-container_stub :
      (pod : Pod) (pod_ms : MetricSet) (c : Container) (s : EnricherState)
      → has sets
          (add_container_stub copier sets pod pod_ms c s)
          (pod_container_key pod.namespace pod.name c.name)
        ≡ true
  unfolding add_container_stub put_stub
  has-container_stub pod pod_ms c s =
      let key = pod_container_key pod.namespace pod.name c.name in
      elim (Bool-cases (has sets s key)) [
        | inl q ↦ rw q q
        | inr q ↦ rw (q, is_some-insert, str_eq_refl key) (ground arith)
      ]

  pub Grows-container_stubs :
      (pod : Pod) (pod_ms : MetricSet) (cs : List Container) (s : EnricherState)
      → Grows s (add_container_stubs copier sets pod pod_ms cs s)
  unfolding add_container_stubs
  Grows-container_stubs pod pod_ms [] s k h = h
  Grows-container_stubs pod pod_ms (c ∷ cs) s k h =
      Grows-container_stubs pod pod_ms cs (add_container_stub copier sets pod pod_ms c s) k
        (Grows-container_stub pod pod_ms c s k h)

  -- Every container of the list has a set.
  pub has-container_stubs :
      (pod : Pod) (pod_ms : MetricSet) (cs : List Container) (s : EnricherState)
      → All
          (λ (c : Container).
            has sets
              (add_container_stubs copier sets pod pod_ms cs s)
              (pod_container_key pod.namespace pod.name c.name)
            ≡ true)
          cs
  unfolding add_container_stubs
  has-container_stubs pod pod_ms [] s = tt
  has-container_stubs pod pod_ms (c ∷ cs) s =
      let key = pod_container_key pod.namespace pod.name c.name in
      let s' = add_container_stub copier sets pod pod_ms c s in
      let after = add_container_stubs copier sets pod pod_ms cs s' in
      (
        has-Grows s' after key (Grows-container_stubs pod pod_ms cs s')
            (has-container_stub pod pod_ms c s),
        has-container_stubs pod pod_ms cs s',
      )

  pub Grows-pod_stub :
      (pod : Pod) (ms : MetricSet) (s : EnricherState) → Grows s (add_pod_stub copier sets pod ms s)
  unfolding add_pod_stub
  Grows-pod_stub pod ms s k h =
      let key = pod_key (label_of label_namespace_name.key ms) (label_of label_pod_name.key ms) in
      let pod_ms = pod_info copier pod (pod_stub pod ms) in
      elim (Bool-cases (has sets s key)) [
        | inl q ↦ rw q h
        | inr q ↦ rw q (
            Grows-container_stubs pod pod_ms pod.containers
              (record s { new_ms = insert key pod_ms s.new_ms }) k
              (rw is_some-insert (ground (arith, h))))
      ]

  pub has-pod_stub :
      (pod : Pod) (ms : MetricSet) (s : EnricherState)
      → has sets
          (add_pod_stub copier sets pod ms s)
          (pod_key (label_of label_namespace_name.key ms) (label_of label_pod_name.key ms))
        ≡ true
  unfolding add_pod_stub
  has-pod_stub pod ms s =
      let key = pod_key (label_of label_namespace_name.key ms) (label_of label_pod_name.key ms) in
      let pod_ms = pod_info copier pod (pod_stub pod ms) in
      elim (Bool-cases (has sets s key)) [
        | inl q ↦ rw q q
        | inr q ↦
            let more =
              Grows-container_stubs pod pod_ms pod.containers
                (record s { new_ms = insert key pod_ms s.new_ms }) key
                (rw (is_some-insert, str_eq_refl key) refl) in
            rw q (ground (arith, more))
      ]
