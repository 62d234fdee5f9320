-- ===== src/Sources/Kubelet/Keyed.antt =====
-- metrics/sources/kubelet/kubelet.go: the sets of a scrape against their keys.
use heapster.Common.{
  String, List, [], ◌∷◌, Option, none, some, ◌||◌, Bool-cases, inl, inr, ◌≡◌, refl, str_eq, subst,
}
use heapster.Common.Dict.{Dict, lookup, lookup-insert}
use heapster.Common.Result.{Result, ok, >>=-eq-ok, ok_injective}
use heapster.Common.Time.{Time}
use heapster.Core.Keyed.{
  Keyed, of_node, of_pod, of_container, of_system_container, AllKeyed, AllKeyed-insert,
}
use heapster.Core.Values.{MetricSet, DataBatch}
use heapster.Sources.Nodes.{SourceNode}
use heapster.Sources.Kubelet.{
  label_text, container_name_of, namespace_and_pod, handle_system_container,
  handle_kubernetes_container, source_labels, container_key_and_labels, key_and_labels,
  decode_sample, decode_samples, decode_metrics, put_set, decode_all, kubelet_scrape_metrics,
}
use heapster.Sources.Kubelet.Values.{ContainerInfo, Sample, decode_values}

abbrev Labelled : String × Dict String → Type 0
Labelled kl = Keyed kl.0 kl.1

Labelled-system :
    (node : SourceNode) (c : ContainerInfo)
    → Labelled (handle_system_container node c (source_labels node))
unfolding handle_system_container lookup
Labelled-system node c = of_system_container (simp lookup-insert) (simp lookup-insert)

Labelled-kubernetes :
    (name ns pod_name : String) (c : ContainerInfo) (labels : Dict String)
    → Labelled (handle_kubernetes_container name ns pod_name c labels)
unfolding handle_kubernetes_container
Labelled-kubernetes name ns pod_name c labels = elim (Bool-cases (str_eq name "POD")) [
  | inl q ↦ rw q (of_pod (simp lookup-insert) (simp lookup-insert))
  | inr q ↦ rw q (of_container (simp lookup-insert) (simp lookup-insert))
]

Labelled-container :
    (node : SourceNode) (c : ContainerInfo) (name : String) (np : String × String)
    → Labelled (container_key_and_labels node c name np)
unfolding container_key_and_labels
Labelled-container node c name (ns, pod_name) =
    elim (Bool-cases (str_eq name "" || (str_eq ns "" || str_eq pod_name ""))) [
      | inl q ↦ rw q (Labelled-system node c)
      | inr q ↦ rw q (Labelled-kubernetes name ns pod_name c (source_labels node))
    ]

Labelled-node :
    (node : SourceNode) (c : ContainerInfo) {kl : String × Dict String}
    → key_and_labels node c ≡ ok kl
    → Labelled kl
unfolding key_and_labels lookup
Labelled-node node c {kl} h = elim (Bool-cases (str_eq c.name "/")) [
  | inl q ↦
      subst Labelled (ok_injective (rw q at h)) (of_node (simp lookup-insert) (simp lookup-insert))
  | inr q ↦
      let np =
        namespace_and_pod (label_text "io.kubernetes.pod.namespace" c)
          (label_text "io.kubernetes.pod.name" c) in
      let (name, r, e) =
        >>=-eq-ok (container_name_of c (label_text "io.kubernetes.container.name" c))
          (λ x. ok (container_key_and_labels node c x np)) (rw q at h) in
      subst Labelled (ok_injective e) (Labelled-container node c name np)
]

-- A decoded container stands under the key that its labels name.
decode_sample-Keyed :
    (now : Time) (node : SourceNode) (c : ContainerInfo) (sample : Sample)
    {set : String × MetricSet}
    → decode_sample now node c sample ≡ ok set
    → Keyed set.0 set.1.labels
unfolding decode_sample decode_values
decode_sample-Keyed now node c sample {set} h =
    let (kl, r, e) = >>=-eq-ok _ _ h in
    subst (λ (s : String × MetricSet). Keyed s.0 s.1.labels) (ok_injective e)
      (Labelled-node node c r)

KeyedOption : Option (String × MetricSet) → Type 0
KeyedOption none = Unit
KeyedOption (some (key, ms)) = Keyed key ms.labels

decode_samples-Keyed :
    (now : Time) (node : SourceNode) (c : ContainerInfo) (samples : List Sample)
    {set : Option (String × MetricSet)}
    → decode_samples now node c samples ≡ ok set
    → KeyedOption set
unfolding decode_samples KeyedOption
decode_samples-Keyed now node c [] h = subst KeyedOption (ok_injective h) tt
decode_samples-Keyed now node c (sample ∷ older) h =
    let (set, r, e) = >>=-eq-ok _ _ h in
    subst KeyedOption (ok_injective e) (decode_sample-Keyed now node c sample r)

AllKeyed-put_set :
    (set : Option (String × MetricSet)) (sets : Dict MetricSet)
    → KeyedOption set
    → AllKeyed sets
    → AllKeyed (put_set set sets)
unfolding KeyedOption
AllKeyed-put_set none sets h a = a
AllKeyed-put_set (some (name, ms)) sets h a = elim (Bool-cases (str_eq name "")) [
  | inl q ↦ rw q a
  | inr q ↦ rw q (AllKeyed-insert name ms sets h a)
]

decode_all-AllKeyed :
    (now : Time) (node : SourceNode) (cs : List ContainerInfo) (sets : Dict MetricSet)
    {sets' : Dict MetricSet}
    → decode_all now node cs sets ≡ ok sets'
    → AllKeyed sets
    → AllKeyed sets'
unfolding decode_all decode_metrics
decode_all-AllKeyed now node [] sets h a = rw (← ok_injective h) a
decode_all-AllKeyed now node (c ∷ cs) sets h a =
    let (set, r, rest) = >>=-eq-ok _ _ h in
    decode_all-AllKeyed now node cs (put_set set sets) rest
      (AllKeyed-put_set set sets (decode_samples-Keyed now node c c.stats r) a)

-- Whatever containers a kubelet reports, every set of a scrape stands under the key that its labels
-- name, and the batch has the end of the window for its timestamp.
pub kubelet_scrape_metrics-AllKeyed :
    (now : Time) (node : SourceNode) (end : Time) (fetched : Result (List ContainerInfo))
    {batch : DataBatch}
    → kubelet_scrape_metrics now node end fetched ≡ ok batch
    → AllKeyed batch.metric_sets × (batch.timestamp ≡ end)
unfolding kubelet_scrape_metrics
kubelet_scrape_metrics-AllKeyed now node end fetched h =
    let (containers, f, h') = >>=-eq-ok fetched _ h in
    let (sets, r, e) = >>=-eq-ok (decode_all now node containers []) _ h' in
    subst (λ (b : DataBatch). AllKeyed b.metric_sets × (b.timestamp ≡ end)) (ok_injective e)
      (decode_all-AllKeyed now node containers [] r tt, refl)
