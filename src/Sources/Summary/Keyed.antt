-- ===== src/Sources/Summary/Keyed.antt =====
-- metrics/sources/summary/summary.go: the sets of a decoded summary against their keys.
use heapster.Common.{
  String, List, [], ◌∷◌, Option, none, some, true, false, Bool-cases, inl, inr, ◌≡◌, refl, ◌∙◌,
  Distinct, ap, sym,
}
use heapster.Common.Dict.{
  Dict, lookup, insert, keys, lookup-insert, lookup-insert_all, Distinct-keys-insert,
  Distinct-keys-insert_all, or_else,
}
use heapster.Common.Result.{ok, >>=-eq-ok, ok_injective}
use heapster.Common.Time.{Time}
use heapster.Core.Keyed.{
  Keyed, of_node, of_pod, of_container, of_system_container, AllKeyed, AllKeyed-insert,
}
use heapster.Core.Keys.{pod_key, pod_container_key, node_key, node_container_key}
use heapster.Core.Labels.{
  label_metric_set_type, label_nodename, label_namespace_name, label_pod_name,
  metric_set_type_system_container,
}
use heapster.Core.Values.{MetricSet}
use heapster.Sources.Stats.{ContainerStats, PodReference, PodStats, NodeStats, Summary}
use heapster.Sources.Summary.{
  NodeInfo, clone_labels, get_system_container_name, container_set, decode_container_stats,
  pod_labels, pod_set, is_outdated, decode_containers, decode_pod_stats, decode_system_containers,
  decode_node_stats, decode_pods, base_labels, decode_summary, bare_node_set,
}
use heapster.Sources.Summary.Heads.{
  head-decode_container_stats, labels-head, labels-pod_set, labels-node_set,
}

or_else-none : (o : Option String) → or_else o none ≡ o
or_else-none none = refl
or_else-none (some s) = refl

lookup-clone_labels :
    (labels : Dict String) (k : String)
    → Distinct (keys labels)
    → lookup k (clone_labels labels) ≡ lookup k labels
unfolding clone_labels lookup
lookup-clone_labels labels k d = lookup-insert_all labels [] k d ∙ or_else-none (lookup k labels)

Distinct-pod_labels :
    (node_labels : Dict String) (ref : PodReference) → Distinct (keys (pod_labels node_labels ref))
unfolding pod_labels clone_labels
Distinct-pod_labels node_labels ref = Distinct-keys-insert _ _ _ (
    Distinct-keys-insert _ _ _ (
      Distinct-keys-insert _ _ _
        (Distinct-keys-insert _ _ _ (Distinct-keys-insert_all node_labels [] tt))))

Keyed-pod :
    (node_labels : Dict String) (ref : PodReference)
    → Keyed (pod_key ref.namespace ref.name) (pod_labels node_labels ref)
unfolding pod_labels
Keyed-pod node_labels ref = of_pod (simp lookup-insert) (simp lookup-insert)

Keyed-container :
    (node_labels : Dict String) (ref : PodReference) (c : ContainerStats)
    → Keyed
        (pod_container_key ref.namespace ref.name c.name)
        (container_set (pod_labels node_labels ref) c false).labels
unfolding container_set pod_labels
Keyed-container node_labels ref c =
    let d = Distinct-pod_labels node_labels ref in
    let kept = λ (k : String). lookup-clone_labels (pod_labels node_labels ref) k d in
    of_container (simp lookup-insert)
      (simp (lookup-insert, kept label_namespace_name.key, kept label_pod_name.key))

-- A system container's labels, once its kind is written over.
Keyed-system_container :
    (labels : Dict String) (node_name : String) (c : ContainerStats)
    → Distinct (keys labels)
    → lookup label_nodename.key labels ≡ some node_name
    → Keyed (node_container_key node_name (get_system_container_name c)) (
        insert label_metric_set_type.key metric_set_type_system_container
          (container_set labels c true).labels)
unfolding container_set
Keyed-system_container labels node_name c d named =
    of_system_container (simp lookup-insert)
      (simp (lookup-insert, lookup-clone_labels labels label_nodename.key d, named))

Keyed-node :
    (labels : Dict String) (node : NodeStats)
    → Distinct (keys labels)
    → lookup label_nodename.key labels ≡ some node.node_name
    → Keyed (node_key node.node_name) (bare_node_set labels node).labels
Keyed-node labels node d named =
    of_node (simp lookup-insert)
      (simp (lookup-insert, lookup-clone_labels labels label_nodename.key d, named))

module _ (now : Time) (labels : Dict String) where
  decode_containers-AllKeyed :
      (l : Dict String) (ref : PodReference) (cs : List ContainerStats) (sets : Dict MetricSet)
      {sets' : Dict MetricSet}
      → l ≡ pod_labels labels ref
      → decode_containers now l ref cs sets ≡ ok sets'
      → AllKeyed sets
      → AllKeyed sets'
  unfolding decode_containers
  decode_containers-AllKeyed l ref [] sets e h a = rw (← ok_injective h) a
  decode_containers-AllKeyed l ref (c ∷ cs) sets e h a =
      let key = pod_container_key ref.namespace ref.name c.name in
      elim (Bool-cases (is_outdated c (lookup key sets))) [
        | inl q ↦ decode_containers-AllKeyed l ref cs sets e (rw q at h) a
        | inr q ↦
            let (ms, decoded, rest) = >>=-eq-ok _ _ (rw q at h) in
            let same =
              labels-head (container_set l c false) ms
                (head-decode_container_stats now l c false decoded) in
            decode_containers-AllKeyed l ref cs (insert key ms sets) e rest
              (AllKeyed-insert key ms sets (rw (same, e) (Keyed-container labels ref c)) a)
      ]

  decode_pod_stats-AllKeyed :
      (pod : PodStats) (sets : Dict MetricSet) {sets' : Dict MetricSet}
      → decode_pod_stats now labels pod sets ≡ ok sets'
      → AllKeyed sets
      → AllKeyed sets'
  unfolding decode_pod_stats
  decode_pod_stats-AllKeyed pod sets h a =
      let ref = pod.pod_ref in
      let ms = pod_set now labels pod in
      let same = labels-pod_set now labels pod in
      decode_containers-AllKeyed ms.labels ref pod.containers
        (insert (pod_key ref.namespace ref.name) ms sets) same h
        (AllKeyed-insert (pod_key ref.namespace ref.name) ms sets (rw same (Keyed-pod labels ref))
          a)

  decode_pods-AllKeyed :
      (pods : List PodStats) (sets : Dict MetricSet) {sets' : Dict MetricSet}
      → decode_pods now labels pods sets ≡ ok sets'
      → AllKeyed sets
      → AllKeyed sets'
  unfolding decode_pods
  decode_pods-AllKeyed [] sets h a = rw (← ok_injective h) a
  decode_pods-AllKeyed (pod ∷ pods) sets h a =
      let (next, r, rest) = >>=-eq-ok (decode_pod_stats now labels pod sets) _ h in
      decode_pods-AllKeyed pods next rest (decode_pod_stats-AllKeyed pod sets r a)

  decode_system_containers-AllKeyed :
      (node_name : String) (cs : List ContainerStats) (sets : Dict MetricSet)
      {sets' : Dict MetricSet}
      → Distinct (keys labels)
      → lookup label_nodename.key labels ≡ some node_name
      → decode_system_containers now labels node_name cs sets ≡ ok sets'
      → AllKeyed sets
      → AllKeyed sets'
  unfolding decode_system_containers
  decode_system_containers-AllKeyed node_name [] sets d named h a = rw (← ok_injective h) a
  decode_system_containers-AllKeyed node_name (c ∷ cs) sets d named h a =
      let (ms, decoded, rest) = >>=-eq-ok (decode_container_stats now labels c true) _ h in
      let same =
        labels-head (container_set labels c true) ms
          (head-decode_container_stats now labels c true decoded) in
      decode_system_containers-AllKeyed node_name cs _ d named rest
        (AllKeyed-insert _ _ sets (rw same (Keyed-system_container labels node_name c d named)) a)

base_labels-Distinct : (node : NodeInfo) → Distinct (keys (base_labels node))
base_labels-Distinct node = (refl, (refl, (refl, tt)))

base_labels-nodename :
    (node : NodeInfo) → lookup label_nodename.key (base_labels node) ≡ some node.node_name
unfolding lookup
base_labels-nodename node = refl

-- Where the kubelet reports its node under the name that the node has in the API, every set of a
-- decoded summary stands under the key that its labels name: the node's, a system container's, a
-- pod's or a container's of a pod. The keys take the kubelet's name, and the labels the API's.
pub decode_summary-AllKeyed :
    (now : Time) (node : NodeInfo) (summary : Summary) {sets : Dict MetricSet}
    → summary.node.node_name ≡ node.node_name
    → decode_summary now node summary ≡ ok sets
    → AllKeyed sets
unfolding decode_summary decode_node_stats insert
decode_summary-AllKeyed now node summary same h =
    let labels = base_labels node in
    let stats = summary.node in
    let d = base_labels-Distinct node in
    let named = base_labels-nodename node ∙ ap some (sym same) in
    let (metrics, r, rest) = >>=-eq-ok (decode_node_stats now labels stats []) _ h in
    decode_pods-AllKeyed now labels summary.pods metrics rest (
      decode_system_containers-AllKeyed now labels stats.node_name stats.system_containers _ d named
        r (rw (labels-node_set now labels stats) (Keyed-node labels stats d named), tt))
