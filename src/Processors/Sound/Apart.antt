-- ===== src/Processors/Sound/Apart.antt =====
-- metrics/processors: in a batch whose sets stand under their keys, no pod takes the place of a node or
-- of a namespace.
use heapster.Common.{
  String, List, [], ◌∷◌, Option, none, some, true, false, Bool-cases, inl, inr, ◌≡◌, refl, ◌∙◌, sym,
  str_eq, str_eq_iff, Distinct, All, ◌&&◌, arith,
}
use heapster.Common.Dict.{Dict, lookup}
use heapster.Core.Keyed.{
  Keyed, of_node, of_pod, of_container, of_system_container, of_namespace, of_cluster, AllKeyed,
  is_of_kind,
}
use heapster.Core.Keyed.Apart.{has_slash, pod_key-ne-node_key, pod_key-ne-namespace_key}
use heapster.Core.Keys.{pod_key}
use heapster.Core.Labels.{
  label_metric_set_type, label_nodename, label_namespace_name, metric_set_type_pod,
  metric_set_type_node, metric_set_type_pod_container, metric_set_type_system_container,
  metric_set_type_namespace, metric_set_type_cluster,
}
use heapster.Core.Keyed.Sound.{Sound}
use heapster.Common.Int64.{FloatOps}
use heapster.Common.Result.{ok}
use heapster.Core.Values.{MetricSet, DataBatch}
use heapster.Processors.Node.{node_process}
use heapster.Processors.Namespace.{namespace_process}
use heapster.Processors.Labels.{is_kind, has_kind, label_of}
use heapster.Processors.Node.Pods as OnNode
use heapster.Processors.Namespace.Pods.{is_pod, is_pod_in}
use heapster.Processors.Namespace.Total as InNamespace

kinds_eq : (o : Option String) (j k : String) → is_kind j o ≡ true → is_kind k o ≡ true → j ≡ k
kinds_eq (some t) j k h h' = sym ((str_eq_iff t j).0 h) ∙ (str_eq_iff t k).0 h'
kinds_eq none j k h h' = absurd (ground (arith, h))

other_kind :
    (labels : Dict String) (kind : String)
    → str_eq kind metric_set_type_pod ≡ false
    → is_of_kind kind labels ≡ true
    → is_of_kind metric_set_type_pod labels ≡ true
    → ⊥
other_kind labels kind ne h h' =
    let e = kinds_eq (lookup label_metric_set_type.key labels) kind metric_set_type_pod h h' in
    let same = (str_eq_iff kind metric_set_type_pod).1 e in absurd (ground (arith, same, ne))

-- A pod's set stands under a pod's key.
pod-key :
    {key : String} (labels : Dict String)
    → Keyed key labels
    → is_of_kind metric_set_type_pod labels ≡ true
    → (ns : String) × (name : String) × (key ≡ pod_key ns name)
pod-key labels (of_pod k e) h = (_, _, e)
pod-key labels (of_node k e) h = absurd (other_kind labels metric_set_type_node refl k h)
pod-key labels (of_container k e) h =
    absurd (other_kind labels metric_set_type_pod_container refl k h)
pod-key labels (of_system_container k e) h =
    absurd (other_kind labels metric_set_type_system_container refl k h)
pod-key labels (of_namespace k e) h = absurd (other_kind labels metric_set_type_namespace refl k h)
pod-key labels (of_cluster k e) h = absurd (other_kind labels metric_set_type_cluster refl k h)

apart_on :
    (pod : MetricSet) (key : String) (ms : MetricSet)
    → Keyed key ms.labels
    → (is_pod ms && OnNode.is_pod_on key pod) ≡ false
unfolding has_kind
apart_on pod key ms h = elim (Bool-cases (is_pod ms)) [
  | inr p ↦ rw p refl
  | inl p ↦
      let (ns, name, e) = pod-key ms.labels h p in
      let ne = pod_key-ne-node_key ns name (label_of label_nodename.key pod) in
      rw e (ground (arith, ne))
]

apart_in :
    (pod : MetricSet) (key : String) (ms : MetricSet)
    → has_slash (label_of label_namespace_name.key pod) ≡ false
    → Keyed key ms.labels
    → (is_pod ms && is_pod_in key pod) ≡ false
unfolding has_kind
apart_in pod key ms hs h = elim (Bool-cases (is_pod ms)) [
  | inr p ↦ rw p refl
  | inl p ↦
      let (ns, name, e) = pod-key ms.labels h p in
      let ne = pod_key-ne-namespace_key ns name (label_of label_namespace_name.key pod) hs in
      rw e (ground (arith, ne))
]

ApartFrom-keyed :
    (pod : MetricSet) (sets : Dict MetricSet) → AllKeyed sets → OnNode.ApartFrom pod sets
ApartFrom-keyed pod [] a = tt
ApartFrom-keyed pod ((key, ms) ∷ sets) a = (apart_on pod key ms a.0, ApartFrom-keyed pod sets a.1)

ApartFromIn-keyed :
    (pod : MetricSet) (sets : Dict MetricSet)
    → has_slash (label_of label_namespace_name.key pod) ≡ false
    → AllKeyed sets
    → InNamespace.ApartFrom pod sets
ApartFromIn-keyed pod [] hs a = tt
ApartFromIn-keyed pod ((key, ms) ∷ sets) hs a =
    (apart_in pod key ms hs a.0, ApartFromIn-keyed pod sets hs a.1)

-- The name of no set's namespace has a slash, as Kubernetes sees to.
abbrev pub NoSlash : Dict MetricSet → Type 0
NoSlash = All (λ e. has_slash (label_of label_namespace_name.key e.1) ≡ false)

Apart-keyed : (sets : Dict MetricSet) → AllKeyed sets → OnNode.Apart sets
Apart-keyed [] a = tt
Apart-keyed ((key, ms) ∷ sets) a = (ApartFrom-keyed ms sets a.1, Apart-keyed sets a.1)

ApartIn-keyed : (sets : Dict MetricSet) → NoSlash sets → AllKeyed sets → InNamespace.Apart sets
ApartIn-keyed [] n a = tt
ApartIn-keyed ((key, ms) ∷ sets) n a =
    (ApartFromIn-keyed ms sets n.0 a.1, ApartIn-keyed sets n.1 a.1)

-- Where every set of a batch stands under the key that its labels name, each key once, and no metric
-- is chosen twice, the node aggregator, if it succeeds, gives every node the merge of its pods, and
-- changes nothing else of the sets of the batch.
pub node_process-Sound :
    (f : FloatOps) (metrics : List String) (batch : DataBatch) {batch' : DataBatch}
    → Distinct metrics
    → Sound batch.metric_sets
    → node_process f metrics batch ≡ ok batch'
    → (key : String)
    → OnNode.Aggregated f metrics key batch
        (lookup key batch.metric_sets)
        (lookup key batch'.metric_sets)
node_process-Sound f metrics batch d s h =
    (OnNode.node_process_lem f metrics batch d s.1 (Apart-keyed batch.metric_sets s.0) h).1

-- The same of the namespace aggregator, where no name of a namespace has a slash: every namespace of
-- a pod has a set afterwards, made where the batch has none, with the merge of its pods.
pub namespace_process-Sound :
    (f : FloatOps) (metrics : List String) (batch : DataBatch) {batch' : DataBatch}
    → Distinct metrics
    → Sound batch.metric_sets
    → NoSlash batch.metric_sets
    → namespace_process f metrics batch ≡ ok batch'
    → (key : String)
    → InNamespace.Aggregated f metrics key batch
        (InNamespace.origin key batch.metric_sets (lookup key batch.metric_sets))
        (lookup key batch'.metric_sets)
namespace_process-Sound f metrics batch d s n h =
    (InNamespace.namespace_process_lem f metrics batch d s.1 (ApartIn-keyed batch.metric_sets n s.0)
      h).1
