-- ===== src/Processors/Sound/Aggregators.antt =====
-- metrics/processors/*_aggregator.go: the aggregators keep every set under the key that its labels
-- name, each key once.
use heapster.Common.{
  String, List, [], ◌∷◌, Option-cases, Bool-cases, inl, inr, ◌≡◌, refl, subst, str_eq,
}
use heapster.Common.Dict.{Dict, lookup, insert, keys}
use heapster.Common.Int64.{FloatOps}
use heapster.Common.Result.{ok, >>=-eq-ok, ok_injective}
use heapster.Core.Keyed.{of_namespace, of_cluster, AllKeyed, AllKeyed-insert}
use heapster.Core.Keyed.Sound.{Sound, Keyed-lookup, Sound-insert, Sound-insert_all, Sound-values}
use heapster.Core.Keys.{node_key, namespace_key, cluster_key}
use heapster.Core.Labels.{
  label_namespace_name, label_nodename, label_pod_namespace_uid, metric_set_type_pod,
}
use heapster.Core.Values.{MetricSet, DataBatch}
use heapster.Processors.Aggregate.{aggregate}
use heapster.Processors.Cluster.{cluster_metric_set, cluster_loop, cluster_process}
use heapster.Processors.Labels.{has_kind, label_of}
use heapster.Processors.Namespace.{
  namespace_metric_set, NamespaceState, into_namespace, namespace_visit, namespace_loop,
  namespace_process,
}
use heapster.Processors.Node.{into_node, node_visit, node_loop, node_process}

Sound-into_node :
    (f : FloatOps) (metrics : List String) (pod : MetricSet) (key : String) (sets : Dict MetricSet)
    {sets' : Dict MetricSet}
    → into_node f metrics pod key sets ≡ ok sets'
    → Sound sets
    → Sound sets'
unfolding into_node
Sound-into_node f metrics pod key sets h s = elim (Option-cases (lookup key sets)) [
  | inl e ↦ subst Sound (ok_injective (rw (e, into_node) at h)) s
  | inr (node, e) ↦
      let (values, r, e') =
        >>=-eq-ok (aggregate f pod.metric_values node.metric_values metrics)
          (λ values. ok (insert key (record node { metric_values = values }) sets))
          (rw (e, into_node) at h) in
      subst Sound (ok_injective e') (Sound-values key node values sets e s)
]

Sound-node_visit :
    (f : FloatOps) (metrics : List String) (ms : MetricSet) (sets : Dict MetricSet)
    {sets' : Dict MetricSet}
    → node_visit f metrics ms sets ≡ ok sets'
    → Sound sets
    → Sound sets'
unfolding node_visit
Sound-node_visit f metrics ms sets h s = elim (Bool-cases (has_kind metric_set_type_pod ms)) [
  | inr q ↦ subst Sound (ok_injective (rw q at h)) s
  | inl q ↦ elim (Bool-cases (str_eq (label_of label_nodename.key ms) "")) [
    | inl p ↦ subst Sound (ok_injective (rw (q, p) at h)) s
    | inr p ↦
        Sound-into_node f metrics ms (node_key (label_of label_nodename.key ms)) sets
          (rw (q, p) at h) s
  ]
]

Sound-node_loop :
    (f : FloatOps) (metrics ks : List String) (sets : Dict MetricSet) {sets' : Dict MetricSet}
    → node_loop f metrics ks sets ≡ ok sets'
    → Sound sets
    → Sound sets'
unfolding node_loop
Sound-node_loop f metrics [] sets h s = subst Sound (ok_injective h) s
Sound-node_loop f metrics (key ∷ ks) sets h s = elim (Option-cases (lookup key sets)) [
  | inl e ↦ Sound-node_loop f metrics ks sets (rw (e, node_loop) at h) s
  | inr (ms, e) ↦
      let (sets1, visit, rest) =
        >>=-eq-ok (node_visit f metrics ms sets) (node_loop f metrics ks)
          (rw (e, node_loop) at h) in
      Sound-node_loop f metrics ks sets1 rest (Sound-node_visit f metrics ms sets visit s)
]

pub Sound-node_process :
    (f : FloatOps) (metrics : List String) (batch : DataBatch) {batch' : DataBatch}
    → node_process f metrics batch ≡ ok batch'
    → Sound batch.metric_sets
    → Sound batch'.metric_sets
unfolding node_process
Sound-node_process f metrics batch h s =
    let (sets, loop, e) =
      >>=-eq-ok (node_loop f metrics (keys batch.metric_sets) batch.metric_sets) _ h in
    subst (λ (b : DataBatch). Sound b.metric_sets) (ok_injective e)
      (Sound-node_loop f metrics (keys batch.metric_sets) batch.metric_sets loop s)

pub Sound-cluster_process :
    (f : FloatOps) (metrics : List String) (batch : DataBatch) {batch' : DataBatch}
    → cluster_process f metrics batch ≡ ok batch'
    → Sound batch.metric_sets
    → Sound batch'.metric_sets
unfolding cluster_process cluster_metric_set lookup
Sound-cluster_process f metrics batch h s =
    let (values, loop, e) =
      >>=-eq-ok (cluster_loop f metrics batch.metric_sets cluster_metric_set.metric_values)
        (λ values. ok (record batch {
          metric_sets =
              insert cluster_key (record cluster_metric_set { metric_values = values })
                batch.metric_sets;
        }))
        h in
    subst (λ (b : DataBatch). Sound b.metric_sets) (ok_injective e)
      (Sound-insert cluster_key (record cluster_metric_set { metric_values = values })
        batch.metric_sets (of_cluster refl refl) s)

-- The state of the namespaces' loop: the sets made so far are under their keys too.
abbrev SoundState : NamespaceState → Type 0
SoundState s = AllKeyed s.namespaces × Sound s.sets

Sound-into_namespace :
    (f : FloatOps) (metrics : List String) (pod : MetricSet) (name : String) (s : NamespaceState)
    {s' : NamespaceState}
    → into_namespace f metrics pod name s ≡ ok s'
    → SoundState s
    → SoundState s'
unfolding into_namespace namespace_metric_set lookup
Sound-into_namespace f metrics pod name s h (a, sound) =
    let key = namespace_key name in
    elim (Option-cases (lookup key s.namespaces)) [
      | inr (ns, e) ↦
          let (values, r, e') =
            >>=-eq-ok (aggregate f pod.metric_values ns.metric_values metrics) _
              (rw (e, into_namespace) at h) in
          subst SoundState (ok_injective e') (
            AllKeyed-insert key (record ns { metric_values = values }) s.namespaces
                (Keyed-lookup key s.namespaces e a) a,
            sound,
          )
      | inl e ↦ elim (Option-cases (lookup key s.sets)) [
        | inr (ns, g) ↦
            let (values, r, e') =
              >>=-eq-ok (aggregate f pod.metric_values ns.metric_values metrics) _
                (rw (e, g, into_namespace) at h) in
            subst SoundState (ok_injective e') (a, Sound-values key ns values s.sets g sound)
        | inl g ↦
            let ns = namespace_metric_set name (label_of label_pod_namespace_uid.key pod) in
            let (values, r, e') =
              >>=-eq-ok (aggregate f pod.metric_values ns.metric_values metrics) _
                (rw (e, g, into_namespace) at h) in
            subst SoundState (ok_injective e') (
              AllKeyed-insert key (record ns { metric_values = values }) s.namespaces
                  (of_namespace refl refl) a,
              sound,
            )
      ]
    ]

Sound-namespace_visit :
    (f : FloatOps) (metrics : List String) (ms : MetricSet) (s : NamespaceState)
    {s' : NamespaceState}
    → namespace_visit f metrics ms s ≡ ok s'
    → SoundState s
    → SoundState s'
unfolding namespace_visit
Sound-namespace_visit f metrics ms s h a = elim (Bool-cases (has_kind metric_set_type_pod ms)) [
  | inr q ↦ subst SoundState (ok_injective (rw q at h)) a
  | inl q ↦ elim (Option-cases (lookup label_namespace_name.key ms.labels)) [
    | inl e ↦ subst SoundState (ok_injective (rw (q, e) at h)) a
    | inr (name, e) ↦ Sound-into_namespace f metrics ms name s (rw (q, e) at h) a
  ]
]

Sound-namespace_loop :
    (f : FloatOps) (metrics ks : List String) (s : NamespaceState) {s' : NamespaceState}
    → namespace_loop f metrics ks s ≡ ok s'
    → SoundState s
    → SoundState s'
unfolding namespace_loop
Sound-namespace_loop f metrics [] s h a = subst SoundState (ok_injective h) a
Sound-namespace_loop f metrics (key ∷ ks) s h a = elim (Option-cases (lookup key s.sets)) [
  | inl e ↦ Sound-namespace_loop f metrics ks s (rw (e, namespace_loop) at h) a
  | inr (ms, e) ↦
      let (s1, visit, rest) =
        >>=-eq-ok (namespace_visit f metrics ms s) (namespace_loop f metrics ks)
          (rw (e, namespace_loop) at h) in
      Sound-namespace_loop f metrics ks s1 rest (Sound-namespace_visit f metrics ms s visit a)
]

pub Sound-namespace_process :
    (f : FloatOps) (metrics : List String) (batch : DataBatch) {batch' : DataBatch}
    → namespace_process f metrics batch ≡ ok batch'
    → Sound batch.metric_sets
    → Sound batch'.metric_sets
unfolding namespace_process
Sound-namespace_process f metrics batch h s =
    let start : NamespaceState = record { namespaces = []; sets = batch.metric_sets } in
    let (end, loop, e) = >>=-eq-ok (namespace_loop f metrics (keys batch.metric_sets) start) _ h in
    let (made, sound) =
      Sound-namespace_loop f metrics (keys batch.metric_sets) start loop (tt, s) in
    subst (λ (b : DataBatch). Sound b.metric_sets) (ok_injective e)
      (Sound-insert_all end.namespaces end.sets made sound)
