-- ===== src/Processors/Sound/Pods.antt =====
-- metrics/processors/pod_aggregator.go: the pod aggregator keeps every set under the key that its
-- labels name, each key once.
use heapster.Common.{
  String, List, [], ◌∷◌, Option, none, some, Option-cases, Bool-cases, inl, inr, ◌≡◌, subst, str_eq,
  if◌then◌else◌, arith,
}
use heapster.Common.Dict.{Dict, lookup, keys, value_or, or_else, lookup-insert}
use heapster.Common.Int64.{FloatOps}
use heapster.Common.Result.{ok, >>=-eq-ok, ok_injective}
use heapster.Core.Keyed.{Keyed, of_pod, AllKeyed, AllKeyed-insert}
use heapster.Core.Keyed.Sound.{Sound, Keyed-lookup, Sound-insert_all, Sound-values}
use heapster.Core.Keys.{pod_key}
use heapster.Core.Labels.{label_namespace_name, label_pod_name, metric_set_type_pod_container}
use heapster.Core.Values.{MetricSet, DataBatch}
use heapster.Processors.Labels.{has_kind}
use heapster.Processors.Pod.{
  populate_one, populate, pod_metric_set, add_metrics, PodState, into_pod, container_visit,
  container_loop, pod_process,
}

lookup-populate_one :
    (k key : String) (o : Option String) (out : Dict String)
    → lookup k (populate_one key o out)
      ≡ (if str_eq key k then or_else o (lookup k out) else lookup k out)
lookup-populate_one k key none out = ground arith
lookup-populate_one k key (some v) out = lookup-insert k key v out

-- The set made for a container's pod stands under the pod's key.
Keyed-pod_metric_set :
    (labels : Dict String) (ns name : String)
    → lookup label_namespace_name.key labels ≡ some ns
    → lookup label_pod_name.key labels ≡ some name
    → Keyed (pod_key ns name) (pod_metric_set labels).labels
unfolding pod_metric_set populate lookup
Keyed-pod_metric_set labels ns name e g =
    of_pod (simp lookup-populate_one) (simp (lookup-populate_one, e, g))

-- The state of the containers' loop.
abbrev SoundPods : PodState → Type 0
SoundPods s = AllKeyed s.new_pods × Sound s.sets

Sound-into_pod :
    (f : FloatOps) (skipped : List String) (ms : MetricSet) (ns name : String) (s : PodState)
    {s' : PodState}
    → lookup label_namespace_name.key ms.labels ≡ some ns
    → lookup label_pod_name.key ms.labels ≡ some name
    → into_pod f skipped ms (pod_key ns name) s ≡ ok s'
    → SoundPods s
    → SoundPods s'
unfolding into_pod
Sound-into_pod f skipped ms ns name s hn hp h (a, sound) =
    let key = pod_key ns name in
    elim (Option-cases (lookup key s.sets)) [
      | inr (pod, e) ↦
          let (p, r, e') =
            >>=-eq-ok
              (add_metrics f skipped key ms.metric_values
                (record { values = pod.metric_values; require_aggregate = s.require_aggregate }))
              _ (rw (e, into_pod) at h) in
          subst SoundPods (ok_injective e') (a, Sound-values key pod p.values s.sets e sound)
      | inl e ↦
          let pod = value_or (pod_metric_set ms.labels) (lookup key s.new_pods) in
          let (p, r, e') =
            >>=-eq-ok
              (add_metrics f skipped key ms.metric_values
                (record { values = pod.metric_values; require_aggregate = s.require_aggregate }))
              _ (rw (e, into_pod) at h) in
          let keyed : Keyed key pod.labels = elim (Option-cases (lookup key s.new_pods)) [
            | inl g ↦ rw g (Keyed-pod_metric_set ms.labels ns name hn hp)
            | inr (old, g) ↦ rw g (Keyed-lookup key s.new_pods g a)
          ] in
          subst SoundPods (ok_injective e') (
            AllKeyed-insert key (record pod { metric_values = p.values }) s.new_pods keyed a,
            sound,
          )
    ]

Sound-container_visit :
    (f : FloatOps) (skipped : List String) (ms : MetricSet) (s : PodState) {s' : PodState}
    → container_visit f skipped ms s ≡ ok s'
    → SoundPods s
    → SoundPods s'
unfolding container_visit
Sound-container_visit f skipped ms s h a =
    elim (Bool-cases (has_kind metric_set_type_pod_container ms)) [
      | inr q ↦ subst SoundPods (ok_injective (rw q at h)) a
      | inl q ↦ elim (Option-cases (lookup label_namespace_name.key ms.labels)) [
        | inl e ↦ subst SoundPods (ok_injective (rw (q, e) at h)) a
        | inr (ns, e) ↦ elim (Option-cases (lookup label_pod_name.key ms.labels)) [
          | inl g ↦ subst SoundPods (ok_injective (rw (q, e, g) at h)) a
          | inr (name, g) ↦ Sound-into_pod f skipped ms ns name s e g (rw (q, e, g) at h) a
        ]
      ]
    ]

Sound-container_loop :
    (f : FloatOps) (skipped ks : List String) (s : PodState) {s' : PodState}
    → container_loop f skipped ks s ≡ ok s'
    → SoundPods s
    → SoundPods s'
unfolding container_loop
Sound-container_loop f skipped [] s h a = subst SoundPods (ok_injective h) a
Sound-container_loop f skipped (key ∷ ks) s h a = elim (Option-cases (lookup key s.sets)) [
  | inl e ↦ Sound-container_loop f skipped ks s (rw (e, container_loop) at h) a
  | inr (ms, e) ↦
      let (s1, visit, rest) =
        >>=-eq-ok (container_visit f skipped ms s) (container_loop f skipped ks)
          (rw (e, container_loop) at h) in
      Sound-container_loop f skipped ks s1 rest (Sound-container_visit f skipped ms s visit a)
]

pub Sound-pod_process :
    (f : FloatOps) (skipped : List String) (batch : DataBatch) {batch' : DataBatch}
    → pod_process f skipped batch ≡ ok batch'
    → Sound batch.metric_sets
    → Sound batch'.metric_sets
unfolding pod_process
Sound-pod_process f skipped batch h s =
    let start : PodState = record {
      new_pods = [];
      require_aggregate = [];
      sets = batch.metric_sets;
    } in
    let (end, loop, e) = >>=-eq-ok (container_loop f skipped (keys batch.metric_sets) start) _ h in
    let (made, sound) =
      Sound-container_loop f skipped (keys batch.metric_sets) start loop (tt, s) in
    subst (λ (b : DataBatch). Sound b.metric_sets) (ok_injective e)
      (Sound-insert_all end.new_pods end.sets made sound)
