-- ===== src/Sources/Summary/Panics.antt =====
-- metrics/sources/summary/summary.go: when `decodeEphemeralStorageStatsForContainer` panics, and when
-- a whole summary is decoded.
use heapster.Common.{
  ℕ, String, List, [], ◌∷◌, Option, none, some, true, false, Bool, ◌&&◌, Bool-cases, inl, inr, ◌≡◌,
  refl, All,
}
use heapster.Common.Dict.{Dict, lookup, insert, is_some}
use heapster.Common.Result.{Result, ok, error, ◌>>=◌}
use heapster.Common.Time.{Time}
use heapster.Core.Keys.{pod_container_key, pod_key, node_key}
use heapster.Core.Values.{MetricSet}
use heapster.Sources.Stats.{FsStats, ContainerStats, PodReference, PodStats, Summary}
use heapster.Sources.Summary.{
  NodeInfo, decode_container_stats, is_outdated, decode_containers, decode_pod_stats,
  decode_system_containers, decode_node_stats, decode_pods, decode_summary, pod_set, node_set,
  base_labels,
}
use heapster.Sources.Summary.Values.{
  add_used, decode_ephemeral_storage_stats_for_container, decode_user_defined_metrics,
}

abbrev pub panic_text : String
panic_text = "invalid memory address or nil pointer dereference"

-- A container that states both its file systems states the used bytes of both.
abbrev pub has_used : Option FsStats → Option FsStats → Bool
has_used (some r) (some l) = is_some r.used_bytes && is_some l.used_bytes
has_used _ _ = true

-- A step that succeeds, or panics, as a test says.
abbrev pub Decided : Bool → Result MetricSet → Type 0
Decided true r = (ms : MetricSet) × (r ≡ ok ms)
Decided false r = r ≡ error panic_text

Decided-add_used :
    (u v : Option ℕ) (ms : MetricSet) → Decided (is_some u && is_some v) (add_used u v ms)
Decided-add_used none v ms = refl
Decided-add_used (some u) none ms = refl
Decided-add_used (some u) (some v) ms = (_, refl)

Decided-storage :
    (r l : Option FsStats) (ms : MetricSet)
    → Decided (has_used r l) (decode_ephemeral_storage_stats_for_container r l ms)
unfolding decode_ephemeral_storage_stats_for_container
Decided-storage none l ms = (ms, refl)
Decided-storage (some r) none ms = (ms, refl)
Decided-storage (some r) (some l) ms = Decided-add_used r.used_bytes l.used_bytes ms

Decided-bind :
    (b : Bool) (r : Result MetricSet) (f : MetricSet → MetricSet)
    → Decided b r
    → Decided b (r >>= λ ms. ok (f ms))
Decided-bind true r f (ms, e) = rw e (f ms, refl)
Decided-bind false r f e = rw e

-- A container is decoded exactly where it does not state both its file systems and lack the used
-- bytes of one: there the code dereferences a nil pointer, and panics.
pub decode_container_stats-Decided :
    (now : Time) (labels : Dict String) (c : ContainerStats) (system : Bool)
    → Decided (has_used c.rootfs c.logs) (decode_container_stats now labels c system)
unfolding decode_container_stats
decode_container_stats-Decided now labels c system =
    Decided-bind (has_used c.rootfs c.logs) _ (decode_user_defined_metrics c.user_defined_metrics)
      (Decided-storage c.rootfs c.logs _)

abbrev pub IsComplete : ContainerStats → Type 0
IsComplete c = has_used c.rootfs c.logs ≡ true

complete_ok :
    (now : Time) (labels : Dict String) (c : ContainerStats) (system : Bool)
    → IsComplete c
    → (ms : MetricSet) × (decode_container_stats now labels c system ≡ ok ms)
complete_ok now labels c system h = rw h at (decode_container_stats-Decided now labels c system)

module _ (now : Time) (labels : Dict String) where
  pub containers_ok :
      (ref : PodReference) (cs : List ContainerStats) (sets : Dict MetricSet)
      → All IsComplete cs
      → (sets' : Dict MetricSet) × (decode_containers now labels ref cs sets ≡ ok sets')
  unfolding decode_containers
  containers_ok ref [] sets h = (sets, refl)
  containers_ok ref (c ∷ cs) sets h =
      let k = pod_container_key ref.namespace ref.name c.name in
      elim (Bool-cases (is_outdated c (lookup k sets))) [
        | inl q ↦ rw q (containers_ok ref cs sets h.1)
        | inr q ↦
            let (ms, e) = complete_ok now labels c false h.0 in
            rw (q, e) (containers_ok ref cs (insert k ms sets) h.1)
      ]

  system_containers_ok :
      (node_name : String) (cs : List ContainerStats) (sets : Dict MetricSet)
      → All IsComplete cs
      → (sets' : Dict MetricSet) × (decode_system_containers now labels node_name cs sets
          ≡ ok sets')
  unfolding decode_system_containers
  system_containers_ok node_name [] sets h = (sets, refl)
  system_containers_ok node_name (c ∷ cs) sets h =
      let (ms, e) = complete_ok now labels c true h.0 in
      rw e (system_containers_ok node_name cs _ h.1)

pods_ok :
    (now : Time) (labels : Dict String) (pods : List PodStats) (sets : Dict MetricSet)
    → All (λ p. All IsComplete p.containers) pods
    → (sets' : Dict MetricSet) × (decode_pods now labels pods sets ≡ ok sets')
unfolding decode_pods decode_pod_stats
pods_ok now labels [] sets h = (sets, refl)
pods_ok now labels (pod ∷ pods) sets h =
    let ref = pod.pod_ref in
    let ms = pod_set now labels pod in
    let (next, e) =
      containers_ok now ms.labels ref pod.containers
        (insert (pod_key ref.namespace ref.name) ms sets) h.0 in
    rw e (pods_ok now labels pods next h.1)

-- A summary is decoded, without a panic, where no container of the node or of a pod states both its
-- file systems and lacks the used bytes of one.
pub decode_summary-succeeds :
    (now : Time) (node : NodeInfo) (summary : Summary)
    → All IsComplete summary.node.system_containers
    → All (λ p. All IsComplete p.containers) summary.pods
    → (sets : Dict MetricSet) × (decode_summary now node summary ≡ ok sets)
unfolding decode_summary decode_node_stats
decode_summary-succeeds now node summary hs hp =
    let stats = summary.node in
    let labels = base_labels node in
    let (metrics, e) =
      system_containers_ok now labels stats.node_name stats.system_containers
        (insert (node_key stats.node_name) (node_set now labels stats) []) hs in
    rw e (pods_ok now labels summary.pods metrics hp)
