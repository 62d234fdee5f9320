-- ===== src/Sources/Summary/Containers.antt =====
-- metrics/sources/summary/summary.go: containers that share a key.
use heapster.Common.{
  ◌≤◌, String, List, [], ◌∷◌, Option, none, some, true, false, Bool, Bool-cases, inl, inr, ◌≡◌,
  refl, if◌then◌else◌, All, arith, str_eq, str_eq_iff,
}
use heapster.Common.Dict.{Dict, lookup, insert, lookup-insert}
use heapster.Common.Result.{ok, >>=-eq-ok, ok_injective}
use heapster.Common.Time.{Time}
use heapster.Core.Keys.{pod_container_key}
use heapster.Core.Values.{MetricSet}
use heapster.Sources.Stats.{ContainerStats, PodReference}
use heapster.Sources.Summary.{container_set, decode_container_stats, is_outdated, decode_containers}
use heapster.Sources.Summary.Heads.{start-head, head-decode_container_stats}

-- There is a set whose collection began no earlier than a time.
abbrev pub Since : Time → Option MetricSet → Type 0
Since t none = ⊥
Since t (some ms) = t ≤ ms.collection_start_time

Since-not_outdated :
    (c : ContainerStats) (t : Time) (o : Option MetricSet)
    → is_outdated c o ≡ false
    → Since t o
    → t ≤ c.start_time
Since-not_outdated c t none q s = absurd s
Since-not_outdated c t (some ms) q s = ground arith

Since-outdated :
    (c : ContainerStats) (o : Option MetricSet) → is_outdated c o ≡ true → Since c.start_time o
Since-outdated c none q = cc
Since-outdated c (some ms) q = ground arith

Since-if :
    (t : Time) (b : Bool) (ms : MetricSet) (o : Option MetricSet)
    → (b ≡ true → t ≤ ms.collection_start_time)
    → (b ≡ false → Since t o)
    → Since t (if b then some ms else o)
Since-if t true ms o h k = h refl
Since-if t false ms o h k = k refl

start-container :
    (now : Time) (l : Dict String) (c : ContainerStats) (system : Bool) {ms : MetricSet}
    → decode_container_stats now l c system ≡ ok ms
    → ms.collection_start_time ≡ c.start_time
unfolding container_set
start-container now l c system {ms} h =
    start-head (container_set l c system) ms (head-decode_container_stats now l c system h)

module _ (now : Time) (l : Dict String) (ref : PodReference) where
  Since-decode_containers :
      (cs : List ContainerStats) (sets : Dict MetricSet) {sets' : Dict MetricSet} (key : String)
      (t : Time)
      → decode_containers now l ref cs sets ≡ ok sets'
      → Since t (lookup key sets)
      → Since t (lookup key sets')
  unfolding decode_containers
  Since-decode_containers [] sets key t h s = rw (← ok_injective h) s
  Since-decode_containers (c ∷ cs) sets key t h s =
      let k = pod_container_key ref.namespace ref.name c.name in
      elim (Bool-cases (is_outdated c (lookup k sets))) [
        | inl q ↦ Since-decode_containers cs sets key t (rw q at h) s
        | inr q ↦
            let (ms, decoded, rest) = >>=-eq-ok _ _ (rw q at h) in
            let start = start-container now l c false decoded in
            Since-decode_containers cs (insert k ms sets) key t rest (
              rw (lookup-insert key k ms sets) (
                Since-if t (str_eq k key) ms (lookup key sets)
                  (λ e.
                    rw start (
                      Since-not_outdated c t (lookup k sets) q
                        (rw (← (str_eq_iff k key).0 e) at s)))
                  (λ e. s)))
      ]

  -- Where a pod's containers share a key, the set that is kept began no earlier than any of them:
  -- the metrics of a container that was replaced do not hide those of its successor.
  pub decode_containers-latest :
      (cs : List ContainerStats) (sets : Dict MetricSet) {sets' : Dict MetricSet}
      → decode_containers now l ref cs sets ≡ ok sets'
      → All
          (λ c. Since c.start_time (lookup (pod_container_key ref.namespace ref.name c.name) sets'))
          cs
  unfolding decode_containers
  decode_containers-latest [] sets h = tt
  decode_containers-latest (c ∷ cs) sets h =
      let k = pod_container_key ref.namespace ref.name c.name in
      elim (Bool-cases (is_outdated c (lookup k sets))) [
        | inl q ↦
            let rest = rw q at h in
            (
              Since-decode_containers cs sets k c.start_time rest
                  (Since-outdated c (lookup k sets) q),
              decode_containers-latest cs sets rest,
            )
        | inr q ↦
            let (ms, decoded, rest) = >>=-eq-ok _ _ (rw q at h) in
            let start = start-container now l c false decoded in
            (
              Since-decode_containers cs (insert k ms sets) k c.start_time rest
                  (rw (lookup-insert k k ms sets, (str_eq_iff k k).1 refl) (omega (arith, start))),
              decode_containers-latest cs (insert k ms sets) rest,
            )
      ]
