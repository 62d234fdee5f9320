-- ===== src/Processors/NamespaceEnricher/Uids.antt =====
-- metrics/processors/namespace_based_enricher.go: the labels of every set after `Process`.
use heapster.Common.{
  String, [], ◌∷◌, contains, str_eq_iff, Option, none, some, Option-cases, Bool, true, false,
  Bool-cases, inl, inr, if◌then◌else◌, ◌≡◌, refl, arith, str_eq,
}
use heapster.Common.Dict.{Dict, lookup, or_else, lookup-insert}
use heapster.Core.Labels.{label_metric_set_type, label_namespace_name, label_pod_namespace_uid}
use heapster.Core.Values.{MetricSet, DataBatch}
use heapster.Processors.NamespaceEnricher.{
  StoreAnswer, failed, missing, wrong_content, namespace_uid, Store, is_enriched_type, with_answer,
  add_namespace_info, add_namespace_infos, namespace_enricher_process,
}

abbrev pub uid_in : StoreAnswer → Option String
uid_in (namespace_uid uid) = some uid
uid_in _ = none

abbrev pub uid_of : Store → Bool → Option String → Option String
uid_of store true (some name) = uid_in (store name)
uid_of store _ _ = none

abbrev pub has_enriched_type : Option String → Bool
has_enriched_type none = false
has_enriched_type (some t) = contains ("pod_container" ∷ "pod" ∷ "ns" ∷ []) t

is_enriched_type-contains : (t : String) → is_enriched_type t ≡ has_enriched_type (some t)
is_enriched_type-contains t = ground (
  arith,
  str_eq_iff t "pod_container",
  str_eq_iff "pod_container" t,
  str_eq_iff t "pod",
  str_eq_iff "pod" t,
  str_eq_iff t "ns",
  str_eq_iff "ns" t,
)

-- The UID that a set is given: it is a pod, a container of a pod or a namespace, it names its
-- namespace, and the store has a namespace of that name.
abbrev pub uid_for : Store → MetricSet → Option String
uid_for store ms =
    uid_of store (has_enriched_type (lookup label_metric_set_type.key ms.labels))
      (lookup label_namespace_name.key ms.labels)

-- A set as it was, but for the label of the UID.
abbrev pub Enriched : Store → Option MetricSet → Option MetricSet → Type 0
Enriched store none after = after ≡ none
Enriched store (some ms) after =
    (labels : Dict String) × (after ≡ some (record ms { labels = labels }))
    × ((l : String)
        → lookup l labels ≡ (
            if str_eq label_pod_namespace_uid.key l
            then or_else (uid_for store ms) (lookup l ms.labels)
            else lookup l ms.labels))

enriched_answer :
    (store : Store) (a : StoreAnswer) (ms : MetricSet) (l : String)
    → (with_answer a ms ≡ record ms { labels = (with_answer a ms).labels })
      × (lookup l (with_answer a ms).labels ≡ (
          if str_eq label_pod_namespace_uid.key l
          then or_else (uid_in a) (lookup l ms.labels)
          else lookup l ms.labels))
enriched_answer store failed ms l = (refl, ground arith)
enriched_answer store missing ms l = (refl, ground arith)
enriched_answer store wrong_content ms l = (refl, ground arith)
enriched_answer store (namespace_uid uid) ms l =
    (refl, lookup-insert l label_pod_namespace_uid.key uid ms.labels)

enriched_set :
    (store : Store) (ms : MetricSet) (l : String)
    → let ms' = add_namespace_info store ms in
      (ms' ≡ record ms { labels = ms'.labels })
      × (lookup l ms'.labels ≡ (
          if str_eq label_pod_namespace_uid.key l
          then or_else (uid_for store ms) (lookup l ms.labels)
          else lookup l ms.labels))
unfolding add_namespace_info
enriched_set store ms l = elim (Option-cases (lookup label_metric_set_type.key ms.labels)) [
  | inl e ↦ rw (e, add_namespace_info) (refl, ground arith)
  | inr (t, e) ↦
      let same = is_enriched_type-contains t in
      elim (Bool-cases (has_enriched_type (some t))) [
        | inr q ↦ rw (e, add_namespace_info) (rw (same, q) (refl, ground arith))
        | inl q ↦ elim (Option-cases (lookup label_namespace_name.key ms.labels)) [
          | inl g ↦ rw (e, add_namespace_info) (rw (same, q, g) (refl, ground arith))
          | inr (name, g) ↦
              rw (e, add_namespace_info) (rw (same, q, g) (enriched_answer store (store name) ms l))
        ]
      ]
]

Enriched-lookup :
    (store : Store) (sets : Dict MetricSet) (key : String)
    → Enriched store (lookup key sets) (lookup key (add_namespace_infos store sets))
unfolding lookup add_namespace_infos
Enriched-lookup store [] key = refl
Enriched-lookup store ((k, ms) ∷ sets) key = elim (Bool-cases (str_eq k key)) [
  | inl q ↦ rw q (
    (add_namespace_info store ms).labels,
    rw (← (enriched_set store ms "").0),
    λ l. (enriched_set store ms l).1,
  )
  | inr q ↦ rw q (Enriched-lookup store sets key)
]

-- `Process` keeps every set of the batch and all that is in it, but for the label of the namespace's
-- UID: a pod, a pod's container or a namespace whose own namespace is in the store gets the UID that
-- the store has for it, and any other set keeps the label that it has, or stays without one.
pub namespace_enricher_process_lem :
    (store : Store) (batch : DataBatch) (key : String)
    → Enriched store
        (lookup key batch.metric_sets)
        (lookup key (namespace_enricher_process store batch).metric_sets)
unfolding namespace_enricher_process
namespace_enricher_process_lem store batch key = Enriched-lookup store batch.metric_sets key
