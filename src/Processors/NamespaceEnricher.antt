-- ===== src/Processors/NamespaceEnricher.antt =====
-- metrics/processors/namespace_based_enricher.go: metric sets are given the UID of their namespace.
-- The store of client-go is a parameter: what `GetByKey` answers for a name.
pub mod Uids
use heapster.Common.{String, [], ◌∷◌, none, some, Bool, ◌||◌, if◌then◌else◌, str_eq}
use heapster.Common.Dict.{Dict, lookup, insert}
use heapster.Core.Labels.{
  label_metric_set_type, label_namespace_name, label_pod_namespace_uid,
  metric_set_type_pod_container, metric_set_type_pod, metric_set_type_namespace,
}
use heapster.Core.Values.{MetricSet, DataBatch}

-- An answer: an error, no such object, an object of another type, or a namespace with its UID.
pub data StoreAnswer : Type 0 where
  failed missing wrong_content : StoreAnswer
  namespace_uid : String → StoreAnswer

abbrev pub Store : Type 0
Store = String → StoreAnswer

abbrev pub is_enriched_type : String → Bool
is_enriched_type t =
    str_eq t metric_set_type_pod_container
    || (str_eq t metric_set_type_pod || str_eq t metric_set_type_namespace)

abbrev pub with_answer : StoreAnswer → MetricSet → MetricSet
with_answer (namespace_uid uid) ms = record ms {
  labels = insert label_pod_namespace_uid.key uid ms.labels;
}
with_answer _ ms = ms

unfoldable pub add_namespace_info : Store → MetricSet → MetricSet
add_namespace_info store ms = elim (lookup label_metric_set_type.key ms.labels) [
  | none ↦ ms
  | some t ↦
      if is_enriched_type t
      then elim (lookup label_namespace_name.key ms.labels) [
        | none ↦ ms
        | some name ↦ with_answer (store name) ms
      ]
      else ms
]

unfoldable pub add_namespace_infos : Store → Dict MetricSet → Dict MetricSet
add_namespace_infos store [] = []
add_namespace_infos store ((key, ms) ∷ rest) =
    (key, add_namespace_info store ms) ∷ add_namespace_infos store rest

-- `NamespaceBasedEnricher.Process`, which never fails.
unfoldable pub namespace_enricher_process : Store → DataBatch → DataBatch
namespace_enricher_process store batch = record batch {
  metric_sets = add_namespace_infos store batch.metric_sets;
}
