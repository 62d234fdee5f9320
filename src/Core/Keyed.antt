-- ===== src/Core/Keyed.antt =====
-- metrics/core/ms_keys.go and labels.go: the key of a metric set against its labels, which all parts
-- of Heapster rely on.
pub mod Apart
pub mod Same
pub mod Sound
use heapster.Common.{
  String, List, [], ◌∷◌, true, false, Bool, Bool-cases, inl, inr, ◌≡◌, refl, All, str_eq,
  str_eq_iff, subst, sym,
}
use heapster.Common.Dict.{Dict, lookup, insert, insert_all, value_or}
use heapster.Core.Keys.{
  pod_key, pod_container_key, namespace_key, node_key, node_container_key, cluster_key,
}
use heapster.Core.Labels.{
  label_metric_set_type, label_nodename, label_namespace_name, label_pod_name, label_container_name,
  metric_set_type_node, metric_set_type_pod, metric_set_type_pod_container,
  metric_set_type_system_container, metric_set_type_namespace, metric_set_type_cluster,
}
use heapster.Core.Values.{MetricSet}
use heapster.Processors.Labels.{is_kind}

-- A label's text, and the test of the kind.
abbrev pub text_of : String → Dict String → String
text_of key labels = value_or "" (lookup key labels)

abbrev pub is_of_kind : String → Dict String → Bool
is_of_kind kind labels = is_kind kind (lookup label_metric_set_type.key labels)

-- The labels say what kind of set stands under the key, and which one.
pub data Keyed (key : String) (labels : Dict String) : Type 0 where
  of_node :
      is_of_kind metric_set_type_node labels ≡ true
      → key ≡ node_key (text_of label_nodename.key labels)
      → Keyed key labels
  of_pod :
      is_of_kind metric_set_type_pod labels ≡ true
      → key ≡ pod_key (text_of label_namespace_name.key labels) (text_of label_pod_name.key labels)
      → Keyed key labels
  of_container :
      is_of_kind metric_set_type_pod_container labels ≡ true
      → key
        ≡ pod_container_key
            (text_of label_namespace_name.key labels)
            (text_of label_pod_name.key labels)
            (text_of label_container_name.key labels)
      → Keyed key labels
  of_system_container :
      is_of_kind metric_set_type_system_container labels ≡ true
      → key
        ≡ node_container_key
            (text_of label_nodename.key labels)
            (text_of label_container_name.key labels)
      → Keyed key labels
  of_namespace :
      is_of_kind metric_set_type_namespace labels ≡ true
      → key ≡ namespace_key (text_of label_namespace_name.key labels)
      → Keyed key labels
  of_cluster :
      is_of_kind metric_set_type_cluster labels ≡ true → key ≡ cluster_key → Keyed key labels

abbrev pub AllKeyed : Dict MetricSet → Type 0
AllKeyed = All (λ e. Keyed e.0 e.1.labels)

-- An assignment under the right key keeps every set under its key.
pub AllKeyed-insert :
    (key : String) (ms : MetricSet) (sets : Dict MetricSet)
    → Keyed key ms.labels
    → AllKeyed sets
    → AllKeyed (insert key ms sets)
unfolding insert
AllKeyed-insert key ms [] h a = (h, tt)
AllKeyed-insert key ms ((k, old) ∷ sets) h a = elim (Bool-cases (str_eq k key)) [
  | inl q ↦ rw q (subst (λ x. Keyed x ms.labels) (sym ((str_eq_iff k key).0 q)) h, a.1)
  | inr q ↦ rw q (a.0, AllKeyed-insert key ms sets h a.1)
]

pub AllKeyed-insert_all :
    (added sets : Dict MetricSet)
    → AllKeyed added
    → AllKeyed sets
    → AllKeyed (insert_all added sets)
unfolding insert_all
AllKeyed-insert_all [] sets h a = a
AllKeyed-insert_all ((key, ms) ∷ added) sets h a =
    AllKeyed-insert_all added (insert key ms sets) h.1 (AllKeyed-insert key ms sets h.0 a)
