-- ===== src/Core/Keyed/Same.antt =====
-- metrics/core/ms_keys.go and labels.go: a set stays under its key while the labels that name it stay.
use heapster.Common.{
  String, List, [], ◌∷◌, none, true, false, Bool-cases, inl, inr, ◌≡◌, refl, ◌∙◌, All, str_eq,
  str_eq_iff, contains, ap, sym, arith,
}
use heapster.Common.Dict.{Dict, lookup, insert, lookup-insert_ne}
use heapster.Core.Keyed.{
  Keyed, of_node, of_pod, of_container, of_system_container, of_namespace, of_cluster,
}
use heapster.Core.Labels.{
  label_metric_set_type, label_nodename, label_namespace_name, label_pod_name, label_container_name,
  label_labels,
}
use heapster.Util.LabelCopier.{LabelCopier, copy}
use heapster.Util.LabelCopier.Labels.{stored_under, maps_to, lookup-copy}

-- The labels that name a set.
abbrev pub key_labels : List String
key_labels =
    label_metric_set_type.key ∷ label_nodename.key ∷ label_namespace_name.key ∷ label_pod_name.key
    ∷ label_container_name.key ∷ []

abbrev pub SameKeyLabels : Dict String → Dict String → Type 0
SameKeyLabels before after =
    (name : String) → contains key_labels name ≡ true → lookup name after ≡ lookup name before

pub Keyed-same :
    {key : String} (before after : Dict String)
    → SameKeyLabels before after
    → Keyed key before
    → Keyed key after
Keyed-same before after same (of_node k e) =
    of_node (rw (same "type" refl) k) (rw (same "nodename" refl) e)
Keyed-same before after same (of_pod k e) =
    of_pod (rw (same "type" refl) k) (rw (same "namespace_name" refl, same "pod_name" refl) e)
Keyed-same before after same (of_container k e) =
    of_container (rw (same "type" refl) k)
      (rw (same "namespace_name" refl, same "pod_name" refl, same "container_name" refl) e)
Keyed-same before after same (of_system_container k e) =
    of_system_container (rw (same "type" refl) k)
      (rw (same "nodename" refl, same "container_name" refl) e)
Keyed-same before after same (of_namespace k e) =
    of_namespace (rw (same "type" refl) k) (rw (same "namespace_name" refl) e)
Keyed-same before after same (of_cluster k e) = of_cluster (rw (same "type" refl) k) e

other_label :
    (k name : String)
    → contains key_labels k ≡ false
    → contains key_labels name ≡ true
    → str_eq k name ≡ false
other_label k name h p = elim (Bool-cases (str_eq k name)) [
  | inr q ↦ q
  | inl q ↦
      let e = ap (contains key_labels) ((str_eq_iff k name).0 q) in
      let clash : true ≡ false = sym p ∙ sym e ∙ h in absurd (ground (arith, clash))
]

pub SameKeyLabels-insert :
    (k v : String) (labels : Dict String)
    → contains key_labels k ≡ false
    → SameKeyLabels labels (insert k v labels)
SameKeyLabels-insert k v labels h name p = lookup-insert_ne name k v labels (other_label k name h p)

-- No label of an object is stored under the name of such a label.
abbrev pub KeepsKeys : LabelCopier → Type 0
KeepsKeys c = All (λ e. contains key_labels e.1 ≡ false) c.stored_labels

maps_to-none :
    (stored : Dict String) (k name : String)
    → contains key_labels name ≡ true
    → All (λ e. contains key_labels e.1 ≡ false) stored
    → maps_to (lookup k stored) name ≡ false
unfolding lookup
maps_to-none [] k name p a = refl
maps_to-none ((j, mapped) ∷ stored) k name p a = elim (Bool-cases (str_eq j k)) [
  | inl q ↦ rw q (other_label mapped name a.0 p)
  | inr q ↦ rw q (maps_to-none stored k name p a.1)
]

stored_under-none :
    (c : LabelCopier) (labels : Dict String) (name : String)
    → contains key_labels name ≡ true
    → KeepsKeys c
    → stored_under c labels name ≡ none
stored_under-none c [] name p a = refl
stored_under-none c ((key, value) ∷ labels) name p a =
    rw (stored_under-none c labels name p a, maps_to-none c.stored_labels key name p a) refl

pub SameKeyLabels-copy :
    (c : LabelCopier) (labels out : Dict String)
    → KeepsKeys c
    → SameKeyLabels out (copy c labels out)
SameKeyLabels-copy c labels out a name p =
    let (texts, sorts, look) = lookup-copy c labels out name in
    look ∙ rw (other_label label_labels.key name refl p, stored_under-none c labels name p a) refl

pub SameKeyLabels-trans :
    (a b c : Dict String) → SameKeyLabels a b → SameKeyLabels b c → SameKeyLabels a c
SameKeyLabels-trans a b c h k name p = k name p ∙ h name p
