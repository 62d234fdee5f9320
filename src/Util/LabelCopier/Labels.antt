-- ===== src/Util/LabelCopier/Labels.antt =====
-- metrics/util/label_copier.go: every label of the output after `Copy`.
use heapster.Common.{
  map, select, not, contains, Bool-cases, inl, inr, List, String, [], ◌∷◌, Option, none, some, Bool,
  true, false, if◌then◌else◌, str_eq, ◌≡◌, refl, ◌∙◌,
}
use heapster.Common.Dict.{Dict, keys, is_some-lookup, lookup, or_else, lookup-insert}
use heapster.Common.Text.{concat, join}
use heapster.Core.Labels.{label_labels}
use heapster.Util.LabelCopier.Sorts.{Sorts, sort_strings-Sorts}
use heapster.Util.LabelCopier.{
  LabelCopier, copy, copy_stored, store_label, joined_labels, sort_strings,
}

abbrev pub maps_to : Option String → String → Bool
maps_to none name = false
maps_to (some mapped) name = str_eq mapped name

-- The value of the last label, in the order of the map, that is stored under the name.
abbrev pub stored_under : LabelCopier → Dict String → String → Option String
stored_under c [] name = none
stored_under c ((key, value) ∷ labels) name =
    or_else (stored_under c labels name)
      (if maps_to (lookup key c.stored_labels) name then some value else none)

lookup-store_label :
    (name value : String) (o : Option String) (out : Dict String)
    → lookup name (store_label o value out)
      ≡ (if maps_to o name then some value else lookup name out)
lookup-store_label name value none out = refl
lookup-store_label name value (some mapped) out = lookup-insert name mapped value out

settle :
    (o : Option String) (b : Bool) (v : String) (x : Option String)
    → or_else o (if b then some v else x) ≡ or_else (or_else o (if b then some v else none)) x
settle none true v x = refl
settle none false v x = refl
settle (some w) b v x = refl

lookup-copy_stored :
    (c : LabelCopier) (labels out : Dict String) (name : String)
    → lookup name (copy_stored c labels out)
      ≡ or_else (stored_under c labels name) (lookup name out)
unfolding copy_stored
lookup-copy_stored c [] out name = refl
lookup-copy_stored c ((key, value) ∷ labels) out name =
    let o = lookup key c.stored_labels in
    lookup-copy_stored c labels (store_label o value out) name
    ∙ rw (lookup-store_label name value o out)
        (settle (stored_under c labels name) (maps_to o name) value (lookup name out))

-- The labels that are not ignored, and the text of one.
abbrev pub is_kept : LabelCopier → String × String → Bool
is_kept c label = not (contains (keys c.ignored_labels) label.0)

abbrev pub label_text : String × String → String
label_text label = concat (label.0 ∷ ":" ∷ label.1 ∷ [])

abbrev pub kept_texts : LabelCopier → Dict String → List String
kept_texts c labels = map label_text (select (is_kept c) labels)

joined_labels-kept_texts :
    (c : LabelCopier) (labels : Dict String) → joined_labels c labels ≡ kept_texts c labels
unfolding joined_labels
joined_labels-kept_texts c [] = refl
joined_labels-kept_texts c ((key, value) ∷ labels) =
    let rest = joined_labels-kept_texts c labels in
    let ignored = is_some-lookup key c.ignored_labels in
    elim (Bool-cases (contains (keys c.ignored_labels) key)) [
      | inl q ↦ rw (ignored, q, rest)
      | inr q ↦ rw (ignored, q, rest)
    ]

-- After `Copy` the label "labels" holds the texts `key:value` of the labels whose keys are not
-- ignored, each as often as it was there, in the order of their bytes and joined; any other label
-- holds the value of a source label that is stored under its name, the last one visited, or else
-- what it held before.
pub lookup-copy :
    (c : LabelCopier) (labels out : Dict String) (name : String)
    → (texts : List String) × Sorts (kept_texts c labels) texts
      × (lookup name (copy c labels out) ≡ (
          if str_eq label_labels.key name
          then some (join c.label_separator texts)
          else or_else (stored_under c labels name) (lookup name out)))
unfolding copy
lookup-copy c labels out name =
    let texts = sort_strings (joined_labels c labels) in
    (
      texts,
      rw (← joined_labels-kept_texts c labels) (sort_strings-Sorts (joined_labels c labels)),
      lookup-insert name label_labels.key (join c.label_separator texts) (copy_stored c labels out)
          ∙ rw (lookup-copy_stored c labels out name),
    )
