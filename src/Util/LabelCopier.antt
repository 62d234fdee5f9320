-- ===== src/Util/LabelCopier.antt =====
-- metrics/util/label_copier.go: labels of Kubernetes objects become labels of metric sets.
pub mod Labels
pub mod Sorts
use Prim.Native.String.{compare}
use Prim.Native.Nat.{Ordering}
use Prim.Native.Char.{code}
use heapster.Common.{
  String, List, [], ◌∷◌, Option, none, some, Bool, true, false, if◌then◌else◌, ◌==◌,
}
use heapster.Common.Dict.{Dict, lookup, insert, is_some}
use heapster.Common.Text.{concat, join}
use heapster.Core.Labels.{label_labels}

pub record LabelCopier : Type 0 where
  pub label_separator : String
  pub stored_labels : Dict String
  pub ignored_labels : Dict String

abbrev le_text : String → String → Bool
le_text s t = elim (compare s t) [ Ordering.gt ↦ false | _ ↦ true ]

insert_sorted : String → List String → List String
insert_sorted s [] = s ∷ []
insert_sorted s (t ∷ ts) =
    let rest = insert_sorted s ts in if le_text s t then s ∷ t ∷ ts else t ∷ rest

-- `sort.Strings`: the texts in byte order.
unfoldable pub sort_strings : List String → List String
unfolding insert_sorted
sort_strings [] = []
sort_strings (s ∷ ss) = insert_sorted s (sort_strings ss)

abbrev store_label : Option String → String → Dict String → Dict String
store_label none value out = out
store_label (some mapped) value out = insert mapped value out

-- The loop over the labels: the stored ones go to the output under their mapped names.
unfoldable pub copy_stored : LabelCopier → Dict String → Dict String → Dict String
copy_stored c [] out = out
copy_stored c ((key, value) ∷ labels) out =
    copy_stored c labels (store_label (lookup key c.stored_labels) value out)

-- The other half of the loop: the texts of the labels that are not ignored.
unfoldable pub joined_labels : LabelCopier → Dict String → List String
joined_labels c [] = []
joined_labels c ((key, value) ∷ labels) =
    let rest = joined_labels c labels in
    if is_some (lookup key c.ignored_labels) then rest else concat (key ∷ ":" ∷ value ∷ []) ∷ rest

-- `Copy`: the output map afterwards. A nil map of labels is the empty one.
unfoldable pub copy : LabelCopier → Dict String → Dict String → Dict String
copy c labels out =
    insert label_labels.key (join c.label_separator (sort_strings (joined_labels c labels)))
      (copy_stored c labels out)

-- `strings.SplitN(s, "=", 2)`: what stands before the first "=", and what follows it, if any.
unfoldable pub split_label : String → String × Option String
split_label String.[] = ("", none)
split_label (String.◌∷◌ c s) =
    let rest = split_label s in
    if code c == b'=' then ("", some s) else (String.◌∷◌ c rest.0, rest.1)

abbrev store_split : String × Option String → Dict String → Dict String
store_split (name, none) stored = insert name name stored
store_split (name, some source) stored = insert source name stored

unfoldable pub make_stored_labels : List String → Dict String → Dict String
make_stored_labels [] stored = stored
make_stored_labels (s ∷ labels) stored =
    make_stored_labels labels (store_split (split_label s) stored)

unfoldable pub make_ignored_labels : List String → Dict String → Dict String
make_ignored_labels [] ignored = ignored
make_ignored_labels (s ∷ labels) ignored = make_ignored_labels labels (insert s "" ignored)

unfoldable pub new_label_copier : String → List String → List String → LabelCopier
new_label_copier separator stored ignored = record {
  label_separator = separator;
  stored_labels = make_stored_labels stored [];
  ignored_labels = make_ignored_labels ignored [];
}
