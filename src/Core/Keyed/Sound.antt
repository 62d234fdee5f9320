-- ===== src/Core/Keyed/Sound.antt =====
-- metrics/core/types.go: the sets of a batch that every part of Heapster can rely on.
use heapster.Common.{String, [], ◌∷◌, some, Bool-cases, inl, inr, ◌≡◌, Distinct, str_eq, str_eq_iff}
use heapster.Common.Dict.{
  Dict, lookup, insert, insert_all, keys, Distinct-keys-insert, Distinct-keys-insert_all,
}
use mathlib.Core.Option.{some-injective}
use heapster.Core.Keyed.{Keyed, AllKeyed, AllKeyed-insert, AllKeyed-insert_all}
use heapster.Core.Values.{MetricSet, MetricValue}

-- Every set stands under the key that its labels name, and no key stands twice.
abbrev pub Sound : Dict MetricSet → Type 0
Sound sets = AllKeyed sets × Distinct (keys sets)

pub Keyed-lookup :
    (key : String) (sets : Dict MetricSet) {ms : MetricSet}
    → lookup key sets ≡ some ms
    → AllKeyed sets
    → Keyed key ms.labels
unfolding lookup
Keyed-lookup key [] e a = cc
Keyed-lookup key ((k, old) ∷ sets) {ms} e a = elim (Bool-cases (str_eq k key)) [
  | inl q ↦
      let same = some-injective old ms (rw q at e) in rw (← (str_eq_iff k key).0 q, ← same) a.0
  | inr q ↦ Keyed-lookup key sets (rw q at e) a.1
]

pub Sound-insert :
    (key : String) (ms : MetricSet) (sets : Dict MetricSet)
    → Keyed key ms.labels
    → Sound sets
    → Sound (insert key ms sets)
Sound-insert key ms sets h s =
    (AllKeyed-insert key ms sets h s.0, Distinct-keys-insert key ms sets s.1)

pub Sound-insert_all :
    (added sets : Dict MetricSet) → AllKeyed added → Sound sets → Sound (insert_all added sets)
Sound-insert_all added sets a s =
    (AllKeyed-insert_all added sets a s.0, Distinct-keys-insert_all added sets s.1)

-- New metrics for a set that is there.
pub Sound-values :
    (key : String) (ms : MetricSet) (values : Dict MetricValue) (sets : Dict MetricSet)
    → lookup key sets ≡ some ms
    → Sound sets
    → Sound (insert key (record ms { metric_values = values }) sets)
Sound-values key ms values sets e s =
    Sound-insert key (record ms { metric_values = values }) sets (Keyed-lookup key sets e s.0) s
