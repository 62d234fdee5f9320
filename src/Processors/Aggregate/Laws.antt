-- ===== src/Processors/Aggregate/Laws.antt =====
-- metrics/processors/helper.go: the metrics after one call of `aggregate`, name by name.
use heapster.Common.{
  String, List, [], ◌∷◌, Option, none, some, Option-cases, Bool, true, false, if◌then◌else◌, ◌≡◌,
  refl, sym, ◌∙◌, arith, ◌&&◌, str_eq, str_eq_iff, contains, Distinct, all, ◌⊎◌, inl, inr,
}
use heapster.Common.Dict.{Dict, lookup, insert, lookup-insert}
use heapster.Common.Int64.{FloatOps, add64}
use heapster.Common.Result.{ok, error}
use heapster.Core.Values.{
  ValueType, int64_type, float_type, other_value_type, value_type_eq, MetricValue,
}
use heapster.Processors.Aggregate.{unsupported, combine, aggregate_one, aggregate}

-- The sum that a metric has where both sets have it.
abbrev pub plus_of : FloatOps → ValueType → MetricValue → MetricValue → MetricValue
plus_of f int64_type a v = record a { int_value = add64 a.int_value v.int_value }
plus_of f float_type a v = record a { float_value = f.fadd a.float_value v.float_value }
plus_of f (other_value_type n) a v = a

abbrev pub plus : FloatOps → MetricValue → MetricValue → MetricValue
plus f a v = plus_of f a.value_type a v

-- What a metric becomes: the source's value, the target's, or their sum.
abbrev pub merge : FloatOps → Option MetricValue → Option MetricValue → Option MetricValue
merge f none a = a
merge f (some v) none = some v
merge f (some v) (some a) = some (plus f a v)

-- Two values can be added: they are both integers or both floats.
abbrev pub known_type : ValueType → Bool
known_type int64_type = true
known_type float_type = true
known_type (other_value_type n) = false

abbrev pub compatible : Option MetricValue → Option MetricValue → Bool
compatible (some v) (some a) = value_type_eq a.value_type v.value_type && known_type a.value_type
compatible _ _ = true

-- Two values are added, or their types differ or are unknown and the sum is refused.
pub combine_cases :
    (f : FloatOps) (name : String) (a v : MetricValue)
    → ((compatible (some v) (some a) ≡ true) × (combine f name a v ≡ ok (plus f a v)))
      ⊎ ((compatible (some v) (some a) ≡ false) × (combine f name a v ≡ error (unsupported name)))
unfolding combine
combine_cases f name a v = ground arith

-- One round adds the name's values, or stops at a pair that cannot be added.
aggregate_one_cases :
    (f : FloatOps) (name : String) (src dst : Dict MetricValue)
    → ((compatible (lookup name src) (lookup name dst) ≡ true)
        × ((dst' : Dict MetricValue) × (aggregate_one f name src dst ≡ ok dst')))
      ⊎ ((compatible (lookup name src) (lookup name dst) ≡ false)
          × (aggregate_one f name src dst ≡ error (unsupported name)))
unfolding aggregate_one
aggregate_one_cases f name src dst = elim (Option-cases (lookup name src)) [
  | inl e ↦ rw (e, aggregate_one) (inl (refl, (dst, refl)))
  | inr (v, e) ↦ elim (Option-cases (lookup name dst)) [
    | inl e' ↦ rw (e, e', aggregate_one) (inl (refl, (insert name v dst, refl)))
    | inr (a, e') ↦ elim (combine_cases f name a v) [
      | inl (c, sum) ↦
          rw (e, e', aggregate_one, sum) (inl (c, (insert name (plus f a v) dst, refl)))
      | inr (c, refused) ↦ rw (e, e', aggregate_one, refused) (inr (c, refl))
    ]
  ]
]

-- One round: what every name holds afterwards, and that the two values could be added.
pub lookup-aggregate_one :
    (f : FloatOps) (name : String) (src dst : Dict MetricValue) {dst' : Dict MetricValue}
    (m : String)
    → aggregate_one f name src dst ≡ ok dst'
    → (lookup m dst'
        ≡ (if str_eq name m then merge f (lookup m src) (lookup m dst) else lookup m dst))
      × (compatible (lookup name src) (lookup name dst) ≡ true)
unfolding aggregate_one
lookup-aggregate_one f name src dst m h = elim (Option-cases (lookup name src)) [
  | inl e ↦ ground (arith, e, str_eq_iff name m)
  | inr (v, e) ↦ elim (Option-cases (lookup name dst)) [
    | inl e' ↦ ground (arith, lookup-insert m name v dst, str_eq_iff name m)
    | inr (a, e') ↦ elim (combine_cases f name a v) [
      | inl (c, sum) ↦ ground (arith, sum, lookup-insert m name (plus f a v) dst, str_eq_iff name m)
      | inr (c, refused) ↦ ground (arith, refused)
    ]
  ]
]

abbrev pub Outcome : FloatOps → Dict MetricValue → Dict MetricValue → List String → Type 0
Outcome f src dst names =
    ((dst' : Dict MetricValue) × (aggregate f src dst names ≡ ok dst')
      × ((m : String)
          → lookup m dst'
            ≡ (if contains names m then merge f (lookup m src) (lookup m dst) else lookup m dst))
      × (all (λ n. compatible (lookup n src) (lookup n dst)) names ≡ true))
    ⊎ ((name : String) × (aggregate f src dst names ≡ error (unsupported name))
        × (contains names name ≡ true)
        × (compatible (lookup name src) (lookup name dst) ≡ false)
        × (all (λ n. compatible (lookup n src) (lookup n dst)) names ≡ false))

compatible_elsewhere :
    (src dst dst' : Dict MetricValue) (name : String) (names : List String)
    → contains names name ≡ false
    → ((m : String) → str_eq name m ≡ false → lookup m dst' ≡ lookup m dst)
    → all (λ n. compatible (lookup n src) (lookup n dst')) names
      ≡ all (λ n. compatible (lookup n src) (lookup n dst)) names
compatible_elsewhere src dst dst' name [] h k = refl
compatible_elsewhere src dst dst' name (n ∷ names) h k = ground (
  arith,
  k n,
  str_eq_iff name n,
  str_eq_iff n name,
  compatible_elsewhere src dst dst' name names (ground arith) k,
)

-- The whole call. It either adds every chosen metric that the source has, and leaves the others
-- alone, or it stops at one whose two values have different or unknown types, and names it; which of the two
-- happens is decided by the values before the call. No metric is chosen twice.
pub aggregate_lem :
    (f : FloatOps) (src dst : Dict MetricValue) (names : List String)
    → Distinct names
    → Outcome f src dst names
unfolding aggregate
aggregate_lem f src dst [] d = inl (dst, refl, λ m. refl, refl)
aggregate_lem f src dst (name ∷ names) d = elim (aggregate_one_cases f name src dst) [
  | inr (c, stopped) ↦
      rw (stopped, c) (inr (name, refl, ground (arith, str_eq_iff name name), c, refl))
  | inl (c, (dst1, e)) ↦
      let law = λ (m : String). (lookup-aggregate_one f name src dst {dst' = dst1} m e).0 in
      let same =
        compatible_elsewhere src dst dst1 name names d.0
          (λ m q. ground (arith, law m, str_eq_iff name m)) in
      elim (aggregate_lem f src dst1 names d.1) [
        | inl (dst', r, look, fit) ↦
            rw (e, c)
              (inl (
                dst',
                r,
                λ m. ground (arith, look m, law m, str_eq_iff name m, d.0),
                sym same ∙ fit,
              ))
        | inr (bad, r, isin, refused, unfit) ↦
            let kept : lookup bad dst1 ≡ lookup bad dst =
              ground (arith, law bad, str_eq_iff name bad, d.0, isin) in
            rw (e, c) (inr (bad, r, ground (arith, isin), rw kept at refused, sym same ∙ unfit))
      ]
]
