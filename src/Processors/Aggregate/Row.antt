-- ===== src/Processors/Aggregate/Row.antt =====
-- metrics/processors/helper.go: what a row of `aggregate` calls into one target leaves there. The
-- aggregators of clusters, namespaces and nodes are such rows.
use heapster.Common.{
  refl, true, contains, Distinct, All, all, arith, inl, inr, str_eq_iff, ℕ, ◌%◌, String, List, [],
  ◌∷◌, map, Option, none, some, if◌then◌else◌, ◌≡◌, ◌∙◌, arith, contains, Distinct, All, inl, inr,
}
use heapster.Common.Dict.{Dict, lookup}
use heapster.Common.Int64.{FloatOps, two64, add64, sum64}
use heapster.Common.Result.{Result, ok, ◌>>=◌, >>=-eq-ok}
use heapster.Core.Values.{int64_type, MetricValue}
use heapster.Processors.Aggregate.{aggregate}
use heapster.Processors.Aggregate.Laws.{compatible, merge, aggregate_lem}

-- Calls with one source after the other.
abbrev pub aggregate_row :
    FloatOps → List String → List (Dict MetricValue) → Dict MetricValue → Result (Dict MetricValue)
aggregate_row f names [] dst = ok dst
aggregate_row f names (src ∷ srcs) dst = do
  dst' ← aggregate f src dst names
  aggregate_row f names srcs dst'

abbrev pub merge_all :
    FloatOps → List (Option MetricValue) → Option MetricValue → Option MetricValue
merge_all f [] a = a
merge_all f (v ∷ vs) a = merge_all f vs (merge f v a)

-- The values of one metric in a row of sources.
abbrev pub column : String → List (Dict MetricValue) → List (Option MetricValue)
column m [] = []
column m (src ∷ srcs) = lookup m src ∷ column m srcs

lookup-aggregate :
    (f : FloatOps) (src dst dst' : Dict MetricValue) (names : List String) (m : String)
    → Distinct names
    → aggregate f src dst names ≡ ok dst'
    → lookup m dst'
      ≡ (if contains names m then merge f (lookup m src) (lookup m dst) else lookup m dst)
lookup-aggregate f src dst dst' names m d h = elim (aggregate_lem f src dst names d) [
  | inl (x, r, look, fit) ↦ cc (look m, r, h)
  | inr (bad, r, isin, refused, unfit) ↦ cc
]

pub lookup-aggregate_row :
    (f : FloatOps) (names : List String) (srcs : List (Dict MetricValue)) (dst : Dict MetricValue)
    {dst' : Dict MetricValue} (m : String)
    → Distinct names
    → aggregate_row f names srcs dst ≡ ok dst'
    → lookup m dst'
      ≡ (if contains names m then merge_all f (column m srcs) (lookup m dst) else lookup m dst)
lookup-aggregate_row f names [] dst m d h = ground arith
lookup-aggregate_row f names (src ∷ srcs) dst m d h =
    let (x, r, rest) = >>=-eq-ok (aggregate f src dst names) _ h in
    ground (
      arith,
      lookup-aggregate f src dst x names m d r,
      lookup-aggregate_row f names srcs x m d rest,
    )

-- An integer metric, or none.
abbrev pub IsInt : Option MetricValue → Type 0
IsInt none = Unit
IsInt (some v) = v.value_type ≡ int64_type

abbrev pub int_of : Option MetricValue → ℕ
int_of none = 0
int_of (some v) = v.int_value

merge-IsInt : (f : FloatOps) (v a : Option MetricValue) → IsInt v → IsInt a → IsInt (merge f v a)
merge-IsInt f v a h k = ground arith

int_of-merge :
    (f : FloatOps) (v a : Option MetricValue)
    → IsInt v
    → IsInt a
    → int_of (merge f v a) % two64 ≡ add64 (int_of a) (int_of v)
unfolding add64
int_of-merge f v a h k = ground arith

add64_step : (a v s r : ℕ) → r % two64 ≡ add64 a v → add64 r s ≡ add64 a (add64 v s)
unfolding add64
add64_step a v s r h = omega arith

add64_nil : (a : ℕ) → a % two64 ≡ add64 a 0
unfolding add64
add64_nil a = omega arith

-- The integers of a row add up, modulo 2 ^ 64.
pub int_of-merge_all :
    (f : FloatOps) (vs : List (Option MetricValue)) (a : Option MetricValue)
    → All IsInt vs
    → IsInt a
    → int_of (merge_all f vs a) % two64 ≡ add64 (int_of a) (sum64 (map int_of vs))
unfolding sum64
int_of-merge_all f [] a h k = add64_nil (int_of a)
int_of-merge_all f (v ∷ vs) a h k =
    int_of-merge_all f vs (merge f v a) h.1 (merge-IsInt f v a h.0 k)
    ∙ add64_step (int_of a) (int_of v) (sum64 (map int_of vs)) (int_of (merge f v a))
        (int_of-merge f v a h.0 k)

all-compatible :
    (src dst : Dict MetricValue) (names : List String)
    → ((m : String) → contains names m ≡ true → IsInt (lookup m src) × IsInt (lookup m dst))
    → all (λ n. compatible (lookup n src) (lookup n dst)) names ≡ true
all-compatible src dst [] h = refl
all-compatible src dst (name ∷ names) h =
    let (a, b) = h name (ground (arith, str_eq_iff name name)) in
    let rest = all-compatible src dst names (λ m k. h m (ground arith)) in
    ground (arith, a, b, rest)

-- A row of integer metrics never meets a sum that is refused.
pub aggregate_row-IsInt :
    (f : FloatOps) (names : List String) (srcs : List (Dict MetricValue)) (dst : Dict MetricValue)
    → Distinct names
    → ((m : String) → contains names m ≡ true → All IsInt (column m srcs) × IsInt (lookup m dst))
    → (dst' : Dict MetricValue) × (aggregate_row f names srcs dst ≡ ok dst')
aggregate_row-IsInt f names [] dst d h = (dst, refl)
aggregate_row-IsInt f names (src ∷ srcs) dst d h = elim (aggregate_lem f src dst names d) [
  | inr (bad, r, isin, refused, unfit) ↦
      let fit = all-compatible src dst names (λ m k. ((h m k).0.0, (h m k).1)) in cc (fit, unfit)
  | inl (x, r, look, fit) ↦
      let (y, e) = aggregate_row-IsInt f names srcs x d (λ m k.
        let (a, b) = h m k in
        (a.1, rw (look m, k) (merge-IsInt f (lookup m src) (lookup m dst) a.0 b))) in
      (y, rw r e)
]
