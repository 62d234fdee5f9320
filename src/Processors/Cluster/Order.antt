-- ===== src/Processors/Cluster/Order.antt =====
-- metrics/processors/cluster_aggregator.go: Go visits a map in no fixed order, and the cluster's
-- totals do not depend on it.
use mathlib.Core.List.{Perm, Permᴰ}
use mathlib.Core.Logic.{∥∥₁_elim}
use native.Mathlib.Nat.{ℕ_set}
use heapster.Common.{
  ℕ, ◌%◌, String, List, ◌∷◌, map, true, Bool-cases, if◌then◌else◌, ◌≡◌, refl, ◌∙◌, sym, arith,
  contains, Distinct, All, inl, inr, some,
}
use heapster.Common.Dict.{Dict, lookup}
use heapster.Common.Int64.{FloatOps, two64, add64, add64-zero-sum64, sum64}
use heapster.Common.Result.{ok}
use heapster.Core.Keys.{cluster_key}
use heapster.Core.Labels.{metric_set_type_namespace}
use heapster.Core.Values.{MetricSet, DataBatch}
use heapster.Processors.Aggregate.Row.{column, IsInt, int_of}
use heapster.Processors.Cluster.{cluster_process}
use heapster.Processors.Cluster.Sum.{namespace_values, namespace_total, cluster_process-total}
use heapster.Processors.Labels.{has_kind}

-- What one set adds to the total.
abbrev contribution : String → MetricSet → ℕ
contribution m ms =
    if has_kind metric_set_type_namespace ms then int_of (lookup m ms.metric_values) else 0

namespace_total-cons :
    (m : String) (e : String × MetricSet) (rest : Dict MetricSet)
    → namespace_total m (e ∷ rest) ≡ add64 (contribution m e.1) (namespace_total m rest)
unfolding namespace_total sum64
namespace_total-cons m (key, ms) rest = elim (Bool-cases (has_kind metric_set_type_namespace ms)) [
  | inl e ↦ rw e
  | inr e ↦ rw e (sym (add64-zero-sum64 (map int_of (column m (namespace_values rest)))))
]

add64_swap : (a b c : ℕ) → add64 a (add64 b c) ≡ add64 b (add64 a c)
unfolding add64
add64_swap a b c = omega arith

namespace_total-Permᴰ :
    (m : String) {xs ys : Dict MetricSet}
    → Permᴰ xs ys
    → namespace_total m xs ≡ namespace_total m ys
namespace_total-Permᴰ m Permᴰ.nil = refl
namespace_total-Permᴰ m (Permᴰ.cons {a} {b} {l₁} {l₂} e p) =
    rw (e, namespace_total-cons m b l₁, namespace_total-cons m b l₂, namespace_total-Permᴰ m p)
namespace_total-Permᴰ m (Permᴰ.swap {a} {b} {a'} {b'} {l} e e') =
    rw
      (
        e,
        e',
        namespace_total-cons m b' (a' ∷ l),
        namespace_total-cons m a' l,
        namespace_total-cons m a' (b' ∷ l),
        namespace_total-cons m b' l,
      )
      (add64_swap (contribution m b'.1) (contribution m a'.1) (namespace_total m l))
namespace_total-Permᴰ m (Permᴰ.trans p q) = namespace_total-Permᴰ m p ∙ namespace_total-Permᴰ m q

pub namespace_total-Perm :
    (m : String) {xs ys : Dict MetricSet} → Perm xs ys → namespace_total m xs ≡ namespace_total m ys
namespace_total-Perm m p = ∥∥₁_elim p (ℕ_set _ _) (namespace_total-Permᴰ m)

module _ (f : FloatOps) (metrics : List String) (b c : DataBatch) {b' c' : DataBatch} (m : String)
    (d : Distinct metrics) (h : cluster_process f metrics b ≡ ok b')
    (k : cluster_process f metrics c ≡ ok c') (chosen : contains metrics m ≡ true)
    (ib : All IsInt (column m (namespace_values b.metric_sets)))
    (ic : All IsInt (column m (namespace_values c.metric_sets))) where
  -- Two batches with the same sets in different orders give the cluster the same integer of a
  -- chosen metric, modulo 2 ^ 64, where both are aggregated without an error, the namespaces have
  -- only integers for the metric, and no metric is chosen twice.
  pub cluster_process_order :
      Perm b.metric_sets c.metric_sets
      → (x y : MetricSet) → lookup cluster_key b'.metric_sets ≡ some x
      → lookup cluster_key c'.metric_sets ≡ some y
      → int_of (lookup m x.metric_values) % two64 ≡ int_of (lookup m y.metric_values) % two64
  cluster_process_order p x y hx hy =
      let (x', fx, tx) = cluster_process-total f metrics b m d h chosen ib in
      let (y', fy, ty) = cluster_process-total f metrics c m d k chosen ic in
      cc (namespace_total-Perm m p, fx, tx, fy, ty, hx, hy)
