-- ===== src/Processors/Autoscaling/Metrics.antt =====
-- metrics/processors/node_autoscaling_enricher.go: the metrics of a node after the enricher.
use heapster.Common.{
  ℕ, String, List, [], ◌∷◌, Option, none, some, false, Bool-cases, inl, inr, if◌then◌else◌, ◌==◌,
  str_eq, str_eq_iff, ◌≡◌, refl, ◌∙◌, arith, All,
}
use heapster.Common.Dict.{Dict, lookup, lookup-insert, lookup-insert_ne}
use heapster.Common.Int64.{FloatOps, Float64}
use heapster.Core.Metrics.Defs.{Metric}
use heapster.Core.Metrics.Derived
use heapster.Core.Metrics.Tables.{node_autoscaling_metrics}
use heapster.Core.Metrics.Standard
use heapster.Core.Metrics.Families.{is_node_autoscaling_metric, has_name}
use heapster.Core.Values.{MetricValue, gauge, float_type, float_gauge}
use heapster.Processors.Autoscaling.{
  KubeNode, int_or_zero, get_int, set_float, set_shares, set_pair, set_storage, node_values,
}

lookup-set_shares :
    (f : FloatOps) (u r : Metric) (used requested a : ℕ) (values : Dict MetricValue) (n : String)
    → lookup n (set_shares f u r used requested a values) ≡ (
        if a == 0
        then lookup n values
        else if str_eq r.descriptor.name n
        then some (float_gauge (f.fdiv (f.of_int64 requested) (f.of_int64 a)))
        else if str_eq u.descriptor.name n
        then some (float_gauge (f.fdiv (f.of_int64 used) (f.of_int64 a)))
        else lookup n values)
unfolding set_shares set_float
lookup-set_shares f u r used requested a values n = elim (Bool-cases (a == 0)) [
  | inl q ↦ rw q
  | inr q ↦ rw q (simp lookup-insert)
]

-- A name that no metric of a list has.
absent-All :
    (ms : List Metric) (n : String)
    → has_name ms n ≡ false
    → All (λ m. str_eq m.descriptor.name n ≡ false) ms
absent-All [] n h = tt
absent-All (m ∷ ms) n h = (
  ground (arith, str_eq_iff n m.descriptor.name, str_eq_iff m.descriptor.name n),
  absent-All ms n (ground arith),
)

lookup-set_float_ne :
    (m : Metric) (x : Float64) (values : Dict MetricValue) (n : String)
    → str_eq m.descriptor.name n ≡ false
    → lookup n (set_float m x values) ≡ lookup n values
unfolding set_float
lookup-set_float_ne m x values n h = lookup-insert_ne n m.descriptor.name (float_gauge x) values h

lookup-set_shares_ne :
    (f : FloatOps) (u r : Metric) (used requested a : ℕ) (values : Dict MetricValue) (n : String)
    → str_eq u.descriptor.name n ≡ false
    → str_eq r.descriptor.name n ≡ false
    → lookup n (set_shares f u r used requested a values) ≡ lookup n values
lookup-set_shares_ne f u r used requested a values n hu hr =
    lookup-set_shares f u r used requested a values n ∙ ground (arith, hu, hr)

lookup-set_pair_ne :
    (f : FloatOps) (c m : Metric) (x y : ℕ) (values : Dict MetricValue) (n : String)
    → str_eq c.descriptor.name n ≡ false
    → str_eq m.descriptor.name n ≡ false
    → lookup n (set_pair f c m x y values) ≡ lookup n values
lookup-set_pair_ne f c m x y values n hc hm =
    lookup-set_float_ne m (f.of_int64 y) (set_float c (f.of_int64 x) values) n hm
    ∙ lookup-set_float_ne c (f.of_int64 x) values n hc

lookup-set_storage_ne :
    (f : FloatOps) (n : String) (used requested : ℕ) (c m : Option ℕ) (values : Dict MetricValue)
    → str_eq Derived.metric_node_ephemeral_storage_capacity.descriptor.name n ≡ false
    → str_eq Derived.metric_node_ephemeral_storage_allocatable.descriptor.name n ≡ false
    → str_eq Derived.metric_node_ephemeral_storage_utilization.descriptor.name n ≡ false
    → str_eq Derived.metric_node_ephemeral_storage_reservation.descriptor.name n ≡ false
    → lookup n (set_storage f used requested c m values) ≡ lookup n values
unfolding set_storage
lookup-set_storage_ne f n used requested (some c) (some m) values hc ha hu hr =
    lookup-set_shares_ne f _ _ used requested m _ n hu hr
    ∙ lookup-set_pair_ne f _ _ c m values n hc ha
lookup-set_storage_ne f n used requested _ _ values hc ha hu hr = refl

module _ (f : FloatOps) (n : String) (h : is_node_autoscaling_metric n ≡ false) where
  absent : All (λ m. str_eq m.descriptor.name n ≡ false) node_autoscaling_metrics
  unfolding is_node_autoscaling_metric
  absent = absent-All node_autoscaling_metrics n h

  -- The enricher writes no metric of a node but those that `IsNodeAutoscalingMetric` names.
  pub node_values_others :
      (node : KubeNode) (values : Dict MetricValue)
      → lookup n (node_values f node values) ≡ lookup n values
  unfolding node_values
  node_values_others node values =
      let a = absent in
      lookup-set_storage_ne f n _ _ node.capacity.ephemeral_storage
        node.allocatable.ephemeral_storage _ a.1.1.0 a.1.1.1.1.1.0 a.1.1.1.1.1.1.1.1.0
        a.1.1.1.1.1.1.1.1.1.1.1.0
      ∙ lookup-set_pair_ne f _ _ node.capacity.mem node.allocatable.mem _ n a.1.0 a.1.1.1.1.0
      ∙ lookup-set_shares_ne f _ _ _ _ node.allocatable.mem _ n a.1.1.1.1.1.1.1.0
          a.1.1.1.1.1.1.1.1.1.1.0
      ∙ lookup-set_pair_ne f _ _ node.capacity.cpu node.allocatable.cpu _ n a.0 a.1.1.1.0
      ∙ lookup-set_shares_ne f _ _ _ _ node.allocatable.cpu values n a.1.1.1.1.1.1.0
          a.1.1.1.1.1.1.1.1.1.0

-- The integer that is read of a metric, 0 where there is none.
abbrev pub int_of : Option MetricValue → ℕ
int_of none = 0
int_of (some v) = v.int_value

abbrev pub int_at : Dict MetricValue → Metric → ℕ
int_at values m = int_of (lookup m.descriptor.name values)

same_int : (o : Option MetricValue) → int_or_zero o ≡ int_of o
same_int none = refl
same_int (some v) = refl

get_int-int_at : (values : Dict MetricValue) (m : Metric) → get_int values m ≡ int_at values m
unfolding get_int
get_int-int_at values m = same_int (lookup m.descriptor.name values)

-- A gauge of floats.
abbrev pub gauge_of : Float64 → MetricValue
gauge_of x = record { int_value = 0; float_value = x; metric_type = gauge; value_type = float_type }

-- The share that a node uses: nothing new where nothing can be allocated.
abbrev pub share : FloatOps → ℕ → ℕ → Option MetricValue → Option MetricValue
share f part whole old =
    if whole == 0 then old else some (gauge_of (f.fdiv (f.of_int64 part) (f.of_int64 whole)))

-- What the values hold afterwards of CPU and of memory.
abbrev pub NodeShares : FloatOps → KubeNode → Dict MetricValue → Type 0
NodeShares f node values =
    let get = λ (m : Metric). lookup m.descriptor.name (node_values f node values) in
    let old = λ (m : Metric). lookup m.descriptor.name values in
    (get Derived.metric_node_cpu_utilization
      ≡ share f (int_at values Derived.metric_cpu_usage_rate) node.allocatable.cpu
          (old Derived.metric_node_cpu_utilization))
    × (get Derived.metric_node_cpu_reservation
        ≡ share f (int_at values Derived.metric_cpu_request) node.allocatable.cpu
            (old Derived.metric_node_cpu_reservation))
    × (get Derived.metric_node_memory_utilization
        ≡ share f (int_at values Standard.metric_memory_usage) node.allocatable.mem
            (old Derived.metric_node_memory_utilization))
    × (get Derived.metric_node_memory_reservation
        ≡ share f (int_at values Derived.metric_memory_request) node.allocatable.mem
            (old Derived.metric_node_memory_reservation))
    × (get Derived.metric_node_cpu_capacity ≡ some (gauge_of (f.of_int64 node.capacity.cpu)))
    × (get Derived.metric_node_cpu_allocatable ≡ some (gauge_of (f.of_int64 node.allocatable.cpu)))
    × (get Derived.metric_node_memory_capacity ≡ some (gauge_of (f.of_int64 node.capacity.mem)))
    × (get Derived.metric_node_memory_allocatable
        ≡ some (gauge_of (f.of_int64 node.allocatable.mem)))

-- The utilization and the reservation of CPU and of memory are the shares of what can be allocated
-- that are used and requested by the values before the call, and stay as they were where nothing
-- can be allocated; the capacities and what can be allocated are those of the node.
pub node_values_lem :
    (f : FloatOps) (node : KubeNode) (values : Dict MetricValue) → NodeShares f node values
unfolding node_values set_float
node_values_lem f node values =
    let c = node.capacity.ephemeral_storage in
    let m = node.allocatable.ephemeral_storage in
    let away = λ (n : String).
      lookup-set_storage_ne f n (get_int values Derived.metric_ephemeral_storage_usage)
        (get_int values Derived.metric_ephemeral_storage_request) c m in
    (
      away _ _ refl refl refl refl
          ∙ simp (lookup-set_shares, lookup-insert, get_int-int_at) (ground arith),
      away _ _ refl refl refl refl
          ∙ simp (lookup-set_shares, lookup-insert, get_int-int_at) (ground arith),
      away _ _ refl refl refl refl
          ∙ simp (lookup-set_shares, lookup-insert, get_int-int_at) (ground arith),
      away _ _ refl refl refl refl
          ∙ simp (lookup-set_shares, lookup-insert, get_int-int_at) (ground arith),
      away _ _ refl refl refl refl
          ∙ simp (lookup-set_shares, lookup-insert, get_int-int_at) (ground arith),
      away _ _ refl refl refl refl
          ∙ simp (lookup-set_shares, lookup-insert, get_int-int_at) (ground arith),
      away _ _ refl refl refl refl ∙ simp lookup-insert,
      away _ _ refl refl refl refl ∙ simp lookup-insert,
    )
