-- ===== src/Processors/Rate/Values.antt =====
-- metrics/processors/rate_calculator.go: the rates that one set is given.
use heapster.Common.{
  ℕ, ◌*◌, ◌-◌, ◌/◌, ◌%◌, ◌≤◌, ◌<◌, String, List, [], ◌∷◌, Option, none, some, false, Bool-cases,
  inl, inr, if◌then◌else◌, ◌≡◌, refl, ◌∙◌, arith, str_eq, str_eq_iff, contains, Distinct, All,
}
use heapster.Common.Dict.{Dict, lookup, keys, or_else, lookup-insert}
use heapster.Common.Int64.{FloatOps, two64, two63, sub64, mul64, sub64-of_le, div64-nonneg}
use heapster.Common.Time.{Time, unix_nano, sub64-unix_nano}
use heapster.Core.Metrics.Defs.{Metric}
use heapster.Core.Values.{MetricValue, MetricSet}
use heapster.Processors.Rate.{
  cpu_rate, rate_value, rate_of, both, put_value, is_disk_io, rate_step, rates,
}

mul64-of_lt : (a b : ℕ) → a * b < two64 → mul64 a b ≡ a * b
unfolding mul64
mul64-of_lt a b h = omega (arith, small (a * b) h)
  where
    small : (n : ℕ) → n < two64 → n % two64 ≡ n
    small n k = omega arith

div_small : (a b : ℕ) → a < two63 → a / b % two64 ≡ a / b
div_small a b h = grind arith

-- In milliseconds of CPU for each second, which are millicores: no wrap-around touches the CPU rate
-- between two scrapes in order, where the counter is an `int64` pattern that did not fall, and its
-- growth times 1000 and the time between the scrapes fit an `int64`.
pub cpu_rate_exact :
    (new old : ℕ) (t u : Time)
    → old ≤ new
    → 1000 * (new - old) < two63
    → new < two64
    → u < t
    → t - u < two63
    → cpu_rate new old (sub64 (unix_nano t) (unix_nano u)) ≡ 1000 * (new - old) / (t - u)
unfolding cpu_rate
cpu_rate_exact new old t u h k n b s =
    rw
      (
        sub64-of_le new old h n,
        sub64-unix_nano t u (omega arith) (omega arith),
        mul64-of_lt 1000 (new - old) (omega arith),
        div64-nonneg (1000 * (new - old)) (t - u) k s,
      )
      (div_small (1000 * (new - old)) (t - u) k)

-- The rate of one entry of the mapping, from the values that the sets have; none for disk traffic.
abbrev pub rate_entry : FloatOps → MetricSet → MetricSet → String → Metric → Option MetricValue
rate_entry f old_ms new_ms name target =
    if is_disk_io name
    then none
    else rate_of f name target new_ms old_ms
        (both (lookup name new_ms.metric_values) (lookup name old_ms.metric_values))

-- The rate that is stored under a name.
abbrev pub rate_for : FloatOps → MetricSet → MetricSet → Dict Metric → String → Option MetricValue
rate_for f old_ms new_ms [] n = none
rate_for f old_ms new_ms ((name, target) ∷ mapping) n =
    let other = rate_for f old_ms new_ms mapping n in
    if str_eq target.descriptor.name n then rate_entry f old_ms new_ms name target else other

abbrev pub target_names : Dict Metric → List String
target_names [] = []
target_names ((name, target) ∷ mapping) = target.descriptor.name ∷ target_names mapping

-- No two metrics have one target, and no rate is itself the source of a rate.
abbrev pub IsMapping : Dict Metric → Type 0
IsMapping mapping =
    Distinct (target_names mapping)
    × All (λ t. contains (keys mapping) t ≡ false) (target_names mapping)

module _ (f : FloatOps) (old_ms : MetricSet) where
  -- One round writes its rate and nothing else.
  lookup-rate_step :
      (new_ms : MetricSet) (name n : String) (target : Metric)
      → (lookup n (rate_step f old_ms name target new_ms).metric_values ≡ (
          if str_eq target.descriptor.name n
          then or_else (rate_entry f old_ms new_ms name target) (lookup n new_ms.metric_values)
          else lookup n new_ms.metric_values))
        × ((rate_step f old_ms name target new_ms).scrape_time ≡ new_ms.scrape_time)
  unfolding rate_step
  lookup-rate_step new_ms name n target = elim (Bool-cases (is_disk_io name)) [
    | inl d ↦ rw d (ground arith, refl)
    | inr d ↦ rw d (written (rate_of f name target new_ms old_ms _))
  ]
    where
      written :
          (o : Option MetricValue)
          → (lookup n (put_value target.descriptor.name o new_ms).metric_values ≡ (
              if str_eq target.descriptor.name n
              then or_else o (lookup n new_ms.metric_values)
              else lookup n new_ms.metric_values))
            × ((put_value target.descriptor.name o new_ms).scrape_time ≡ new_ms.scrape_time)
      written none = (ground arith, refl)
      written (some v) = (lookup-insert n target.descriptor.name v new_ms.metric_values, refl)

  rate_of_same :
      (new_ms new' : MetricSet) (name : String) (target : Metric)
      (o : Option (MetricValue × MetricValue))
      → new'.scrape_time ≡ new_ms.scrape_time
      → rate_of f name target new' old_ms o ≡ rate_of f name target new_ms old_ms o
  unfolding rate_value
  rate_of_same new_ms new' name target none e = refl
  rate_of_same new_ms new' name target (some (x, y)) e = rw e

  rate_entry_same :
      (new_ms new' : MetricSet) (name : String) (target : Metric)
      → new'.scrape_time ≡ new_ms.scrape_time
      → lookup name new'.metric_values ≡ lookup name new_ms.metric_values
      → rate_entry f old_ms new' name target ≡ rate_entry f old_ms new_ms name target
  rate_entry_same new_ms new' name target e a = rw (
    a,
    rate_of_same new_ms new' name target
        (both (lookup name new_ms.metric_values) (lookup name old_ms.metric_values)) e,
  )

  rate_for_same :
      (new_ms new' : MetricSet) (mapping : Dict Metric) (n : String)
      → new'.scrape_time ≡ new_ms.scrape_time
      → All (λ k. lookup k new'.metric_values ≡ lookup k new_ms.metric_values) (keys mapping)
      → rate_for f old_ms new' mapping n ≡ rate_for f old_ms new_ms mapping n
  rate_for_same new_ms new' [] n e a = refl
  rate_for_same new_ms new' ((name, target) ∷ mapping) n e a =
      rw (rate_entry_same new_ms new' name target e a.0, rate_for_same new_ms new' mapping n e a.1)

  pub rate_for-none :
      (new_ms : MetricSet) (mapping : Dict Metric) (n : String)
      → contains (target_names mapping) n ≡ false
      → rate_for f old_ms new_ms mapping n ≡ none
  rate_for-none new_ms [] n h = refl
  rate_for-none new_ms ((name, target) ∷ mapping) n h =
      ground (arith, rate_for-none new_ms mapping n)

  sources_kept :
      (new_ms : MetricSet) (name : String) (target : Metric) (ks : List String)
      → contains ks target.descriptor.name ≡ false
      → All
          (λ k.
            lookup k (rate_step f old_ms name target new_ms).metric_values
            ≡ lookup k new_ms.metric_values)
          ks
  sources_kept new_ms name target [] h = tt
  sources_kept new_ms name target (k ∷ ks) h =
      let t = target.descriptor.name in
      let look = (lookup-rate_step new_ms name k target).0 in
      (
        ground (arith, look, str_eq_iff t k, str_eq_iff k t),
        sources_kept new_ms name target ks (ground arith),
      )

  drop_key :
      (k : String) (ks ts : List String)
      → All (λ t. contains (k ∷ ks) t ≡ false) ts
      → All (λ t. contains ks t ≡ false) ts
  drop_key k ks [] a = tt
  drop_key k ks (t ∷ ts) a = (ground arith, drop_key k ks ts a.1)

  -- Every metric of the set afterwards is the rate of that name, taken from the values that the two
  -- sets had at the start, or else what it was. The mapping gives no two metrics one target, and
  -- takes no rate from a rate.
  pub lookup-rates :
      (mapping : Dict Metric) (new_ms : MetricSet) (n : String)
      → IsMapping mapping
      → lookup n (rates f old_ms mapping new_ms).metric_values
        ≡ or_else (rate_for f old_ms new_ms mapping n) (lookup n new_ms.metric_values)
  unfolding rates
  lookup-rates [] new_ms n h = refl
  lookup-rates ((name, target) ∷ mapping) new_ms n (d, a) =
      let t = target.descriptor.name in
      let next = rate_step f old_ms name target new_ms in
      let (look, time) = lookup-rate_step new_ms name n target in
      let kept = sources_kept new_ms name target (keys mapping) (ground arith) in
      let same = rate_for_same new_ms next mapping n time kept in
      let rest =
        lookup-rates mapping next n
          (d.1, drop_key name (keys mapping) (target_names mapping) a.1) in
      elim (Bool-cases (str_eq t n)) [
        | inl q ↦
            let gone = rate_for-none new_ms mapping n (rw ((str_eq_iff t n).0 q) at d.0) in
            rest ∙ rw (same, gone, look, q)
        | inr q ↦ rest ∙ rw (same, look, q)
      ]
