-- ===== src/Processors/PodEnricher/Resources.antt =====
-- metrics/processors/pod_based_enricher.go: the requests and the limits of a container's set.
use text.Mathlib.TextLemmas.{append_cancel_right}
use heapster.Common.{
  String, [], ◌∷◌, Option, none, some, false, Bool-cases, inl, inr, ◌≡◌, refl, ◌∙◌, sym, ap,
  Option-cases, not, ◌&&◌, str_eq, str_eq_iff, contains, Distinct, if◌then◌else◌, arith,
}
use heapster.Common.Dict.{
  Dict, lookup, insert, keys, is_some, value_or, is_some-lookup, lookup-insert, lookup-insert_self,
  lookup-insert_ne,
}
use heapster.Common.Text.{concat}
use heapster.Core.Metrics.Defs.{Metric}
use heapster.Core.Values.{MetricValue}
use heapster.Processors.PodEnricher.{
  Quantity, Container, int_value, resource_request_metrics, new_request_metric, add_to_table,
  amount, add_requests, zero_if_missing, amount_or_zero, set_limit,
  update_container_resources_and_limits,
}

-- The name of the metric of a resource's requests.
abbrev pub request_name : String → String
request_name key =
    if str_eq key "ephemeral-storage"
    then "ephemeral_storage/request"
    else concat (key ∷ "/request" ∷ [])

-- The table names the metrics of the resources that way, those that it has yet to get included.
abbrev pub IsTable : Dict Metric → Type 0
IsTable table =
    (key : String)
    → (value_or (new_request_metric key) (lookup key table)).descriptor.name ≡ request_name key

pub resource_request_metrics-IsTable : IsTable resource_request_metrics
unfolding lookup new_request_metric
resource_request_metrics-IsTable key = elim (Bool-cases (str_eq key "ephemeral-storage")) [
  | inl e ↦ rw ((str_eq_iff key "ephemeral-storage").0 e) refl
  | inr e ↦ elim (Bool-cases (str_eq "ephemeral-storage" key)) [
    | inl e' ↦
        ground
          (arith, e, e', str_eq_iff key "ephemeral-storage", str_eq_iff "ephemeral-storage" key)
    | inr e' ↦ elim (Bool-cases (str_eq "cpu" key)) [
      | inl c ↦ rw (← (str_eq_iff "cpu" key).0 c) refl
      | inr c ↦ elim (Bool-cases (str_eq "memory" key)) [
        | inl m ↦ rw (← (str_eq_iff "memory" key).0 m) refl
        | inr m ↦ rw (e, e', c, m) refl
      ]
    ]
  ]
]

-- No two resources share a name, but for the two whose names differ in "-" and "_" only.
request_name_injective :
    (j k : String)
    → str_eq j "ephemeral_storage" ≡ false
    → str_eq k "ephemeral_storage" ≡ false
    → request_name j ≡ request_name k
    → j ≡ k
request_name_injective j k hj hk h = elim (Bool-cases (str_eq j "ephemeral-storage")) [
  | inl p ↦ elim (Bool-cases (str_eq k "ephemeral-storage")) [
    | inl q ↦ (str_eq_iff j "ephemeral-storage").0 p ∙ sym ((str_eq_iff k "ephemeral-storage").0 q)
    | inr q ↦
        let e = append_cancel_right "ephemeral_storage" k "/request" (rw (p, q) at h) in
        let clash = (str_eq_iff k "ephemeral_storage").1 (sym e) in
        absurd (ground (arith, clash, hk))
  ]
  | inr p ↦ elim (Bool-cases (str_eq k "ephemeral-storage")) [
    | inl q ↦
        let e = append_cancel_right j "ephemeral_storage" "/request" (rw (p, q) at h) in
        let clash = (str_eq_iff j "ephemeral_storage").1 e in absurd (ground (arith, clash, hj))
    | inr q ↦ append_cancel_right j k "/request" (rw (p, q) at h)
  ]
]

IsTable-add_to_table :
    (key : String) (table : Dict Metric)
    → IsTable table
    → IsTable (add_to_table key (lookup key table) table)
unfolding add_to_table
IsTable-add_to_table key table h k = elim (Option-cases (lookup key table)) [
  | inr (metric, e) ↦ rw e (h k)
  | inl e ↦ elim (Bool-cases (str_eq key k)) [
    | inr q ↦ rw (e, lookup-insert_ne k key (new_request_metric key) table q) (h k)
    | inl q ↦
        let same = (str_eq_iff key k).0 q in
        rw (e, lookup-insert, q) (rw (← same) (rw e at (h key)))
  ]
]

abbrev pub set_amount : String → Option Quantity → Option MetricValue → Option MetricValue
set_amount key none before = before
set_amount key (some q) before = some (int_value (amount key q))

-- The loop over the requests: the resource's own request counts, and no other.
lookup-add_requests :
    (r : String) (requests : Dict Quantity) (values : Dict MetricValue) (table : Dict Metric)
    → IsTable table
    → str_eq r "ephemeral_storage" ≡ false
    → contains (keys requests) "ephemeral_storage" ≡ false
    → Distinct (keys requests)
    → lookup (request_name r) (add_requests requests values table).0
      ≡ set_amount r (lookup r requests) (lookup (request_name r) values)
unfolding add_requests lookup
lookup-add_requests r [] values table t hr hk d = refl
lookup-add_requests r ((key, q) ∷ rest) values table t hr hk d =
    let metric = value_or (new_request_metric key) (lookup key table) in
    let hkey : str_eq key "ephemeral_storage" ≡ false = ground (arith, hk) in
    let hrest : contains (keys rest) "ephemeral_storage" ≡ false = ground (arith, hk) in
    let step =
      lookup-add_requests r rest (insert metric.descriptor.name (int_value (amount key q)) values)
        (add_to_table key (lookup key table) table) (IsTable-add_to_table key table t) hr hrest
        d.1 in
    elim (Bool-cases (str_eq key r)) [
      | inl p ↦
          let same = (str_eq_iff key r).0 p in
          let missing : lookup r rest ≡ none =
            none-of_missing (lookup r rest) (is_some-lookup r rest ∙ rw (← same) d.0) in
          step
          ∙ rw (missing, t key, p, same)
              (lookup-insert_self (request_name r) (int_value (amount r q)) values)
      | inr p ↦
          let other : str_eq (request_name key) (request_name r) ≡ false =
            elim (Bool-cases (str_eq (request_name key) (request_name r))) [
              | inr o ↦ o
              | inl o ↦
                  let e =
                    request_name_injective key r hkey hr
                      ((str_eq_iff (request_name key) (request_name r)).0 o) in
                  absurd (ground (arith, p, (str_eq_iff key r).1 e))
            ] in
          step
          ∙ rw (t key, p)
              (ap (set_amount r (lookup r rest)) (
                lookup-insert_ne (request_name r) (request_name key) (int_value (amount key q))
                  values other))
    ]
  where
    none-of_missing : (o : Option Quantity) → is_some o ≡ false → o ≡ none
    none-of_missing none e = refl
    none-of_missing (some x) e = absurd (ground (arith, e))

IsTable-add_requests :
    (requests : Dict Quantity) (values : Dict MetricValue) (table : Dict Metric)
    → IsTable table
    → IsTable (add_requests requests values table).1
unfolding add_requests
IsTable-add_requests [] values table t = t
IsTable-add_requests ((key, q) ∷ rest) values table t =
    IsTable-add_requests rest _ (add_to_table key (lookup key table) table)
      (IsTable-add_to_table key table t)

lookup-zero_if_missing :
    (name key : String) (metric : Metric) (requests : Dict Quantity) (values : Dict MetricValue)
    → lookup name (zero_if_missing key metric requests values) ≡ (
        if str_eq metric.descriptor.name name && not (is_some (lookup key requests))
        then some (int_value 0)
        else lookup name values)
unfolding zero_if_missing
lookup-zero_if_missing name key metric requests values =
    elim (Bool-cases (is_some (lookup key requests))) [
      | inl p ↦ rw p (ground arith)
      | inr p ↦
          rw p (ground (arith, lookup-insert name metric.descriptor.name (int_value 0) values))
    ]

abbrev pub requested : String → Container → Option MetricValue
requested key c = some (int_value (amount_or_zero key (lookup key c.requests)))

abbrev pub limited : String → Container → Option MetricValue
limited key c = some (int_value (amount_or_zero key (lookup key c.limits)))

-- The value that a container asks for, once a missing one is zero.
settled :
    (key : String) (o : Option Quantity) (before : Option MetricValue)
    → (if not (is_some o) then some (int_value 0) else set_amount key o before)
      ≡ some (int_value (amount_or_zero key o))
settled key none before = refl
settled key (some q) before = refl

-- A call of `updateContainerResourcesAndLimits` sets the request and the limit of CPU, memory and
-- ephemeral storage to what the container's spec says, to zero where it says nothing, whatever values
-- the set had, and whatever other resources are requested: CPU in millicores, the others in whole
-- units. The table of request metrics stays one that names each metric after its resource. No
-- resource is requested twice, and none is called "ephemeral_storage".
pub update_container_resources_and_limits_lem :
    (c : Container) (values : Dict MetricValue) (table : Dict Metric)
    → IsTable table
    → contains (keys c.requests) "ephemeral_storage" ≡ false
    → Distinct (keys c.requests)
    → let after = update_container_resources_and_limits c values table in
      (lookup "cpu/request" after.0 ≡ requested "cpu" c)
      × (lookup "memory/request" after.0 ≡ requested "memory" c)
      × (lookup "ephemeral_storage/request" after.0 ≡ requested "ephemeral-storage" c)
      × (lookup "cpu/limit" after.0 ≡ limited "cpu" c)
      × (lookup "memory/limit" after.0 ≡ limited "memory" c)
      × (lookup "ephemeral_storage/limit" after.0 ≡ limited "ephemeral-storage" c)
      × IsTable after.1
unfolding update_container_resources_and_limits set_limit
update_container_resources_and_limits_lem c values table t hk d =
    let asks = λ (r : String) (hr : str_eq r "ephemeral_storage" ≡ false).
      lookup-add_requests r c.requests values table t hr hk d in
    (
      simp (lookup-insert, lookup-zero_if_missing, asks "cpu" refl, settled),
      simp (lookup-insert, lookup-zero_if_missing, asks "memory" refl, settled),
      simp (lookup-insert, lookup-zero_if_missing, asks "ephemeral-storage" refl, settled),
      simp lookup-insert,
      simp lookup-insert,
      simp lookup-insert,
      IsTable-add_requests c.requests values table t,
    )
