-- ===== src/Processors/Node/Pods.antt =====
-- metrics/processors/node_aggregator.go: every node's set after `Process`, from the pods on it.
use heapster.Common.{
  String, List, [], ◌∷◌, Option, none, some, Option-cases, Bool, true, false, not, ◌&&◌, Bool-cases,
  if◌then◌else◌, ◌≡◌, refl, ◌∙◌, arith, str_eq, str_eq_iff, contains, Distinct, All, inl, inr,
}
use heapster.Common.Dict.{Dict, lookup, keys, lookup-insert, lookup-entries}
use heapster.Common.Int64.{FloatOps}
use heapster.Common.Result.{ok, >>=-eq-ok, ok_injective}
use heapster.Core.Keys.{node_key}
use heapster.Core.Labels.{metric_set_type_pod, label_nodename}
use heapster.Core.Values.{MetricValue, MetricSet, DataBatch}
use heapster.Processors.Aggregate.{aggregate}
use heapster.Processors.Aggregate.Row.{aggregate_row, merge_all, column, lookup-aggregate_row}
use heapster.Processors.Labels.{has_kind, label_of}
use heapster.Processors.Node.{into_node, node_visit, node_loop, node_process}

abbrev pub is_pod : MetricSet → Bool
is_pod ms = has_kind metric_set_type_pod ms

-- The set is a pod on the node with that key.
abbrev pub is_pod_on : String → MetricSet → Bool
is_pod_on nodekey ms =
    is_pod ms
    && (not (str_eq (label_of label_nodename.key ms) "")
        && str_eq (node_key (label_of label_nodename.key ms)) nodekey)

-- The metrics of the pods on a node, in the order of the batch.
abbrev pub pods_on : String → Dict MetricSet → List (Dict MetricValue)
pods_on nodekey [] = []
pods_on nodekey ((key, ms) ∷ rest) =
    let more = pods_on nodekey rest in
    if is_pod_on nodekey ms then ms.metric_values ∷ more else more

-- No pod of a list stands under the key of a given pod's node, or of an earlier pod's.
abbrev pub ApartFrom : MetricSet → Dict MetricSet → Type 0
ApartFrom pod = All (λ e. (is_pod e.1 && is_pod_on e.0 pod) ≡ false)

abbrev pub Apart : Dict MetricSet → Type 0
Apart [] = Unit
Apart ((key, ms) ∷ rest) = ApartFrom ms rest × Apart rest

ApartFrom-same :
    (ms ms' : MetricSet) (es : Dict MetricSet)
    → is_pod ms' ≡ is_pod ms
    → (is_pod ms ≡ true → ms' ≡ ms)
    → ApartFrom ms es
    → ApartFrom ms' es
ApartFrom-same ms ms' [] kind same h = tt
ApartFrom-same ms ms' ((key, m) ∷ es) kind same h = (
  elim (Bool-cases (is_pod ms)) [ inl p ↦ rw (same p) h.0 | inr p ↦ ground arith ],
  ApartFrom-same ms ms' es kind same h.1,
)

-- A set as it was, but for the metrics of one that is no pod.
abbrev Agree : String → MetricSet → Dict MetricSet → Type 0
Agree key ms sets =
    (ms' : MetricSet) × (lookup key sets ≡ some ms')
    × (is_pod ms' ≡ is_pod ms)
    × (is_pod ms ≡ true → ms' ≡ ms)

-- What one round does to the set under a key.
abbrev Visited :
    FloatOps → List String → MetricSet → Dict MetricSet → Dict MetricSet → String → Type 0
Visited f metrics ms sets sets' key =
    (is_pod_on key ms ≡ false → lookup key sets' ≡ lookup key sets)
    × (lookup key sets ≡ none → lookup key sets' ≡ none)
    × (is_pod_on key ms ≡ true
        → (node : MetricSet) → lookup key sets ≡ some node
        → (values : Dict MetricValue) × (aggregate f ms.metric_values node.metric_values metrics
            ≡ ok values)
          × (lookup key sets' ≡ some (record node { metric_values = values })))

into_node_lem :
    (f : FloatOps) (metrics : List String) (ms : MetricSet) (nodekey : String)
    (sets : Dict MetricSet) {sets' : Dict MetricSet} (key : String)
    → into_node f metrics ms nodekey sets ≡ ok sets'
    → (str_eq nodekey key ≡ false → lookup key sets' ≡ lookup key sets)
      × (lookup key sets ≡ none → lookup key sets' ≡ none)
      × (str_eq nodekey key ≡ true
          → (node : MetricSet) → lookup key sets ≡ some node
          → (values : Dict MetricValue) × (aggregate f ms.metric_values node.metric_values metrics
              ≡ ok values)
            × (lookup key sets' ≡ some (record node { metric_values = values })))
unfolding into_node
into_node_lem f metrics ms nodekey sets key h = elim (Option-cases (lookup nodekey sets)) [
  | inl e ↦
      (ground arith, ground arith, λ q node g. absurd (ground (arith, str_eq_iff nodekey key)))
  | inr (n, e) ↦
      let (values, a, r) =
        >>=-eq-ok (aggregate f ms.metric_values n.metric_values metrics) _
          (rw (e, into_node) at h) in
      let look = lookup-insert key nodekey (record n { metric_values = values }) sets in
      (
        λ q. ground (arith, look),
        λ q. ground (arith, look, str_eq_iff nodekey key),
        λ q node g.
            let same : n ≡ node = cc (e, g, (str_eq_iff nodekey key).0 q) in
            (values, rw (← same) a, rw (← same, ← ok_injective r, look, q)),
      )
]

node_visit_lem :
    (f : FloatOps) (metrics : List String) (ms : MetricSet) (sets : Dict MetricSet)
    {sets' : Dict MetricSet} (key : String)
    → node_visit f metrics ms sets ≡ ok sets'
    → Visited f metrics ms sets sets' key
unfolding node_visit
node_visit_lem f metrics ms sets key h = elim (Bool-cases (is_pod ms)) [
  | inl p ↦ elim (Bool-cases (str_eq (label_of label_nodename.key ms) "")) [
    | inl q ↦ (ground arith, ground arith, λ r. absurd (ground arith))
    | inr q ↦
        let (away, missing, found) =
          into_node_lem f metrics ms (node_key (label_of label_nodename.key ms)) sets key
            (rw (p, q, node_visit) at h) in
        (λ r. away (ground arith), missing, λ r. found (ground arith))
  ]
  | inr p ↦ (ground arith, ground arith, λ r. absurd (ground arith))
]

-- A round leaves every pod as it was, and every other set but for its metrics.
Agree-visit :
    (f : FloatOps) (metrics : List String) (pod : MetricSet) (sets : Dict MetricSet)
    {sets' : Dict MetricSet} (key : String) (ms : MetricSet)
    → node_visit f metrics pod sets ≡ ok sets'
    → (is_pod ms && is_pod_on key pod) ≡ false
    → Agree key ms sets
    → Agree key ms sets'
unfolding has_kind
Agree-visit f metrics pod sets key ms h apart (ms', l, kind, same) =
    let (away, missing, found) = node_visit_lem f metrics pod sets key h in
    elim (Bool-cases (is_pod_on key pod)) [
      | inr q ↦ (ms', away q ∙ l, kind, same)
      | inl q ↦
          let (values, a, l') = found q ms' l in
          let other : is_pod ms ≡ true → ⊥ = λ p. absurd (ground arith) in
          (record ms' { metric_values = values }, l', kind, λ p. absurd (other p))
    ]

AllAgree-visit :
    (f : FloatOps) (metrics : List String) (pod : MetricSet) (sets : Dict MetricSet)
    {sets' : Dict MetricSet} (es : Dict MetricSet)
    → node_visit f metrics pod sets ≡ ok sets'
    → ApartFrom pod es
    → All (λ e. Agree e.0 e.1 sets) es
    → All (λ e. Agree e.0 e.1 sets') es
AllAgree-visit f metrics pod sets [] h apart a = tt
AllAgree-visit f metrics pod sets ((key, ms) ∷ es) h apart a = (
  Agree-visit f metrics pod sets key ms h apart.0 a.0,
  AllAgree-visit f metrics pod sets es h apart.1 a.1,
)

module _ (f : FloatOps) (metrics : List String) where
  node_loop_lem :
      (es sets : Dict MetricSet) {sets' : Dict MetricSet} (key : String) (node : MetricSet)
      → node_loop f metrics (keys es) sets ≡ ok sets'
      → Apart es
      → All (λ e. Agree e.0 e.1 sets) es
      → lookup key sets ≡ some node
      → (values : Dict MetricValue) × (aggregate_row f metrics (pods_on key es) node.metric_values
          ≡ ok values)
        × (lookup key sets' ≡ some (record node { metric_values = values }))
  unfolding node_loop
  node_loop_lem [] sets key node h apart a g = (node.metric_values, refl, rw (← ok_injective h) g)
  node_loop_lem ((k, ms) ∷ es) sets key node h apart ((ms', l, kind, same), a) g =
      let (sets1, visit, rest) = >>=-eq-ok _ _ (rw l at h) in
      let (away, missing, found) = node_visit_lem f metrics ms' sets key visit in
      let agree =
        AllAgree-visit f metrics ms' sets es visit (ApartFrom-same ms ms' es kind same apart.0) a in
      elim (Bool-cases (is_pod_on key ms)) [
        | inl q ↦
            let it : ms' ≡ ms = same (ground arith) in
            let (v1, a1, l1) = found (rw it q) node g in
            let (v2, row, l2) =
              node_loop_lem es sets1 key (record node { metric_values = v1 }) rest apart.1 agree
                l1 in
            (v2, rw (q, ← it, a1) row, l2)
        | inr q ↦
            let off : is_pod_on key ms' ≡ false = elim (Bool-cases (is_pod ms)) [
              | inl p ↦ rw (same p) q
              | inr p ↦ ground arith
            ] in
            let (v2, row, l2) = node_loop_lem es sets1 key node rest apart.1 agree (away off ∙ g) in
            (v2, rw q row, l2)
      ]

  node_loop-none :
      (es sets : Dict MetricSet) {sets' : Dict MetricSet} (key : String)
      → node_loop f metrics (keys es) sets ≡ ok sets'
      → Apart es
      → All (λ e. Agree e.0 e.1 sets) es
      → lookup key sets ≡ none
      → lookup key sets' ≡ none
  unfolding node_loop
  node_loop-none [] sets key h apart a g = rw (← ok_injective h) g
  node_loop-none ((k, ms) ∷ es) sets key h apart ((ms', l, kind, same), a) g =
      let (sets1, visit, rest) = >>=-eq-ok _ _ (rw l at h) in
      let (away, missing, found) = node_visit_lem f metrics ms' sets key visit in
      node_loop-none es sets1 key rest apart.1
        (AllAgree-visit f metrics ms' sets es visit (ApartFrom-same ms ms' es kind same apart.0) a)
        (missing g)

Agree-of_lookup :
    (m es : Dict MetricSet) → All (λ e. lookup e.0 m ≡ some e.1) es → All (λ e. Agree e.0 e.1 m) es
Agree-of_lookup m [] a = tt
Agree-of_lookup m ((k, ms) ∷ es) a = ((ms, a.0, refl, λ p. refl), Agree-of_lookup m es a.1)

-- The set under a key after `Process`, from the one before: none where there was none, or the set
-- that was there with new metrics: of the chosen ones, the merge of its own value with those of the
-- pods whose label names the node, in the order of the batch.
abbrev pub Aggregated :
    FloatOps → List String → String → DataBatch → Option MetricSet → Option MetricSet → Type 0
Aggregated f metrics key batch none after = after ≡ none
Aggregated f metrics key batch (some node) after =
    (values : Dict MetricValue) × (after ≡ some (record node { metric_values = values }))
    × ((m : String)
        → lookup m values ≡ (
            if contains metrics m
            then merge_all f (column m (pods_on key batch.metric_sets))
                (lookup m node.metric_values)
            else lookup m node.metric_values))

-- A successful `Process` keeps the keys of the batch and its timestamp, and changes nothing of a
-- set but its metrics: a chosen metric becomes the merge of the node's own value with those of
-- the pods whose label names the node, in the order of the batch, and any other metric stays.
-- The batch has no key twice, no pod under the key of a pod's node, and no metric is chosen twice.
pub node_process_lem :
    (f : FloatOps) (metrics : List String) (batch : DataBatch) {batch' : DataBatch}
    → Distinct metrics
    → Distinct (keys batch.metric_sets)
    → Apart batch.metric_sets
    → node_process f metrics batch ≡ ok batch'
    → (batch'.timestamp ≡ batch.timestamp)
      × ((key : String)
          → Aggregated f metrics key batch
              (lookup key batch.metric_sets)
              (lookup key batch'.metric_sets))
unfolding node_process
node_process_lem f metrics batch dm dk apart h =
    let sets = batch.metric_sets in
    let (sets', loop, e) = >>=-eq-ok (node_loop f metrics (keys sets) sets) _ h in
    let agree = Agree-of_lookup sets sets (lookup-entries sets dk) in
    let eq = ok_injective e in
    (
      rw (← eq),
      λ key. elim (Option-cases (lookup key sets)) [
        | inl g ↦ rw (g, ← eq) (node_loop-none f metrics sets sets key loop apart agree g)
        | inr (node, g) ↦
            let (values, row, look) =
              node_loop_lem f metrics sets sets key node loop apart agree g in
            rw (g, ← eq)
              (
                values,
                look,
                λ m.
                    lookup-aggregate_row f metrics (pods_on key sets) node.metric_values
                      {dst' = values} m dm row,
              )
      ],
    )
