-- ===== src/Processors/Sound.antt =====
-- metrics/processors: every processor keeps the sets of a batch under the keys that their labels name,
-- each key once.
pub mod Aggregators
pub mod Pods
pub mod Apart
use heapster.Common.{
  String, List, [], ◌∷◌, Option, none, some, Option-cases, true, false, Bool, Bool-cases, not, inl,
  inr, ◌≡◌, refl, ◌∙◌, sym, ap, subst, str_eq, Distinct, if◌then◌else◌, arith,
}
use heapster.Common.Dict.{Dict, lookup, insert, insert_all, keys}
use heapster.Common.Int64.{FloatOps}
use heapster.Common.Result.{Result, ok, >>=-eq-ok, ok_injective}
use heapster.Common.Time.{after}
use heapster.Core.Keyed.{Keyed, AllKeyed}
use heapster.Core.Keyed.Same.{
  SameKeyLabels, Keyed-same, SameKeyLabels-insert, KeepsKeys, SameKeyLabels-copy,
}
use heapster.Core.Keyed.Sound.{Sound, Keyed-lookup, Sound-insert}
use heapster.Core.Keys.{node_key}
use heapster.Core.Labels.{label_metric_set_type, label_namespace_name, label_pod_namespace_uid}
use heapster.Core.Metrics.Defs.{Metric}
use heapster.Core.Values.{MetricValue, MetricSet, DataBatch}
use heapster.Processors.Autoscaling.{KubeNode, enrich_node, enrich_nodes, autoscaling_process}
use heapster.Processors.NamespaceEnricher.{
  StoreAnswer, failed, missing, wrong_content, namespace_uid, Store, is_enriched_type, with_answer,
  add_namespace_info, add_namespace_infos, namespace_enricher_process,
}
use heapster.Processors.Rate.{
  RateCalculator, put_value, is_disk_io, rate_step, rates, rate_set, rate_sets, rate_process,
}
use heapster.Util.LabelCopier.{LabelCopier}

labels-put_value :
    (name : String) (o : Option MetricValue) (ms : MetricSet)
    → (put_value name o ms).labels ≡ ms.labels
labels-put_value name none ms = refl
labels-put_value name (some v) ms = refl

labels-rate_step :
    (f : FloatOps) (old_ms : MetricSet) (name : String) (target : Metric) (ms : MetricSet)
    → (rate_step f old_ms name target ms).labels ≡ ms.labels
unfolding rate_step
labels-rate_step f old_ms name target ms = elim (Bool-cases (is_disk_io name)) [
  | inl q ↦ rw q refl
  | inr q ↦ rw q (labels-put_value target.descriptor.name _ ms)
]

labels-rates :
    (f : FloatOps) (old_ms : MetricSet) (mapping : Dict Metric) (ms : MetricSet)
    → (rates f old_ms mapping ms).labels ≡ ms.labels
unfolding rates
labels-rates f old_ms [] ms = refl
labels-rates f old_ms ((name, target) ∷ mapping) ms =
    labels-rates f old_ms mapping (rate_step f old_ms name target ms)
    ∙ labels-rate_step f old_ms name target ms

labels-rate_set :
    (f : FloatOps) (mapping : Dict Metric) (old : Option MetricSet) (ms : MetricSet)
    → (rate_set f mapping old ms).labels ≡ ms.labels
unfolding rate_set
labels-rate_set f mapping none ms = refl
labels-rate_set f mapping (some old) ms = ground (arith, labels-rates f old mapping ms)

AllKeyed-rate_sets :
    (f : FloatOps) (mapping : Dict Metric) (previous sets : Dict MetricSet)
    → AllKeyed sets
    → AllKeyed (rate_sets f mapping previous sets)
unfolding rate_sets
AllKeyed-rate_sets f mapping previous [] a = tt
AllKeyed-rate_sets f mapping previous ((key, ms) ∷ sets) a = (
  subst (Keyed key) (sym (labels-rate_set f mapping (lookup key previous) ms)) a.0,
  AllKeyed-rate_sets f mapping previous sets a.1,
)

keys-rate_sets :
    (f : FloatOps) (mapping : Dict Metric) (previous sets : Dict MetricSet)
    → keys (rate_sets f mapping previous sets) ≡ keys sets
unfolding rate_sets
keys-rate_sets f mapping previous [] = refl
keys-rate_sets f mapping previous ((key, ms) ∷ sets) =
    ap (λ ks. key ∷ ks) (keys-rate_sets f mapping previous sets)

pub Sound-rate_process :
    (f : FloatOps) (c : RateCalculator) (batch : DataBatch)
    → Sound batch.metric_sets
    → Sound (rate_process f c batch).0.metric_sets
unfolding rate_process
Sound-rate_process f c batch s = elim (Option-cases c.previous_batch) [
  | inl e ↦ rw (e, rate_process) s
  | inr (previous, e) ↦ elim (Bool-cases (after batch.timestamp previous.timestamp)) [
    | inr q ↦ rw (e, rate_process) (rw q s)
    | inl q ↦
        rw (e, rate_process)
          (rw q (
            AllKeyed-rate_sets f c.rate_metrics_mapping previous.metric_sets batch.metric_sets s.0,
            subst Distinct
                (sym
                  (keys-rate_sets f c.rate_metrics_mapping previous.metric_sets batch.metric_sets))
                s.1,
          ))
  ]
]

Same-with_answer :
    (a : StoreAnswer) (ms : MetricSet) → SameKeyLabels ms.labels (with_answer a ms).labels
Same-with_answer failed ms name p = refl
Same-with_answer missing ms name p = refl
Same-with_answer wrong_content ms name p = refl
Same-with_answer (namespace_uid uid) ms name p =
    SameKeyLabels-insert label_pod_namespace_uid.key uid ms.labels refl name p

Same-add_namespace_info :
    (store : Store) (ms : MetricSet) → SameKeyLabels ms.labels (add_namespace_info store ms).labels
unfolding add_namespace_info
Same-add_namespace_info store ms name p =
    elim (Option-cases (lookup label_metric_set_type.key ms.labels)) [
      | inl e ↦ rw (e, add_namespace_info) refl
      | inr (t, e) ↦ elim (Bool-cases (is_enriched_type t)) [
        | inr q ↦ rw (e, add_namespace_info) (rw q refl)
        | inl q ↦ elim (Option-cases (lookup label_namespace_name.key ms.labels)) [
          | inl g ↦ rw (e, add_namespace_info) (rw (q, g) refl)
          | inr (ns, g) ↦
              rw (e, add_namespace_info) (rw (q, g) (Same-with_answer (store ns) ms name p))
        ]
      ]
    ]

AllKeyed-namespace_infos :
    (store : Store) (sets : Dict MetricSet)
    → AllKeyed sets
    → AllKeyed (add_namespace_infos store sets)
unfolding add_namespace_infos
AllKeyed-namespace_infos store [] a = tt
AllKeyed-namespace_infos store ((key, ms) ∷ sets) a = (
  Keyed-same ms.labels (add_namespace_info store ms).labels (Same-add_namespace_info store ms) a.0,
  AllKeyed-namespace_infos store sets a.1,
)

keys-namespace_infos :
    (store : Store) (sets : Dict MetricSet) → keys (add_namespace_infos store sets) ≡ keys sets
unfolding add_namespace_infos
keys-namespace_infos store [] = refl
keys-namespace_infos store ((key, ms) ∷ sets) =
    ap (λ ks. key ∷ ks) (keys-namespace_infos store sets)

pub Sound-namespace_enricher_process :
    (store : Store) (batch : DataBatch)
    → Sound batch.metric_sets
    → Sound (namespace_enricher_process store batch).metric_sets
unfolding namespace_enricher_process
Sound-namespace_enricher_process store batch s = (
  AllKeyed-namespace_infos store batch.metric_sets s.0,
  subst Distinct (sym (keys-namespace_infos store batch.metric_sets)) s.1,
)

Sound-enrich_nodes :
    (f : FloatOps) (copier : LabelCopier) (nodes : List KubeNode) (sets : Dict MetricSet)
    → KeepsKeys copier
    → Sound sets
    → Sound (enrich_nodes f copier nodes sets)
unfolding enrich_nodes enrich_node
Sound-enrich_nodes f copier [] sets keeps s = s
Sound-enrich_nodes f copier (node ∷ nodes) sets keeps s =
    elim (Option-cases (lookup (node_key node.name) sets)) [
      | inl e ↦ rw (e, enrich_nodes) (Sound-enrich_nodes f copier nodes sets keeps s)
      | inr (ms, e) ↦
          rw (e, enrich_nodes)
            (Sound-enrich_nodes f copier nodes
              (insert (node_key node.name) (enrich_node f copier node ms) sets) keeps
              (Sound-insert (node_key node.name) (enrich_node f copier node ms) sets
                (Keyed-same ms.labels _ (SameKeyLabels-copy copier node.labels ms.labels keeps)
                  (Keyed-lookup (node_key node.name) sets e s.0))
                s))
    ]

pub Sound-autoscaling_process :
    (f : FloatOps) (copier : LabelCopier) (listed : Result (List KubeNode)) (batch : DataBatch)
    {batch' : DataBatch}
    → KeepsKeys copier
    → autoscaling_process f copier listed batch ≡ ok batch'
    → Sound batch.metric_sets
    → Sound batch'.metric_sets
unfolding autoscaling_process
Sound-autoscaling_process f copier listed batch keeps h s =
    let (nodes, r, e) = >>=-eq-ok listed _ h in
    subst (λ (b : DataBatch). Sound b.metric_sets) (ok_injective e)
      (Sound-enrich_nodes f copier nodes batch.metric_sets keeps s)
