-- ===== src/Server/Chain.antt =====
-- metrics/heapster.go: what the chain of processors keeps of a batch.
use heapster.Common.{subst, List, ◌≡◌, All, some}
use heapster.Common.Result.{Result, ok, ok_injective}
use heapster.Core.Keyed.Same.{KeepsKeys}
use heapster.Core.Keyed.Sound.{Sound}
use heapster.Core.Values.{DataBatch}
use heapster.Manager.{run_round}
use heapster.Manager.Pipeline.{Passes, end_of, then_by, run_round_lem}
use heapster.Processors.PodEnricher.Complete.{Distinct-keys-pod_enricher_process}
use heapster.Processors.PodEnricher.Keyed.{pod_enricher_process-AllKeyed}
use heapster.Processors.Sound.{
  Sound-rate_process, Sound-namespace_enricher_process, Sound-autoscaling_process,
}
use heapster.Processors.Sound.Aggregators.{
  Sound-namespace_process, Sound-node_process, Sound-cluster_process,
}
use heapster.Processors.Sound.Pods.{Sound-pod_process}
use heapster.Processors.Pod.{skipped_metrics}
use heapster.Server.{
  Surroundings, metrics_to_aggregate, metrics_to_aggregate_for_node, create_data_processors,
}

-- A processor that keeps every set under its key, each key once, where it succeeds.
abbrev pub KeepsSound : (DataBatch → Result DataBatch) → Type 0
KeepsSound p = (b b' : DataBatch) → p b ≡ ok b' → Sound b.metric_sets → Sound b'.metric_sets

abbrev Sounds : DataBatch → Type 0
Sounds b = Sound b.metric_sets

Sound-Passes :
    {ps : List (DataBatch → Result DataBatch)} {b d : DataBatch}
    → All KeepsSound ps
    → Passes ps b d
    → Sound b.metric_sets
    → Sound d.metric_sets
Sound-Passes a (end_of b) s = s
Sound-Passes a (then_by e p) s = Sound-Passes a.1 p (a.0 _ _ e s)

data_processors-KeepSound :
    (w : Surroundings) → KeepsKeys w.label_copier → All KeepsSound (create_data_processors w)
unfolding create_data_processors
data_processors-KeepSound w keeps =
    let rated : KeepsSound _ =
      λ b b' h s. subst Sounds (ok_injective h) (Sound-rate_process w.ops w.calculator b s) in
    let with_pods : KeepsSound _ = λ b b' h s. subst Sounds (ok_injective h) (
      pod_enricher_process-AllKeyed w.pod_lister w.label_copier w.table b keeps s.0,
      Distinct-keys-pod_enricher_process w.pod_lister w.label_copier w.table b s.1,
    ) in
    let with_uids : KeepsSound _ = λ b b' h s.
      subst Sounds (ok_injective h) (Sound-namespace_enricher_process w.namespace_store b s) in
    let pods : KeepsSound _ = λ b b' h s. Sound-pod_process w.ops skipped_metrics b h s in
    let namespaces : KeepsSound _ =
      λ b b' h s. Sound-namespace_process w.ops metrics_to_aggregate b h s in
    let nodes : KeepsSound _ =
      λ b b' h s. Sound-node_process w.ops metrics_to_aggregate_for_node b h s in
    let cluster : KeepsSound _ =
      λ b b' h s. Sound-cluster_process w.ops metrics_to_aggregate b h s in
    let shares : KeepsSound _ =
      λ b b' h s. Sound-autoscaling_process w.ops w.label_copier w.node_list b keeps h s in
    (rated, (with_pods, (with_uids, (pods, (namespaces, (nodes, (cluster, (shares, tt))))))))

-- Where a scrape has every set under the key that its labels name, each key once, the batch that a
-- round exports after all of Heapster's processors has so too, whatever the processors know as the
-- round begins. No label of an object is stored under the name of a label that names a set.
pub run_round-Sound :
    (w : Surroundings) (scraped exported : DataBatch)
    → KeepsKeys w.label_copier
    → Sound scraped.metric_sets
    → run_round (ok scraped) (create_data_processors w) ≡ some exported
    → Sound exported.metric_sets
run_round-Sound w scraped exported keeps s h =
    let (b, e, p) = (run_round_lem (ok scraped) (create_data_processors w) exported).0 h in
    Sound-Passes (data_processors-KeepSound w keeps) p (subst Sounds (ok_injective e) s)
