-- ===== src/Sinks/Metric/History.antt =====
-- metrics/sinks/metric/metric_sink.go: what the stores hold after a history of exports.
use heapster.Common.{
  ℕ, ◌-◌, ◌≤◌, List, [], ◌∷◌, ◌++◌, some, false, Bool-cases, inl, inr, select, get_last?-append,
  ◌≡◌, refl, ◌∙◌, arith,
}
use mathlib.Core.List.{append-nil, append_assoc}
use heapster.Common.Time.{Time, after}
use heapster.Core.Values.{DataBatch}
use heapster.Sinks.Metric.{
  MetricSink, export_data, pop_old, copy_batches, get_latest_data_batch, get_short_store,
}

-- A batch, and the time at which it is exported.
abbrev pub Export : Type 0
Export = Time × DataBatch

unfoldable pub export_many : List Export → MetricSink → MetricSink
export_many [] sink = sink
export_many ((now, batch) ∷ es) sink = export_many es (export_data now batch sink)

-- The clock does not go back.
abbrev pub IsOrdered : Time → List Export → Type 0
IsOrdered t [] = Unit
IsOrdered t ((now, batch) ∷ es) = (t ≤ now) × IsOrdered now es

-- The batches before the last, and the last export.
abbrev pub earlier : DataBatch → List Export → List DataBatch
earlier first [] = []
earlier first ((now, batch) ∷ es) = first ∷ earlier batch es

abbrev pub last_export : Export → List Export → Export
last_export e [] = e
last_export e (e' ∷ es) = last_export e' es

-- A stricter cutoff later makes up for the earlier one.
pop_old-pop_old :
    (xs ys : List DataBatch) (c d : Time)
    → c ≤ d
    → pop_old (pop_old xs c ++ ys) d ≡ pop_old (xs ++ ys) d
unfolding pop_old
pop_old-pop_old [] ys c d h = refl
pop_old-pop_old (x ∷ xs) ys c d h = elim (Bool-cases (after x.timestamp c)) [
  | inl q ↦ rw (q, pop_old-pop_old xs ys c d h)
  | inr q ↦
      let gone : after x.timestamp d ≡ false = ground arith in
      rw (q, gone, pop_old-pop_old xs ys c d h)
]

history_from :
    (es : List Export) (e : Export) (sink : MetricSink) (old : List DataBatch)
    → IsOrdered e.0 es
    → sink.short_store ≡ pop_old old (e.0 - sink.short_store_duration) ++ e.1 ∷ []
    → let last = last_export e es in
      (export_many es sink).short_store
      ≡ pop_old (old ++ earlier e.1 es) (last.0 - sink.short_store_duration) ++ last.1 ∷ []
unfolding export_many export_data
history_from [] e sink old o h = rw append-nil h
history_from ((now, batch) ∷ es) e sink old o h =
    rw (← append_assoc old (e.1 ∷ []) (earlier batch es)) (
      history_from es (now, batch) (export_data now batch sink) (old ++ e.1 ∷ []) o.1
        (rw (h, pop_old-pop_old old (e.1 ∷ []) (e.0 - d) (now - d) (omega arith))))
  where
    d : ℕ
    d = sink.short_store_duration

copy_batches-append : (bs result : List DataBatch) → copy_batches bs result ≡ result ++ bs
unfolding copy_batches
copy_batches-append [] result = rw append-nil
copy_batches-append (b ∷ bs) result =
    copy_batches-append bs (result ++ b ∷ []) ∙ append_assoc result (b ∷ []) bs

-- After any exports into an empty short store, by a clock that does not go back, the store holds
-- the last batch, and before it, in their order, those earlier batches whose timestamps are after
-- the cutoff of the last export. The latest batch is the last one exported, and a reader is given
-- the whole store.
pub export_many-history :
    (sink : MetricSink) (e : Export) (es : List Export)
    → sink.short_store ≡ []
    → IsOrdered e.0 es
    → let last = last_export e es in
      let sink' = export_many (e ∷ es) sink in
      (sink'.short_store
        ≡ select (λ b. after b.timestamp (last.0 - sink.short_store_duration)) (earlier e.1 es)
          ++ last.1 ∷ [])
      × (get_latest_data_batch sink' ≡ some last.1)
      × (get_short_store sink' ≡ sink'.short_store)
unfolding export_many export_data pop_old get_latest_data_batch get_short_store
export_many-history sink e es empty o =
    let next = export_data e.0 e.1 sink in
    let same = history_from es e next [] o (rw empty) in
    (
      same,
      rw same (
          get_last?-append
            (pop_old (earlier e.1 es) ((last_export e es).0 - sink.short_store_duration))
            (last_export e es).1),
      copy_batches-append (export_many es next).short_store [],
    )
