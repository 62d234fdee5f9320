-- ===== src/Tests/Stores.antt =====
-- metrics/sinks/metric and metrics/util: the sink's stores and the label copier on concrete data.
use heapster.Common.{
  ◌-◌, ◌++◌, List, [], ◌∷◌, String, some, none, ◌≡◌, refl, arith, select, contains, Distinct,
  if◌then◌else◌, str_eq,
}
use heapster.Common.Dict.{Dict, lookup, insert, keys, or_else}
use heapster.Common.Text.{join}
use heapster.Common.Time.{after}
use heapster.Core.Labels.{label_labels}
use heapster.Core.Values.{DataBatch}
use heapster.Sinks.Metric.{
  get_labeled_metric, collect_labeled, collect_labeled_keys, collect_labeled_set, is_match,
  labels_match, append_point, MetricSink, get_metric, export_data, build_multimetric_store,
  stored_value, batch_value, as_gauge, get_latest_data_batch, get_short_store, pop_old,
}
use heapster.Sinks.Metric.History.{Export, export_many, export_many-history, earlier, last_export}
use heapster.Sinks.Metric.Series.{points_at, long_points, short_points, get_metric_lem}
use heapster.Sinks.Metric.LabeledSeries.{labeled_points, get_labeled_metric_lem}
use heapster.Sinks.Metric.Stores.{int_part, build_multimetric_store_lem}
use heapster.Util.LabelCopier.{LabelCopier, copy, copy_stored, sort_strings, joined_labels}
use heapster.Util.LabelCopier.Sorts.{Sorts}
use heapster.Util.LabelCopier.Labels.{kept_texts, stored_under, lookup-copy}
use heapster.Core.Values.{gauge, int_metric}
use heapster.Tests.Data.{pod_a, pods}

abbrev late : DataBatch
late = record pods { timestamp = 160 }

abbrev latest : DataBatch
latest = record pods { timestamp = 220 }

-- Two minutes of short store, three minutes of CPU requests.
abbrev sink : MetricSink
sink = record {
  long_store_metrics = "cpu/request" ∷ [];
  long_store_duration = 180;
  short_store_duration = 100;
  short_store = [];
  long_store = [];
}

abbrev exports : List Export
exports = (170, late) ∷ (230, latest) ∷ []

-- The first batch is dropped by the last export.
history_run : (export_many ((110, pods) ∷ exports) sink).short_store ≡ late ∷ latest ∷ []
unfolding export_many export_data pop_old
history_run = refl

export_many-history_example :
    ((export_many ((110, pods) ∷ exports) sink).short_store
      ≡ select
          (λ b. after b.timestamp ((last_export (110, pods) exports).0 - sink.short_store_duration))
          (earlier pods exports)
        ++ (last_export (110, pods) exports).1 ∷ [])
    × (get_latest_data_batch (export_many ((110, pods) ∷ exports) sink)
        ≡ some (last_export (110, pods) exports).1)
    × (get_short_store (export_many ((110, pods) ∷ exports) sink)
        ≡ (export_many ((110, pods) ∷ exports) sink).short_store)
export_many-history_example =
    export_many-history sink (110, pods) exports refl (omega arith, (omega arith, tt))

abbrev filled : MetricSink
filled = record sink { short_store = late ∷ latest ∷ [] }

abbrev asked : List String
asked = "node:n1" ∷ "namespace:web/pod:b" ∷ []

asked-Distinct : Distinct asked
asked-Distinct = (refl, (refl, tt))

get_metric_lem_example :
    points_at "namespace:web/pod:b" (get_metric "memory/request" asked 150 200 filled) ≡ (
      if contains filled.long_store_metrics "memory/request"
      then long_points "memory/request" "namespace:web/pod:b" 150 200 filled.long_store
      else short_points "memory/request" "namespace:web/pod:b" 150 200 filled.short_store)
get_metric_lem_example =
    get_metric_lem "memory/request" asked 150 200 "namespace:web/pod:b" asked-Distinct refl filled

-- Two disks, of which one is asked for.
abbrev with_disks : DataBatch
with_disks = record pods {
  metric_sets =
      (
        "node:n1",
        record pod_a {
          labeled_metrics =
              (record {
                name = "disk/io_read_bytes";
                labels = ("resource_id", "sda") ∷ [];
                value = int_metric gauge 12;
              })
              ∷ (record {
                name = "disk/io_read_bytes";
                labels = ("resource_id", "sdb") ∷ [];
                value = int_metric gauge 34;
              })
              ∷ [];
        },
      )
      ∷ [];
}

abbrev disk_sink : MetricSink
disk_sink = record sink { short_store = with_disks ∷ [] }

abbrev sdb : Dict String
sdb = ("resource_id", "sdb") ∷ []

one_disk :
    get_labeled_metric "disk/io_read_bytes" sdb asked 50 200 disk_sink
    ≡ ("node:n1", record { value = int_metric gauge 34; timestamp = 100 } ∷ []) ∷ []
unfolding get_labeled_metric collect_labeled collect_labeled_keys collect_labeled_set is_match
    labels_match append_point lookup insert
one_disk = refl

get_labeled_metric_lem_example :
    points_at "node:n1" (get_labeled_metric "disk/io_read_bytes" sdb asked 50 200 disk_sink)
    ≡ labeled_points "disk/io_read_bytes" sdb "node:n1" 50 200 disk_sink.short_store
get_labeled_metric_lem_example =
    get_labeled_metric_lem "disk/io_read_bytes" sdb asked 50 200 "node:n1" asked-Distinct refl
      disk_sink

pods-keys-Distinct : Distinct (keys pods.metric_sets)
pods-keys-Distinct = (refl, (refl, (refl, tt)))

build_multimetric_store_lem_example :
    (stored_value "cpu/request"
        (build_multimetric_store ("cpu/request" ∷ []) pods)
        "namespace:web/pod:a"
      ≡ (if contains ("cpu/request" ∷ []) "cpu/request"
          then as_gauge (int_part (batch_value "cpu/request" pods "namespace:web/pod:a"))
          else none))
    × ((build_multimetric_store ("cpu/request" ∷ []) pods).timestamp ≡ pods.timestamp)
build_multimetric_store_lem_example =
    build_multimetric_store_lem ("cpu/request" ∷ []) pods "cpu/request" "namespace:web/pod:a"
      pods-keys-Distinct

-- The copier keeps the label "app" as "service".
abbrev copier : LabelCopier
copier = record {
  label_separator = ",";
  stored_labels = ("app", "service") ∷ [];
  ignored_labels = ("hash", "") ∷ [];
}

abbrev app_labels : Dict String
app_labels = ("hash", "7f") ∷ ("tier", "front") ∷ ("app", "shop") ∷ []

lookup-copy_example :
    (texts : List String) × Sorts (kept_texts copier app_labels) texts
    × (lookup "labels" (copy copier app_labels []) ≡ (
        if str_eq label_labels.key "labels"
        then some (join copier.label_separator texts)
        else or_else (stored_under copier app_labels "labels") (lookup "labels" [])))
lookup-copy_example = lookup-copy copier app_labels [] "labels"

copied : copy copier app_labels [] ≡ ("service", "shop") ∷ ("labels", "app:shop,tier:front") ∷ []
unfolding copy copy_stored joined_labels sort_strings lookup insert
copied = refl
