-- ===== src/Processors/PodEnricher.antt =====
-- metrics/processors/pod_based_enricher.go: pods and their containers are given what the API server
-- knows of them, and a set is made for those that no source reported. The lister of client-go is a
-- parameter: the pod that it finds for a namespace and a name.
pub mod Resources
pub mod Keyed
pub mod Stubs
pub mod Complete
use heapster.Common.{
  ℕ, String, List, [], ◌∷◌, Option, none, some, Bool, ◌||◌, if◌then◌else◌, ◌==◌, str_eq,
}
use heapster.Common.Dict.{Dict, lookup, insert, insert_all, value_or, is_some}
use heapster.Common.Text.{concat}
use heapster.Common.Time.{Time, zero_time}
use heapster.Core.Keys.{pod_key, pod_container_key}
use heapster.Core.Labels.{
  label_metric_set_type, label_pod_id, label_pod_name, label_namespace_name, label_container_name,
  label_container_base_image, label_nodename, label_hostname, label_host_id, metric_set_type_pod,
  metric_set_type_pod_container,
}
use heapster.Core.Metrics.Defs.{Metric, plain}
use heapster.Core.Metrics.Derived
use heapster.Core.Values.{MetricValue, MetricSet, DataBatch, gauge, int64_type, count, int_metric}
use heapster.Processors.Labels.{label_of}
use heapster.Util.LabelCopier.{LabelCopier, copy}

-- A quantity of Kubernetes, by what its `MilliValue()` and its `Value()` return.
pub record Quantity : Type 0 where
  pub milli_value : ℕ
  pub value : ℕ

pub record Container : Type 0 where
  pub name : String
  pub image : String
  pub requests : Dict Quantity
  pub limits : Dict Quantity

pub record ContainerStatus : Type 0 where
  pub name : String
  pub restart_count : ℕ

-- `start_time` is none where `Status.StartTime` is nil or the zero time.
pub record Pod : Type 0 where
  pub namespace : String
  pub name : String
  pub uid : String
  pub labels : Dict String
  pub containers : List Container
  pub container_statuses : List ContainerStatus
  pub start_time : Option Time

-- `podLister.Pods(namespace).Get(name)`; none for an error or no pod.
abbrev pub Lister : Type 0
Lister = String → String → Option Pod

abbrev pub int_value : ℕ → MetricValue
int_value x = int_metric gauge x

-- `core.ResourceRequestMetrics` as the program starts.
abbrev pub resource_request_metrics : Dict Metric
resource_request_metrics =
    ("cpu", Derived.metric_cpu_request)
    ∷ ("memory", Derived.metric_memory_request)
    ∷ ("ephemeral-storage", Derived.metric_ephemeral_storage_request)
    ∷ []

-- The metric that is made for a resource that has none.
unfoldable pub new_request_metric : String → Metric
new_request_metric key = plain (record {
  name = concat (key ∷ "/request" ∷ []);
  description = concat (key ∷ " resource request. This metric is Kubernetes specific." ∷ []);
  labels = [];
  metric_type = gauge;
  value_type = int64_type;
  units = count;
})

unfoldable pub add_to_table : String → Option Metric → Dict Metric → Dict Metric
add_to_table key (some metric) table = table
add_to_table key none table = insert key (new_request_metric key) table

abbrev pub amount : String → Quantity → ℕ
amount key q = if str_eq key "cpu" then q.milli_value else q.value

-- The values of a set, and the table of the metrics of requests, which all calls share.
unfoldable pub add_requests :
    Dict Quantity → Dict MetricValue → Dict Metric → Dict MetricValue × Dict Metric
unfolding add_to_table
add_requests [] values table = (values, table)
add_requests ((key, q) ∷ rest) values table =
    let metric = value_or (new_request_metric key) (lookup key table) in
    add_requests rest (insert metric.descriptor.name (int_value (amount key q)) values)
      (add_to_table key (lookup key table) table)

unfoldable pub zero_if_missing :
    String → Metric → Dict Quantity → Dict MetricValue → Dict MetricValue
zero_if_missing key metric requests values =
    if is_some (lookup key requests)
    then values
    else insert metric.descriptor.name (int_value 0) values

abbrev pub amount_or_zero : String → Option Quantity → ℕ
amount_or_zero key none = 0
amount_or_zero key (some q) = amount key q

unfoldable pub set_limit : String → Metric → Dict Quantity → Dict MetricValue → Dict MetricValue
set_limit key metric limits values =
    insert metric.descriptor.name (int_value (amount_or_zero key (lookup key limits))) values

-- `updateContainerResourcesAndLimits`.
unfoldable pub update_container_resources_and_limits :
    Container → Dict MetricValue → Dict Metric → Dict MetricValue × Dict Metric
update_container_resources_and_limits c values table =
    let (requested, table') = add_requests c.requests values table in
    (
      set_limit "ephemeral-storage" Derived.metric_ephemeral_storage_limit c.limits (
          set_limit "memory" Derived.metric_memory_limit c.limits (
            set_limit "cpu" Derived.metric_cpu_limit c.limits (
              zero_if_missing "ephemeral-storage" Derived.metric_ephemeral_storage_request
                c.requests
                (zero_if_missing "memory" Derived.metric_memory_request c.requests
                  (zero_if_missing "cpu" Derived.metric_cpu_request c.requests requested))))),
      table',
    )

-- What the calls of one `Process` share: the new sets, and the table.
pub record EnricherState : Type 0 where
  pub new_ms : Dict MetricSet
  pub table : Dict Metric

abbrev pub with_start : Option Time → MetricSet → MetricSet
with_start none ms = ms
with_start (some t) ms = record ms { entity_create_time = t }

abbrev pub stub_labels : Pod → MetricSet → Container → Dict String
stub_labels pod pod_ms c =
    (label_metric_set_type.key, metric_set_type_pod_container)
    ∷ (label_namespace_name.key, pod.namespace)
    ∷ (label_pod_name.key, pod.name)
    ∷ (label_container_name.key, c.name)
    ∷ (label_container_base_image.key, c.image)
    ∷ (label_pod_id.key, pod.uid)
    ∷ (label_nodename.key, label_of label_nodename.key pod_ms)
    ∷ (label_hostname.key, label_of label_hostname.key pod_ms)
    ∷ (label_host_id.key, label_of label_host_id.key pod_ms)
    ∷ []

-- The set made for a container of a pod that no source reported.
unfoldable pub container_stub :
    LabelCopier → Pod → MetricSet → Container → Dict MetricValue → MetricSet
container_stub copier pod pod_ms c values = record {
  collection_start_time = zero_time;
  entity_create_time = pod_ms.collection_start_time;
  scrape_time = zero_time;
  metric_values = values;
  labels = copy copier pod.labels (stub_labels pod pod_ms c);
  labeled_metrics = [];
}

unfoldable pub put_stub :
    LabelCopier
    → Pod
    → MetricSet
    → Container
    → String
    → Dict MetricValue × Dict Metric
    → EnricherState
    → EnricherState
put_stub copier pod pod_ms c key (values, table') s = record {
  new_ms = insert key (container_stub copier pod pod_ms c values) s.new_ms;
  table = table';
}

-- The body of the loop of `addPodInfo`, for one container of the pod.
unfoldable pub add_container_stub :
    LabelCopier → Dict MetricSet → Pod → MetricSet → Container → EnricherState → EnricherState
add_container_stub copier sets pod pod_ms c s =
    let key = pod_container_key pod.namespace pod.name c.name in
    if is_some (lookup key sets) || is_some (lookup key s.new_ms)
    then s
    else put_stub copier pod pod_ms c key (update_container_resources_and_limits c [] s.table) s

unfoldable pub add_container_stubs :
    LabelCopier → Dict MetricSet → Pod → MetricSet → List Container → EnricherState → EnricherState
add_container_stubs copier sets pod pod_ms [] s = s
add_container_stubs copier sets pod pod_ms (c ∷ cs) s =
    add_container_stubs copier sets pod pod_ms cs (add_container_stub copier sets pod pod_ms c s)

-- What `addPodInfo` does to the pod's own set.
unfoldable pub pod_info : LabelCopier → Pod → MetricSet → MetricSet
pod_info copier pod ms =
    with_start pod.start_time
      (record ms { labels = copy copier pod.labels (insert label_pod_id.key pod.uid ms.labels) })

-- `addContainerInfo` up to its first loop's end: the container of the pod's spec with that key.
abbrev pub image_unless : Option String → String → Dict String → Dict String
image_unless (some present) image labels = labels
image_unless none image labels = insert label_container_base_image.key image labels

abbrev pub with_resources :
    Container → MetricSet → Dict MetricValue × Dict Metric → MetricSet × Dict Metric
with_resources c ms (values, table) = (
  record ms {
    metric_values = values;
    labels = image_unless (lookup label_container_base_image.key ms.labels) c.image ms.labels;
  },
  table,
)

unfoldable pub spec_info :
    String → Pod → List Container → MetricSet → Dict Metric → MetricSet × Dict Metric
spec_info key pod [] ms table = (ms, table)
spec_info key pod (c ∷ cs) ms table =
    let rest = spec_info key pod cs ms table in
    if str_eq key (pod_container_key pod.namespace pod.name c.name)
    then with_resources c ms (update_container_resources_and_limits c ms.metric_values table)
    else rest

-- Its second loop: the status of the container with that key.
unfoldable pub status_info : String → Pod → List ContainerStatus → MetricSet → MetricSet
status_info key pod [] ms = ms
status_info key pod (st ∷ sts) ms =
    let rest = status_info key pod sts ms in
    if str_eq key (pod_container_key pod.namespace pod.name st.name)
    then with_start pod.start_time (record ms {
      metric_values =
          insert Derived.metric_restart_count.descriptor.name (int_value st.restart_count)
            ms.metric_values;
    })
    else rest

-- The labels that a container gets from its pod.
unfoldable pub container_info : LabelCopier → String → Pod → MetricSet → MetricSet
container_info copier key pod ms =
    let ms1 = status_info key pod pod.container_statuses ms in
    record ms1 { labels = copy copier pod.labels (insert label_pod_id.key pod.uid ms1.labels) }

-- The set made for the pod of a container, where no source reported it.
unfoldable pub pod_stub : Pod → MetricSet → MetricSet
pod_stub pod container_ms = with_start pod.start_time (record {
  collection_start_time = zero_time;
  entity_create_time = zero_time;
  scrape_time = zero_time;
  metric_values = [];
  labels =
      (label_metric_set_type.key, metric_set_type_pod)
      ∷ (label_namespace_name.key, label_of label_namespace_name.key container_ms)
      ∷ (label_pod_name.key, label_of label_pod_name.key container_ms)
      ∷ (label_nodename.key, label_of label_nodename.key container_ms)
      ∷ (label_hostname.key, label_of label_hostname.key container_ms)
      ∷ (label_host_id.key, label_of label_host_id.key container_ms)
      ∷ [];
  labeled_metrics = [];
})

-- The end of `addContainerInfo`: the stub of the pod, and of the pod's other containers.
unfoldable pub add_pod_stub :
    LabelCopier → Dict MetricSet → Pod → MetricSet → EnricherState → EnricherState
add_pod_stub copier sets pod container_ms s =
    let key =
      pod_key (label_of label_namespace_name.key container_ms)
        (label_of label_pod_name.key container_ms) in
    let pod_ms = pod_info copier pod (pod_stub pod container_ms) in
    if is_some (lookup key sets) || is_some (lookup key s.new_ms)
    then s
    else add_container_stubs copier sets pod pod_ms pod.containers
        (record s { new_ms = insert key pod_ms s.new_ms })

-- `addPodInfo` for a set of the batch.
unfoldable pub add_pod_info :
    LabelCopier → Dict MetricSet → Pod → MetricSet → EnricherState → MetricSet × EnricherState
add_pod_info copier sets pod ms s =
    let ms' = pod_info copier pod ms in
    (ms', add_container_stubs copier sets pod ms' pod.containers s)

abbrev add_container_info_with :
    LabelCopier
    → Dict MetricSet
    → String
    → Pod
    → EnricherState
    → MetricSet × Dict Metric
    → MetricSet × EnricherState
add_container_info_with copier sets key pod s (ms, table') =
    let ms' = container_info copier key pod ms in
    (ms', add_pod_stub copier sets pod ms' (record s { table = table' }))

-- `addContainerInfo`.
unfoldable pub add_container_info :
    LabelCopier
    → Dict MetricSet
    → String
    → Pod
    → MetricSet
    → EnricherState
    → MetricSet × EnricherState
add_container_info copier sets key pod ms s =
    add_container_info_with copier sets key pod s (spec_info key pod pod.containers ms s.table)

abbrev pub with_pod :
    (Pod → MetricSet → EnricherState → MetricSet × EnricherState)
    → Option Pod
    → MetricSet
    → EnricherState
    → MetricSet × EnricherState
with_pod add none ms s = (ms, s)
with_pod add (some pod) ms s = add pod ms s

-- The body of the loop of `Process`, for one set of the batch.
unfoldable pub enrich_set :
    Lister
    → LabelCopier
    → Dict MetricSet
    → String
    → MetricSet
    → EnricherState
    → MetricSet × EnricherState
enrich_set lister copier sets key ms s =
    let kind = label_of label_metric_set_type.key ms in
    let pod = lister (label_of label_namespace_name.key ms) (label_of label_pod_name.key ms) in
    if str_eq kind metric_set_type_pod
    then with_pod (add_pod_info copier sets) pod ms s
    else (if str_eq kind metric_set_type_pod_container
        then with_pod (add_container_info copier sets key) pod ms s
        else (ms, s))

-- The loop. The sets are only asked for their keys, which stay.
unfoldable pub enrich_sets :
    Lister
    → LabelCopier
    → Dict MetricSet
    → Dict MetricSet
    → EnricherState
    → Dict MetricSet × EnricherState
enrich_sets lister copier sets [] s = ([], s)
enrich_sets lister copier sets ((key, ms) ∷ rest) s =
    let (ms', s1) = enrich_set lister copier sets key ms s in
    let (rest', s2) = enrich_sets lister copier sets rest s1 in ((key, ms') ∷ rest', s2)

-- `PodBasedEnricher.Process`, which never fails: the batch, and the table afterwards.
unfoldable pub pod_enricher_process :
    Lister → LabelCopier → Dict Metric → DataBatch → DataBatch × Dict Metric
pod_enricher_process lister copier table batch =
    let (sets, s) =
      enrich_sets lister copier batch.metric_sets batch.metric_sets
        (record { new_ms = []; table = table }) in
    (record batch { metric_sets = insert_all s.new_ms sets }, s.table)
