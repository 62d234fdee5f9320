-- ===== src/Tests/Sources.antt =====
-- metrics/sources: concrete nodes, summaries and containers.
use heapster.Common.{
  any, ℕ, String, List, [], ◌∷◌, Option, none, some, true, false, ◌≡◌, refl, subst, All,
  if◌then◌else◌, map,
}
use heapster.Common.Bags.{take_out}
use heapster.Common.Dict.{Dict, lookup}
use heapster.Common.Result.{Result, ok, error, ok_injective}
use heapster.Common.Text.{concat, cut}
use heapster.Core.Keyed.{AllKeyed, of_pod}
use heapster.Core.Keyed.Sound.{Sound}
use heapster.Core.Keys.{pod_key, pod_container_key}
use heapster.Core.Values.{MetricSet, DataBatch}
use heapster.Flags.{Uri, UrlOps, uri_string, uris_of_flags}
use heapster.Flags.RoundTrip.{uris_of_flags-uri_string}
use heapster.Sources.Kubelet.{
  kubelet_scrape_metrics, decode_all, decode_metrics, decode_sample, decode_samples, key_and_labels,
  container_name_of, drop_chars, container_key_and_labels, namespace_and_pod,
  handle_kubernetes_container,
}
use heapster.Sources.Kubelet.Keyed.{kubelet_scrape_metrics-AllKeyed}
use heapster.Sources.Kubelet.Values.{ContainerInfo}
use heapster.Sources.Manager.{
  Answer, from_source, Turn, response_of, received, response_loop, manager_scrape_metrics,
}
use heapster.Sources.Manager.Responses.{BatchSound, AnswerSound, IsIn, response_loop-Completes}
use heapster.Sources.Manager.Arrivals.{Arrivals, latest, manager_scrape_metrics_lem}
use heapster.Sources.Nodes.{
  Node, ParseIp, SourceNode, get_node_hostname_and_ip, is_unready, scan_addresses,
}
use heapster.Sources.Nodes.Addresses.{
  known_as, denies_ready, chosen_host, chosen_ip, get_node_hostname_and_ip_lem,
}
use heapster.Sources.Stats.{ContainerStats, FsStats, PodStats, Summary}
use heapster.Sources.Summary.{NodeInfo, decode_summary, decode_container_stats}
use heapster.Sources.Summary.Containers.{Since, decode_containers-latest}
use heapster.Sources.Summary.Keyed.{decode_summary-AllKeyed}
use heapster.Sources.Summary.Panics.{
  panic_text, containers_ok, decode_container_stats-Decided, decode_summary-succeeds,
}
use heapster.Tests.Data.{pod_a}

abbrev used : Option ℕ → Option FsStats
used bytes = some (record {
  available_bytes = some 5;
  capacity_bytes = some 20;
  used_bytes = bytes;
  inodes_free = none;
  inodes = none;
})

abbrev container : String → ℕ → Option ℕ → ContainerStats
container name start bytes = record {
  name = name;
  start_time = start;
  cpu = some (record { time = 900; usage_core_nano_seconds = some 3 });
  memory = none;
  accelerators = [];
  rootfs = used bytes;
  logs = used (some 1);
  user_defined_metrics = [];
}

abbrev pod_stats : PodStats
pod_stats = record {
  pod_ref = record { name = "a"; namespace = "web"; uid = "u1" };
  start_time = 10;
  containers = container "c" 20 (some 7) ∷ container "c" 10 (some 3) ∷ [];
  cpu = none;
  memory = none;
  network = none;
  volume_stats = [];
  ephemeral_storage = used (some 9);
}

abbrev summary : Summary
summary = record {
  node = record {
    node_name = "n1";
    system_containers = container "kubelet" 5 (some 2) ∷ [];
    start_time = 1;
    cpu = none;
    memory = none;
    network = none;
    fs = none;
  };
  pods = pod_stats ∷ [];
}

abbrev info : NodeInfo
info = record { node_name = "n1"; host_name = "h1"; host_id = "" }

decode_summary-succeeds_example :
    (sets : Dict MetricSet) × (decode_summary 1000 info summary ≡ ok sets)
decode_summary-succeeds_example =
    decode_summary-succeeds 1000 info summary (refl, tt) ((refl, (refl, tt)), tt)

abbrev summary_sets : Dict MetricSet
summary_sets = (decode_summary-succeeds 1000 info summary (refl, tt) ((refl, (refl, tt)), tt)).0

decode_summary-AllKeyed_example : AllKeyed summary_sets
decode_summary-AllKeyed_example =
    decode_summary-AllKeyed 1000 info summary refl
      (decode_summary-succeeds 1000 info summary (refl, tt) ((refl, (refl, tt)), tt)).1

decode_containers-latest_example :
    All
      (λ (c : ContainerStats). Since c.start_time (
        lookup
          (pod_container_key "web" "a" c.name)
          (containers_ok 1000 [] pod_stats.pod_ref pod_stats.containers [] (refl, (refl, tt))).0))
      pod_stats.containers
decode_containers-latest_example =
    decode_containers-latest 1000 [] pod_stats.pod_ref pod_stats.containers []
      (containers_ok 1000 [] pod_stats.pod_ref pod_stats.containers [] (refl, (refl, tt))).1

-- A container without the used bytes of its file system.
decode_container_stats-Decided_example :
    decode_container_stats 1000 [] (container "c" 20 none) false ≡ error panic_text
decode_container_stats-Decided_example =
    decode_container_stats-Decided 1000 [] (container "c" 20 none) false

abbrev parse_all : ParseIp
parse_all text = some text

abbrev node : Node
node = record {
  name = "n1";
  unschedulable = false;
  external_id = "x";
  annotations = [];
  conditions = record { condition_type = "Ready"; status = "True" } ∷ [];
  addresses =
      record { address_type = "InternalIP"; address = "10.0.0.1" }
      ∷ record { address_type = "Hostname"; address = "h1" }
      ∷ [];
}

get_node_hostname_and_ip_lem_example : get_node_hostname_and_ip parse_all node ≡ (
    if any denies_ready node.conditions
    then error (concat ("node " ∷ "n1" ∷ " is not ready" ∷ []))
    else known_as "n1"
        (chosen_host node)
        (chosen_ip parse_all node)
        (parse_all (chosen_ip parse_all node)))
get_node_hostname_and_ip_lem_example = get_node_hostname_and_ip_lem parse_all node

hostname_and_ip : get_node_hostname_and_ip parse_all node ≡ ok ("h1", "10.0.0.1")
unfolding get_node_hostname_and_ip is_unready scan_addresses
hostname_and_ip = refl

-- A system container, as cAdvisor reports it.
abbrev system_container : ContainerInfo
system_container = record {
  name = "/kubelet";
  spec = record {
    creation_time = 3;
    has_cpu = true;
    has_memory = false;
    has_network = false;
    has_filesystem = false;
    has_disk_io = false;
  };
  labels = [];
  image = "";
  has_custom_metrics = false;
  custom_metrics = [];
  stats =
      record {
        timestamp = 900;
        stats = record {
          load_average = 0;
          cpu_usage_total = 5;
          memory_usage = 0;
          memory_cache = 0;
          memory_rss = 0;
          memory_working_set = 0;
          pgfault = 0;
          pgmajfault = 0;
          interfaces = [];
          filesystem = [];
          io_service_bytes = [];
          accelerators = [];
        };
        custom_metrics = [];
      }
      ∷ [];
}

abbrev source_node : SourceNode
source_node = record {
  ip = "10.0.0.1";
  node_name = "n1";
  host_name = "h1";
  host_id = "x";
  schedulable = "true";
}

abbrev batch_or : DataBatch → Result DataBatch → DataBatch
batch_or b (ok c) = c
batch_or b (error e) = b

abbrev no_batch : DataBatch
no_batch = record { timestamp = 0; metric_sets = [] }

abbrev kubelet_batch : DataBatch
kubelet_batch =
    batch_or no_batch (kubelet_scrape_metrics 1000 source_node 960 (ok (system_container ∷ [])))

kubelet_scrape_metrics-AllKeyed_example :
    AllKeyed kubelet_batch.metric_sets × (kubelet_batch.timestamp ≡ 960)
unfolding kubelet_scrape_metrics decode_all decode_metrics decode_samples decode_sample
    key_and_labels container_name_of cut lookup
kubelet_scrape_metrics-AllKeyed_example =
    kubelet_scrape_metrics-AllKeyed 1000 source_node 960 (ok (system_container ∷ []))
      {batch = kubelet_batch} refl

-- Two sources, of which the second is first to answer.
abbrev answer_of : MetricSet → String → ℕ → Answer
answer_of ms key now = record {
  scraped = ok (some (record { timestamp = 960; metric_sets = (key, ms) ∷ [] }));
  now = now;
}

abbrev pod_set_of : String → MetricSet
pod_set_of name = record pod_a {
  labels =
      ("type", "pod") ∷ ("namespace_name", "web") ∷ ("pod_name", name) ∷ ("nodename", "n1") ∷ [];
}

abbrev answers : List Answer
answers =
    answer_of (pod_set_of "a") "namespace:web/pod:a" 1005
    ∷ answer_of (pod_set_of "b") "namespace:web/pod:b" 1003
    ∷ []

abbrev turns : List Turn
turns =
    record { now = 1000; choice = from_source 1 }
    ∷ record { now = 1003; choice = from_source 0 }
    ∷ []

sound_answer :
    (name : String) (now : ℕ) → AnswerSound (answer_of (pod_set_of name) (pod_key "web" name) now)
unfolding lookup
sound_answer name now batch e =
    subst BatchSound (ok_injective e) ((of_pod refl refl, tt), (refl, tt))

manager_scrape_metrics_lem_example :
    let response = manager_scrape_metrics 20 1000 960 turns answers in
    (batches : List (Option DataBatch)) × Arrivals 1020 turns answers batches
    × ((key : String) → lookup key response.metric_sets ≡ latest key batches)
    × (response.timestamp ≡ 960)
    × Sound response.metric_sets
unfolding pod_key
manager_scrape_metrics_lem_example =
    manager_scrape_metrics_lem 20 1000 960 turns answers
      (sound_answer "a" 1005, (sound_answer "b" 1003, tt))

response_loop-Completes_example : All (IsIn (response_loop 1020 turns answers []) 1020) answers
unfolding received take_out response_of
response_loop-Completes_example =
    response_loop-Completes 1020 turns answers [] (refl, (_, _, refl, (refl, (_, _, refl, refl))))

-- URLs as their texts.
abbrev text_urls : UrlOps String
text_urls = record {
  no_url = "";
  url_string = λ u. u;
  parse = λ text. ok text;
  expand_env = λ text. text;
}

abbrev uris : List (Uri String)
uris =
    record { key = "kubernetes"; val = "https://k8s:443" } ∷ record { key = "log"; val = "" } ∷ []

uris_of_flags-uri_string_example :
    uris_of_flags text_urls (map (uri_string text_urls) uris) [] ≡ ok uris
unfolding cut
uris_of_flags-uri_string_example =
    uris_of_flags-uri_string text_urls uris []
      ((refl, refl, λ e. cc, λ e. refl), ((refl, refl, λ e. refl, λ e. refl), tt))

flag_text :
    uri_string text_urls (record { key = "kubernetes"; val = "https://k8s" })
    ≡ "kubernetes:https://k8s"
unfolding uri_string
flag_text = refl

-- A name with a dot among its first characters.
dot_panics :
    key_and_labels source_node (record system_container { name = "/a.b" })
    ≡ error "slice bounds out of range"
unfolding key_and_labels container_name_of cut drop_chars lookup
dot_panics = refl

-- A container of Kubernetes 1.0: its name and its pod are in the full name and one label.
abbrev old_container : ContainerInfo
old_container = record system_container {
  name = "k8s_kube-ui.7f9b83f6_kube-ui-v1";
  labels = ("io.kubernetes.pod.name", "kube-system/kube-ui-v1") ∷ [];
}

abbrev key_in : Result (String × Dict String) → String
key_in (ok kl) = kl.0
key_in (error e) = e

old_key :
    key_in (key_and_labels source_node old_container)
    ≡ "namespace:kube-system/pod:kube-ui-v1/container:kube-ui"
unfolding key_and_labels container_name_of cut drop_chars lookup container_key_and_labels
    namespace_and_pod handle_kubernetes_container pod_container_key
old_key = refl
