-- ===== src/Lib.antt =====
-- Heapster collects the resource metrics of a Kubernetes cluster. Every resolution its manager
-- scrapes the sources into a batch of metric sets, one for each node, pod, container and so on, runs
-- a chain of processors over it, and hands the batch to the sinks. The eventer, a second program,
-- hands the events of Kubernetes to sinks of its own. This library models the sources, the manager's
-- loop, the processors, the sink that keeps recent batches in memory for the API, the managers of the
-- sinks, the source of the events, and the data that they share.
--
-- The files, and the code that they are about:
--   Common         native numbers, lists, Go's maps, integers, times, texts and errors
--   Core           metrics/core: Values is types.go, Keys is ms_keys.go, Labels is labels.go, and
--                  Metrics is metrics.go, with the metrics themselves in Standard, Derived and
--                  Labeled, the tables in Tables, and `MetricFamilyForName` in Families. Cadvisor
--                  has the fields that metrics.go reads of cAdvisor's structs. Keyed says what the
--                  labels of a set have to do with its key, which all parts rely on
--   Sources        metrics/sources: Summary is summary/summary.go, with the fields that it reads of
--                  the kubelet's statistics in Stats; Kubelet is kubelet/kubelet.go; Nodes has the
--                  choice of the nodes of both; Manager is manager.go
--   Processors     metrics/processors: Aggregate is `aggregate` of helper.go, Cluster, Node and
--                  Namespace are the aggregators that call it, Rate is rate_calculator.go, Pod is
--                  pod_aggregator.go, PodEnricher is pod_based_enricher.go, NamespaceEnricher is
--                  namespace_based_enricher.go, and Autoscaling is node_autoscaling_enricher.go.
--                  `cluster_process` is `ClusterAggregator.Process`, and likewise for the others.
--                  Sound is about all of them
--   Sinks.Metric   metrics/sinks/metric/metric_sink.go: `export_data` is `ExportData`, `get_metric`
--                  is `GetMetric`, and so on
--   Sinks.Manager  metrics/sinks/manager.go and events/sinks/manager.go, which differ in the type of
--                  the batches only
--   Util           metrics/util/label_copier.go
--   Manager        metrics/manager/manager.go: `housekeep` is the call that begins a round, `finish`
--                  the end of its goroutine, `run_round` what the goroutine does, and Rounds has the
--                  step relation of these with `stop`
--   Server         metrics/heapster.go: the chain of the processors, the health check and the check
--                  of the options
--   Flags          common/flags/flags.go
--   Events         events/sources/kubernetes/kubernetes_source.go in Source, and the wait of
--                  events/manager/manager.go in Manager
--   Tests          runs on concrete inputs
--
-- How the code is modelled:
--   An `int64` or `uint64` is its bit pattern, a number below 2 ^ 64, and sums wrap as in Go. A
--   `float64` is a bit pattern whose arithmetic is a parameter, the record FloatOps. A `time.Time`
--   counts the nanoseconds since year 1. Quantities of Kubernetes and durations are not negative.
--   A Go map is a list of keys and values in the order of iteration, which Go leaves open: a theorem
--   about every list is one about every order.
--   A batch holds pointers to its sets. Where a loop changes sets that it may visit later, it goes
--   over the keys and reads each set as it stands by then.
--   The rate calculator keeps a pointer to the last batch, which later processors change. The kept
--   batch is part of its state, and what the others do to it between the calls is a parameter.
--   An `error` is a value of Result. Logging and instrumentation are left out.
--   The methods of the metric sink hold its mutex, so that each is one step; `GetLabeledMetric`
--   does not, and is modelled as a read of one state.
--   A scrape reads the clock for every uptime; the model reads it once. A panic is an error too.
--   Names of containers are texts of ASCII characters, whose bytes the code counts.
--   Code that runs at once is a list of events, or a step relation, one event at a time: the
--   sources' answers and the turns of the source manager, the watch of events and the calls of
--   `GetNewEvents`, the goroutines at each sink. What the code cannot do at some point changes
--   nothing there.
--   The answers of client-go's stores and listers, the kubelet's answers, `net.ParseIP`, URLs with
--   their parser and printer, and what the sinks do are parameters.
--   The decimal numbers of disk names are printed with at most 20 digits, which is enough for
--   any number below 2 ^ 64.
--
-- Not modelled: the HTTP client of the kubelet and the construction of clients and servers; the
-- external sinks, which are mostly calls of client libraries; the queries of historical metrics; the
-- REST API; the latencies that the source manager logs; the loop of the eventer's manager; and
-- everything under vendor.
pub mod Common
pub mod Core
pub mod Sources
pub mod Processors
pub mod Sinks
pub mod Util
pub mod Manager
pub mod Flags
pub mod Server
pub mod Events
pub mod Tests
