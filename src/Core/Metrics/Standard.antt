-- ===== src/Core/Metrics/Standard.antt =====
-- metrics/core/metrics.go: the metrics that Kubelet and cAdvisor provide, with how each is read.
use heapster.Common.{[], not}
use heapster.Common.Int64.{of_int32}
use heapster.Common.Time.{is_zero}
use heapster.Core.Values.{
  cumulative, gauge, int64_type, count, bytes, milliseconds, nanoseconds, int_metric,
}
use heapster.Core.Metrics.Defs.{Metric, valued, total, milliseconds_since}

abbrev pub metric_uptime : Metric
metric_uptime =
    valued
      (record {
        name = "uptime";
        description = "Number of milliseconds since the container was started";
        labels = [];
        metric_type = cumulative;
        value_type = int64_type;
        units = milliseconds;
      })
      (λ spec. not (is_zero spec.creation_time))
      (λ now spec stat. int_metric cumulative (milliseconds_since now spec.creation_time))

abbrev pub metric_cpu_load : Metric
metric_cpu_load =
    valued
      (record {
        name = "cpu/load";
        description = "CPU load";
        labels = [];
        metric_type = gauge;
        value_type = int64_type;
        units = count;
      })
      (λ spec. spec.has_cpu) (λ now spec stat. int_metric gauge (of_int32 stat.load_average))

abbrev pub metric_cpu_usage : Metric
metric_cpu_usage =
    valued
      (record {
        name = "cpu/usage";
        description = "Cumulative CPU usage on all cores";
        labels = [];
        metric_type = cumulative;
        value_type = int64_type;
        units = nanoseconds;
      })
      (λ spec. spec.has_cpu) (λ now spec stat. int_metric cumulative (stat.cpu_usage_total))

abbrev pub metric_memory_usage : Metric
metric_memory_usage =
    valued
      (record {
        name = "memory/usage";
        description = "Total memory usage";
        labels = [];
        metric_type = gauge;
        value_type = int64_type;
        units = bytes;
      })
      (λ spec. spec.has_memory) (λ now spec stat. int_metric gauge (stat.memory_usage))

abbrev pub metric_memory_cache : Metric
metric_memory_cache =
    valued
      (record {
        name = "memory/cache";
        description = "Cache memory";
        labels = [];
        metric_type = gauge;
        value_type = int64_type;
        units = bytes;
      })
      (λ spec. spec.has_memory) (λ now spec stat. int_metric gauge (stat.memory_cache))

abbrev pub metric_memory_rss : Metric
metric_memory_rss =
    valued
      (record {
        name = "memory/rss";
        description = "RSS memory";
        labels = [];
        metric_type = gauge;
        value_type = int64_type;
        units = bytes;
      })
      (λ spec. spec.has_memory) (λ now spec stat. int_metric gauge (stat.memory_rss))

abbrev pub metric_memory_working_set : Metric
metric_memory_working_set =
    valued
      (record {
        name = "memory/working_set";
        description =
            "Total working set usage. Working set is the memory being used and not easily dropped by the kernel";
        labels = [];
        metric_type = gauge;
        value_type = int64_type;
        units = bytes;
      })
      (λ spec. spec.has_memory) (λ now spec stat. int_metric gauge (stat.memory_working_set))

abbrev pub metric_memory_page_faults : Metric
metric_memory_page_faults =
    valued
      (record {
        name = "memory/page_faults";
        description = "Number of page faults";
        labels = [];
        metric_type = cumulative;
        value_type = int64_type;
        units = count;
      })
      (λ spec. spec.has_memory) (λ now spec stat. int_metric cumulative (stat.pgfault))

abbrev pub metric_memory_major_page_faults : Metric
metric_memory_major_page_faults =
    valued
      (record {
        name = "memory/major_page_faults";
        description = "Number of major page faults";
        labels = [];
        metric_type = cumulative;
        value_type = int64_type;
        units = count;
      })
      (λ spec. spec.has_memory) (λ now spec stat. int_metric cumulative (stat.pgmajfault))

abbrev pub metric_network_rx : Metric
metric_network_rx =
    valued
      (record {
        name = "network/rx";
        description = "Cumulative number of bytes received over the network";
        labels = [];
        metric_type = cumulative;
        value_type = int64_type;
        units = bytes;
      })
      (λ spec. spec.has_network)
      (λ now spec stat. int_metric cumulative (total (λ i. i.rx_bytes) 0 stat.interfaces))

abbrev pub metric_network_rx_errors : Metric
metric_network_rx_errors =
    valued
      (record {
        name = "network/rx_errors";
        description = "Cumulative number of errors while receiving over the network";
        labels = [];
        metric_type = cumulative;
        value_type = int64_type;
        units = count;
      })
      (λ spec. spec.has_network)
      (λ now spec stat. int_metric cumulative (total (λ i. i.rx_errors) 0 stat.interfaces))

abbrev pub metric_network_tx : Metric
metric_network_tx =
    valued
      (record {
        name = "network/tx";
        description = "Cumulative number of bytes sent over the network";
        labels = [];
        metric_type = cumulative;
        value_type = int64_type;
        units = bytes;
      })
      (λ spec. spec.has_network)
      (λ now spec stat. int_metric cumulative (total (λ i. i.tx_bytes) 0 stat.interfaces))

abbrev pub metric_network_tx_errors : Metric
metric_network_tx_errors =
    valued
      (record {
        name = "network/tx_errors";
        description = "Cumulative number of errors while sending over the network";
        labels = [];
        metric_type = cumulative;
        value_type = int64_type;
        units = count;
      })
      (λ spec. spec.has_network)
      (λ now spec stat. int_metric cumulative (total (λ i. i.tx_errors) 0 stat.interfaces))
