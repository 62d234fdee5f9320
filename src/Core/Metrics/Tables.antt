-- ===== src/Core/Metrics/Tables.antt =====
-- metrics/core/metrics.go: the lists of metrics, and the maps between them.
use heapster.Common.{List, [], ◌∷◌, ◌++◌}
use heapster.Core.Metrics.Standard.{
  metric_uptime, metric_cpu_load, metric_cpu_usage, metric_memory_usage, metric_memory_cache,
  metric_memory_rss, metric_memory_working_set, metric_memory_page_faults,
  metric_memory_major_page_faults, metric_network_rx, metric_network_rx_errors, metric_network_tx,
  metric_network_tx_errors,
}
use heapster.Core.Metrics.Derived.{
  metric_ephemeral_storage_usage, metric_cpu_request, metric_cpu_limit, metric_memory_request,
  metric_memory_limit, metric_ephemeral_storage_request, metric_ephemeral_storage_limit,
  metric_cpu_usage_rate, metric_memory_page_faults_rate, metric_memory_major_page_faults_rate,
  metric_network_rx_rate, metric_network_rx_errors_rate, metric_network_tx_rate,
  metric_network_tx_errors_rate, metric_node_cpu_capacity, metric_node_memory_capacity,
  metric_node_ephemeral_storage_capacity, metric_node_cpu_allocatable,
  metric_node_memory_allocatable, metric_node_ephemeral_storage_allocatable,
  metric_node_cpu_utilization, metric_node_memory_utilization,
  metric_node_ephemeral_storage_utilization, metric_node_cpu_reservation,
  metric_node_memory_reservation, metric_node_ephemeral_storage_reservation,
  metric_disk_io_read_rate, metric_disk_io_write_rate,
}
use heapster.Core.Metrics.Labeled.{
  metric_filesystem_usage, metric_filesystem_limit, metric_filesystem_available,
  metric_filesystem_inodes, metric_filesystem_inodes_free, metric_accelerator_memory_total,
  metric_accelerator_memory_used, metric_accelerator_duty_cycle, metric_disk_io_read,
  metric_disk_io_write,
}
use heapster.Core.Metrics.Defs.{Metric}
use heapster.Common.Dict.{Dict}

abbrev pub standard_metrics : List Metric
standard_metrics =
    metric_uptime ∷ metric_cpu_usage ∷ metric_cpu_load ∷ metric_ephemeral_storage_usage
    ∷ metric_memory_usage ∷ metric_memory_rss ∷ metric_memory_cache ∷ metric_memory_working_set
    ∷ metric_memory_page_faults ∷ metric_memory_major_page_faults ∷ metric_network_rx
    ∷ metric_network_rx_errors ∷ metric_network_tx ∷ metric_network_tx_errors ∷ []

abbrev pub additional_metrics : List Metric
additional_metrics =
    metric_cpu_request ∷ metric_cpu_limit ∷ metric_memory_request ∷ metric_memory_limit
    ∷ metric_ephemeral_storage_request ∷ metric_ephemeral_storage_limit ∷ []

abbrev pub rate_metrics : List Metric
rate_metrics =
    metric_cpu_usage_rate ∷ metric_memory_page_faults_rate ∷ metric_memory_major_page_faults_rate
    ∷ metric_network_rx_rate ∷ metric_network_rx_errors_rate ∷ metric_network_tx_rate
    ∷ metric_network_tx_errors_rate ∷ metric_disk_io_read_rate ∷ metric_disk_io_write_rate ∷ []

abbrev pub labeled_metrics : List Metric
labeled_metrics =
    metric_disk_io_read ∷ metric_disk_io_read_rate ∷ metric_disk_io_write
    ∷ metric_disk_io_write_rate ∷ metric_filesystem_usage ∷ metric_filesystem_limit
    ∷ metric_filesystem_available ∷ metric_filesystem_inodes ∷ metric_filesystem_inodes_free
    ∷ metric_accelerator_memory_total ∷ metric_accelerator_memory_used
    ∷ metric_accelerator_duty_cycle ∷ []

abbrev pub node_autoscaling_metrics : List Metric
node_autoscaling_metrics =
    metric_node_cpu_capacity ∷ metric_node_memory_capacity ∷ metric_node_ephemeral_storage_capacity
    ∷ metric_node_cpu_allocatable ∷ metric_node_memory_allocatable
    ∷ metric_node_ephemeral_storage_allocatable ∷ metric_node_cpu_utilization
    ∷ metric_node_memory_utilization ∷ metric_node_ephemeral_storage_utilization
    ∷ metric_node_cpu_reservation ∷ metric_node_memory_reservation
    ∷ metric_node_ephemeral_storage_reservation ∷ []

abbrev pub cpu_metrics : List Metric
cpu_metrics =
    metric_cpu_limit ∷ metric_cpu_request ∷ metric_cpu_usage ∷ metric_cpu_load
    ∷ metric_cpu_usage_rate ∷ metric_node_cpu_allocatable ∷ metric_node_cpu_capacity
    ∷ metric_node_cpu_reservation ∷ metric_node_cpu_utilization ∷ []

abbrev pub filesystem_metrics : List Metric
filesystem_metrics =
    metric_filesystem_available ∷ metric_filesystem_limit ∷ metric_filesystem_usage
    ∷ metric_filesystem_inodes ∷ metric_filesystem_inodes_free ∷ []

abbrev pub memory_metrics : List Metric
memory_metrics =
    metric_memory_limit ∷ metric_memory_major_page_faults ∷ metric_memory_major_page_faults_rate
    ∷ metric_memory_page_faults ∷ metric_memory_page_faults_rate ∷ metric_memory_request
    ∷ metric_memory_usage ∷ metric_memory_rss ∷ metric_memory_cache ∷ metric_memory_working_set
    ∷ metric_node_memory_allocatable ∷ metric_node_memory_capacity ∷ metric_node_memory_utilization
    ∷ metric_node_memory_reservation ∷ []

abbrev pub network_metrics : List Metric
network_metrics =
    metric_network_rx ∷ metric_network_rx_errors ∷ metric_network_rx_errors_rate
    ∷ metric_network_rx_rate ∷ metric_network_tx ∷ metric_network_tx_errors
    ∷ metric_network_tx_errors_rate ∷ metric_network_tx_rate ∷ []

abbrev pub rate_metrics_mapping : Dict Metric
rate_metrics_mapping =
    (metric_cpu_usage.descriptor.name, metric_cpu_usage_rate)
    ∷ (metric_memory_page_faults.descriptor.name, metric_memory_page_faults_rate)
    ∷ (metric_memory_major_page_faults.descriptor.name, metric_memory_major_page_faults_rate)
    ∷ (metric_network_rx.descriptor.name, metric_network_rx_rate)
    ∷ (metric_network_rx_errors.descriptor.name, metric_network_rx_errors_rate)
    ∷ (metric_network_tx.descriptor.name, metric_network_tx_rate)
    ∷ (metric_network_tx_errors.descriptor.name, metric_network_tx_errors_rate)
    ∷ (metric_disk_io_read.descriptor.name, metric_disk_io_read_rate)
    ∷ (metric_disk_io_write.descriptor.name, metric_disk_io_write_rate)
    ∷ []

abbrev pub all_metrics : List Metric
all_metrics =
    (((standard_metrics ++ additional_metrics) ++ rate_metrics) ++ labeled_metrics)
    ++ node_autoscaling_metrics
