-- ===== src/Core/Metrics/Derived.antt =====
-- metrics/core/metrics.go: the metrics that Heapster computes itself; they read nothing of cAdvisor.
use heapster.Common.{[]}
use heapster.Core.Values.{cumulative, gauge, int64_type, float_type, count, bytes}
use heapster.Core.Labels.{metric_labels_list}
use heapster.Core.Metrics.Defs.{Metric, plain}

abbrev pub metric_restart_count : Metric
metric_restart_count = plain (record {
  name = "restart_count";
  description = "Number of container restarts";
  labels = [];
  metric_type = cumulative;
  value_type = int64_type;
  units = count;
})

abbrev pub metric_ephemeral_storage_usage : Metric
metric_ephemeral_storage_usage = plain (record {
  name = "ephemeral_storage/usage";
  description = "Ephemeral storage usage";
  labels = [];
  metric_type = gauge;
  value_type = int64_type;
  units = bytes;
})

abbrev pub metric_cpu_request : Metric
metric_cpu_request = plain (record {
  name = "cpu/request";
  description =
      "CPU request (the guaranteed amount of resources) in millicores. This metric is Kubernetes specific.";
  labels = [];
  metric_type = gauge;
  value_type = int64_type;
  units = count;
})

abbrev pub metric_cpu_limit : Metric
metric_cpu_limit = plain (record {
  name = "cpu/limit";
  description = "CPU hard limit in millicores.";
  labels = [];
  metric_type = gauge;
  value_type = int64_type;
  units = count;
})

abbrev pub metric_memory_request : Metric
metric_memory_request = plain (record {
  name = "memory/request";
  description =
      "Memory request (the guaranteed amount of resources) in bytes. This metric is Kubernetes specific.";
  labels = [];
  metric_type = gauge;
  value_type = int64_type;
  units = bytes;
})

abbrev pub metric_memory_limit : Metric
metric_memory_limit = plain (record {
  name = "memory/limit";
  description = "Memory hard limit in bytes.";
  labels = [];
  metric_type = gauge;
  value_type = int64_type;
  units = bytes;
})

abbrev pub metric_ephemeral_storage_request : Metric
metric_ephemeral_storage_request = plain (record {
  name = "ephemeral_storage/request";
  description =
      "ephemeral storage request (the guaranteed amount of resources) in bytes. This metric is Kubernetes specific.";
  labels = [];
  metric_type = gauge;
  value_type = int64_type;
  units = bytes;
})

abbrev pub metric_ephemeral_storage_limit : Metric
metric_ephemeral_storage_limit = plain (record {
  name = "ephemeral_storage/limit";
  description = "ephemeral storage hard limit in bytes.";
  labels = [];
  metric_type = gauge;
  value_type = int64_type;
  units = bytes;
})

abbrev pub metric_cpu_usage_rate : Metric
metric_cpu_usage_rate = plain (record {
  name = "cpu/usage_rate";
  description = "CPU usage on all cores in millicores";
  labels = [];
  metric_type = gauge;
  value_type = int64_type;
  units = count;
})

abbrev pub metric_memory_page_faults_rate : Metric
metric_memory_page_faults_rate = plain (record {
  name = "memory/page_faults_rate";
  description = "Rate of page faults in counts per second";
  labels = [];
  metric_type = gauge;
  value_type = float_type;
  units = count;
})

abbrev pub metric_memory_major_page_faults_rate : Metric
metric_memory_major_page_faults_rate = plain (record {
  name = "memory/major_page_faults_rate";
  description = "Rate of major page faults in counts per second";
  labels = [];
  metric_type = gauge;
  value_type = float_type;
  units = count;
})

abbrev pub metric_network_rx_rate : Metric
metric_network_rx_rate = plain (record {
  name = "network/rx_rate";
  description = "Rate of bytes received over the network in bytes per second";
  labels = [];
  metric_type = gauge;
  value_type = float_type;
  units = count;
})

abbrev pub metric_network_rx_errors_rate : Metric
metric_network_rx_errors_rate = plain (record {
  name = "network/rx_errors_rate";
  description = "Rate of errors sending over the network in errors per second";
  labels = [];
  metric_type = gauge;
  value_type = float_type;
  units = count;
})

abbrev pub metric_network_tx_rate : Metric
metric_network_tx_rate = plain (record {
  name = "network/tx_rate";
  description = "Rate of bytes transmitted over the network in bytes per second";
  labels = [];
  metric_type = gauge;
  value_type = float_type;
  units = count;
})

abbrev pub metric_network_tx_errors_rate : Metric
metric_network_tx_errors_rate = plain (record {
  name = "network/tx_errors_rate";
  description = "Rate of errors transmitting over the network in errors per second";
  labels = [];
  metric_type = gauge;
  value_type = float_type;
  units = count;
})

abbrev pub metric_node_cpu_capacity : Metric
metric_node_cpu_capacity = plain (record {
  name = "cpu/node_capacity";
  description = "Cpu capacity of a node";
  labels = [];
  metric_type = gauge;
  value_type = float_type;
  units = count;
})

abbrev pub metric_node_memory_capacity : Metric
metric_node_memory_capacity = plain (record {
  name = "memory/node_capacity";
  description = "Memory capacity of a node";
  labels = [];
  metric_type = gauge;
  value_type = float_type;
  units = count;
})

abbrev pub metric_node_ephemeral_storage_capacity : Metric
metric_node_ephemeral_storage_capacity = plain (record {
  name = "ephemeral_storage/node_capacity";
  description = "Ephemeral storage capacity of a node";
  labels = [];
  metric_type = gauge;
  value_type = float_type;
  units = count;
})

abbrev pub metric_node_cpu_allocatable : Metric
metric_node_cpu_allocatable = plain (record {
  name = "cpu/node_allocatable";
  description = "Cpu allocatable of a node";
  labels = [];
  metric_type = gauge;
  value_type = float_type;
  units = count;
})

abbrev pub metric_node_memory_allocatable : Metric
metric_node_memory_allocatable = plain (record {
  name = "memory/node_allocatable";
  description = "Memory allocatable of a node";
  labels = [];
  metric_type = gauge;
  value_type = float_type;
  units = count;
})

abbrev pub metric_node_ephemeral_storage_allocatable : Metric
metric_node_ephemeral_storage_allocatable = plain (record {
  name = "ephemeral_storage/node_allocatable";
  description = "Ephemeral storage allocatable of a node";
  labels = [];
  metric_type = gauge;
  value_type = float_type;
  units = count;
})

abbrev pub metric_node_cpu_utilization : Metric
metric_node_cpu_utilization = plain (record {
  name = "cpu/node_utilization";
  description = "Cpu utilization as a share of node capacity";
  labels = [];
  metric_type = gauge;
  value_type = float_type;
  units = count;
})

abbrev pub metric_node_memory_utilization : Metric
metric_node_memory_utilization = plain (record {
  name = "memory/node_utilization";
  description = "Memory utilization as a share of memory capacity";
  labels = [];
  metric_type = gauge;
  value_type = float_type;
  units = count;
})

abbrev pub metric_node_ephemeral_storage_utilization : Metric
metric_node_ephemeral_storage_utilization = plain (record {
  name = "ephemeral_storage/node_utilization";
  description = "Ephemeral storage utilization as a share of storage capacity";
  labels = [];
  metric_type = gauge;
  value_type = float_type;
  units = count;
})

abbrev pub metric_node_cpu_reservation : Metric
metric_node_cpu_reservation = plain (record {
  name = "cpu/node_reservation";
  description = "Share of cpu that is reserved on the node";
  labels = [];
  metric_type = gauge;
  value_type = float_type;
  units = count;
})

abbrev pub metric_node_memory_reservation : Metric
metric_node_memory_reservation = plain (record {
  name = "memory/node_reservation";
  description = "Share of memory that is reserved on the node";
  labels = [];
  metric_type = gauge;
  value_type = float_type;
  units = count;
})

abbrev pub metric_node_ephemeral_storage_reservation : Metric
metric_node_ephemeral_storage_reservation = plain (record {
  name = "ephemeral_storage/node_reservation";
  description = "Share of ephemeral storage that is reserved on the node";
  labels = [];
  metric_type = gauge;
  value_type = float_type;
  units = count;
})

abbrev pub metric_disk_io_read_rate : Metric
metric_disk_io_read_rate = plain (record {
  name = "disk/io_read_bytes_rate";
  description = "Rate of bytes read over disk in bytes per second";
  labels = metric_labels_list;
  metric_type = gauge;
  value_type = float_type;
  units = count;
})

abbrev pub metric_disk_io_write_rate : Metric
metric_disk_io_write_rate = plain (record {
  name = "disk/io_write_bytes_rate";
  description = "Rate of bytes written over disk in bytes per second";
  labels = metric_labels_list;
  metric_type = gauge;
  value_type = float_type;
  units = count;
})
