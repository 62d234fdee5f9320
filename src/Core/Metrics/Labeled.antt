-- ===== src/Core/Metrics/Labeled.antt =====
-- metrics/core/metrics.go: the metrics with one value for each disk, filesystem or accelerator.
use heapster.Common.{not, ◌==◌, length}
use heapster.Core.Values.{cumulative, gauge, int64_type, count, bytes}
use heapster.Core.Labels.{metric_labels_list, accelerator_labels_list}
use heapster.Core.Metrics.Defs.{
  Metric, labelled, filesystem_metrics, inode_metrics, accelerator_metrics, disk_metrics,
}

abbrev pub metric_filesystem_usage : Metric
metric_filesystem_usage =
    labelled
      (record {
        name = "filesystem/usage";
        description = "Total number of bytes consumed on a filesystem";
        labels = metric_labels_list;
        metric_type = gauge;
        value_type = int64_type;
        units = bytes;
      })
      (λ spec stat. spec.has_filesystem)
      (λ spec stat. filesystem_metrics "filesystem/usage" (λ fs. fs.usage) stat.filesystem)

abbrev pub metric_filesystem_limit : Metric
metric_filesystem_limit =
    labelled
      (record {
        name = "filesystem/limit";
        description = "The total size of filesystem in bytes";
        labels = metric_labels_list;
        metric_type = gauge;
        value_type = int64_type;
        units = bytes;
      })
      (λ spec stat. spec.has_filesystem)
      (λ spec stat. filesystem_metrics "filesystem/limit" (λ fs. fs.limit) stat.filesystem)

abbrev pub metric_filesystem_available : Metric
metric_filesystem_available =
    labelled
      (record {
        name = "filesystem/available";
        description = "The number of available bytes remaining in a the filesystem";
        labels = metric_labels_list;
        metric_type = gauge;
        value_type = int64_type;
        units = bytes;
      })
      (λ spec stat. spec.has_filesystem)
      (λ spec stat. filesystem_metrics "filesystem/available" (λ fs. fs.available) stat.filesystem)

abbrev pub metric_filesystem_inodes : Metric
metric_filesystem_inodes =
    labelled
      (record {
        name = "filesystem/inodes";
        description = "Total number of inodes on a filesystem";
        labels = metric_labels_list;
        metric_type = gauge;
        value_type = int64_type;
        units = bytes;
      })
      (λ spec stat. spec.has_filesystem)
      (λ spec stat. inode_metrics "filesystem/inodes" (λ fs. fs.inodes) stat.filesystem)

abbrev pub metric_filesystem_inodes_free : Metric
metric_filesystem_inodes_free =
    labelled
      (record {
        name = "filesystem/inodes_free";
        description = "Free number of inodes on a filesystem";
        labels = metric_labels_list;
        metric_type = gauge;
        value_type = int64_type;
        units = bytes;
      })
      (λ spec stat. spec.has_filesystem)
      (λ spec stat. inode_metrics "filesystem/inodes_free" (λ fs. fs.inodes_free) stat.filesystem)

abbrev pub metric_accelerator_memory_total : Metric
metric_accelerator_memory_total =
    labelled
      (record {
        name = "accelerator/memory_total";
        description = "Total accelerator memory (in bytes)";
        labels = accelerator_labels_list;
        metric_type = gauge;
        value_type = int64_type;
        units = bytes;
      })
      (λ spec stat. not (length stat.accelerators == 0))
      (λ spec stat.
        accelerator_metrics "accelerator/memory_total" (λ ac. ac.memory_total) stat.accelerators)

abbrev pub metric_accelerator_memory_used : Metric
metric_accelerator_memory_used =
    labelled
      (record {
        name = "accelerator/memory_used";
        description = "Total accelerator memory allocated (in bytes)";
        labels = accelerator_labels_list;
        metric_type = gauge;
        value_type = int64_type;
        units = bytes;
      })
      (λ spec stat. not (length stat.accelerators == 0))
      (λ spec stat.
        accelerator_metrics "accelerator/memory_used" (λ ac. ac.memory_used) stat.accelerators)

abbrev pub metric_accelerator_duty_cycle : Metric
metric_accelerator_duty_cycle =
    labelled
      (record {
        name = "accelerator/duty_cycle";
        description =
            "Percent of time over the past sample period (10s) during which the accelerator was actively processing";
        labels = accelerator_labels_list;
        metric_type = gauge;
        value_type = int64_type;
        units = count;
      })
      (λ spec stat. not (length stat.accelerators == 0))
      (λ spec stat.
        accelerator_metrics "accelerator/duty_cycle" (λ ac. ac.duty_cycle) stat.accelerators)

abbrev pub metric_disk_io_read : Metric
metric_disk_io_read =
    labelled
      (record {
        name = "disk/io_read_bytes";
        description = "Cumulative number of bytes read over disk";
        labels = metric_labels_list;
        metric_type = cumulative;
        value_type = int64_type;
        units = bytes;
      })
      (λ spec stat. spec.has_disk_io)
      (λ spec stat. disk_metrics "disk/io_read_bytes" "Read" stat.io_service_bytes)

abbrev pub metric_disk_io_write : Metric
metric_disk_io_write =
    labelled
      (record {
        name = "disk/io_write_bytes";
        description = "Cumulative number of bytes write over disk";
        labels = metric_labels_list;
        metric_type = cumulative;
        value_type = int64_type;
        units = bytes;
      })
      (λ spec stat. spec.has_disk_io)
      (λ spec stat. disk_metrics "disk/io_write_bytes" "Write" stat.io_service_bytes)
