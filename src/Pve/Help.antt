-- ===== src/Pve/Help.antt =====
-- internal/pve/help.go: HELP texts and the split into counters and gauges.
use pve_exporter.Base.{String, Bool, none, some, [], ◌∷◌}
use pve_exporter.Base.Dict.{Dict, lookup}
use pve_exporter.Base.Text.{has_suffix}
use pve_exporter.Pve.Metrics.{
  metric_up, metric_disk_size, metric_disk_usage, metric_mem_size, metric_mem_usage,
  metric_cpu_ratio, metric_cpu_limit, metric_uptime, metric_stor_share, metric_ha_state,
  metric_lock_state, metric_net_rx_total, metric_net_tx_total, metric_disk_read_total,
  metric_disk_write_total, metric_guest_info, metric_storage_info, metric_node_info,
  metric_cluster_info, metric_version_info, metric_qdevice_up, metric_qdevice_info, metric_sub_info,
  metric_sub_status, metric_sub_next_due, metric_onboot, metric_not_backed_up_total,
  metric_not_backed_up_info, metric_repl_info, metric_repl_duration, metric_repl_last_sync,
  metric_repl_last_try, metric_repl_next_sync, metric_repl_failed, metric_collection_duration,
  metric_request_errors,
}

metric_help : Dict String
metric_help =
    (metric_up, "Node/VM/CT-Status is online/running")
    ∷ (
      metric_disk_size,
      "Storage size in bytes (for type 'storage'), root image size for VMs (for types 'qemu' and 'lxc').",
    )
    ∷ (
      metric_disk_usage,
      "Used disk space in bytes (for type 'storage'), used root image space for VMs (for types 'qemu' and 'lxc').",
    )
    ∷ (metric_mem_size, "Number of available memory in bytes (for types 'node', 'qemu' and 'lxc').")
    ∷ (metric_mem_usage, "Used memory in bytes (for types 'node', 'qemu' and 'lxc').")
    ∷ (metric_cpu_ratio, "CPU utilization (for types 'node', 'qemu' and 'lxc').")
    ∷ (metric_cpu_limit, "Number of available CPUs (for types 'node', 'qemu' and 'lxc').")
    ∷ (
      metric_uptime,
      "Uptime of node or virtual guest in seconds (for types 'node', 'qemu' and 'lxc').",
    )
    ∷ (metric_stor_share, "Whether or not the storage is shared among cluster nodes")
    ∷ (metric_ha_state, "HA service status (for HA managed VMs).")
    ∷ (metric_lock_state, "The guest's current config lock (for types 'qemu' and 'lxc')")
    ∷ (
      metric_net_rx_total,
      "The amount of traffic in bytes that was sent to the guest over the network since it was started. (for types 'qemu' and 'lxc')",
    )
    ∷ (
      metric_net_tx_total,
      "The amount of traffic in bytes that was sent from the guest over the network since it was started. (for types 'qemu' and 'lxc')",
    )
    ∷ (
      metric_disk_read_total,
      "The amount of bytes the guest read from its block devices since the guest was started. (for types 'qemu' and 'lxc')",
    )
    ∷ (
      metric_disk_write_total,
      "The amount of bytes the guest wrote to its block devices since the guest was started. (for types 'qemu' and 'lxc')",
    )
    ∷ (metric_guest_info, "VM/CT info")
    ∷ (metric_storage_info, "Storage info")
    ∷ (metric_node_info, "Node info")
    ∷ (metric_cluster_info, "Cluster info")
    ∷ (metric_version_info, "Proxmox VE version info")
    ∷ (metric_qdevice_up, "Proxmox VE QDevice is connected (1) or not (0)")
    ∷ (metric_qdevice_info, "Proxmox VE QDevice info (1 if configured)")
    ∷ (metric_sub_info, "Proxmox VE subscription info (1 if present)")
    ∷ (metric_sub_status, "Proxmox VE subscription status (1 if matches status)")
    ∷ (metric_sub_next_due, "Subscription next due date as Unix timestamp")
    ∷ (metric_onboot, "Proxmox vm config onboot value")
    ∷ (metric_not_backed_up_total, "Total number of guests not covered by any backup job.")
    ∷ (metric_not_backed_up_info, "Present if guest is not covered by any backup job.")
    ∷ (metric_repl_info, "Proxmox vm replication info")
    ∷ (metric_repl_duration, "Proxmox vm replication duration")
    ∷ (metric_repl_last_sync, "Proxmox vm replication last_sync")
    ∷ (metric_repl_last_try, "Proxmox vm replication last_try")
    ∷ (metric_repl_next_sync, "Proxmox vm replication next_sync")
    ∷ (metric_repl_failed, "Proxmox vm replication fail_count")
    ∷ (
      metric_collection_duration, "Duration of the last collection cycle for a target, in seconds.",
    )
    ∷ (
      metric_request_errors,
      "Total failed PVE API requests for a target (excludes 403/404 on optional endpoints).",
    )
    ∷ []

unfoldable pub help_for : String → String
unfolding metric_help lookup
help_for name = elim (lookup name metric_help) [ none ↦ name | some h ↦ h ]

unfoldable pub is_counter : String → Bool
unfolding has_suffix
is_counter name = has_suffix name "_total"
