-- ===== src/Pve/Metrics.antt =====
-- internal/pve/metrics.go: metric names, states, labels, samples and the set that gathers them.
pub mod Labels
use pve_exporter.Base.{String, List, [], ◌∷◌, ◌++◌}
use pve_exporter.Base.Float.{Float64}

abbrev pub metric_up : String
metric_up = "pve_up"

abbrev pub metric_disk_size : String
metric_disk_size = "pve_disk_size_bytes"

abbrev pub metric_disk_usage : String
metric_disk_usage = "pve_disk_usage_bytes"

abbrev pub metric_mem_size : String
metric_mem_size = "pve_memory_size_bytes"

abbrev pub metric_mem_usage : String
metric_mem_usage = "pve_memory_usage_bytes"

abbrev pub metric_cpu_ratio : String
metric_cpu_ratio = "pve_cpu_usage_ratio"

abbrev pub metric_cpu_limit : String
metric_cpu_limit = "pve_cpu_usage_limit"

abbrev pub metric_uptime : String
metric_uptime = "pve_uptime_seconds"

abbrev pub metric_stor_share : String
metric_stor_share = "pve_storage_shared"

abbrev pub metric_ha_state : String
metric_ha_state = "pve_ha_state"

abbrev pub metric_lock_state : String
metric_lock_state = "pve_lock_state"

abbrev pub metric_net_rx_total : String
metric_net_rx_total = "pve_network_receive_bytes_total"

abbrev pub metric_net_tx_total : String
metric_net_tx_total = "pve_network_transmit_bytes_total"

abbrev pub metric_disk_read_total : String
metric_disk_read_total = "pve_disk_read_bytes_total"

abbrev pub metric_disk_write_total : String
metric_disk_write_total = "pve_disk_written_bytes_total"

abbrev pub metric_guest_info : String
metric_guest_info = "pve_guest_info"

abbrev pub metric_storage_info : String
metric_storage_info = "pve_storage_info"

abbrev pub metric_node_info : String
metric_node_info = "pve_node_info"

abbrev pub metric_cluster_info : String
metric_cluster_info = "pve_cluster_info"

abbrev pub metric_version_info : String
metric_version_info = "pve_version_info"

abbrev pub metric_qdevice_up : String
metric_qdevice_up = "pve_qdevice_up"

abbrev pub metric_qdevice_info : String
metric_qdevice_info = "pve_qdevice_info"

abbrev pub metric_sub_info : String
metric_sub_info = "pve_subscription_info"

abbrev pub metric_sub_status : String
metric_sub_status = "pve_subscription_status"

abbrev pub metric_sub_next_due : String
metric_sub_next_due = "pve_subscription_next_due_timestamp_seconds"

abbrev pub metric_onboot : String
metric_onboot = "pve_onboot_status"

abbrev pub metric_not_backed_up_total : String
metric_not_backed_up_total = "pve_not_backed_up_total"

abbrev pub metric_not_backed_up_info : String
metric_not_backed_up_info = "pve_not_backed_up_info"

abbrev pub metric_repl_info : String
metric_repl_info = "pve_replication_info"

abbrev pub metric_repl_duration : String
metric_repl_duration = "pve_replication_duration_seconds"

abbrev pub metric_repl_last_sync : String
metric_repl_last_sync = "pve_replication_last_sync_timestamp_seconds"

abbrev pub metric_repl_last_try : String
metric_repl_last_try = "pve_replication_last_try_timestamp_seconds"

abbrev pub metric_repl_next_sync : String
metric_repl_next_sync = "pve_replication_next_sync_timestamp_seconds"

abbrev pub metric_repl_failed : String
metric_repl_failed = "pve_replication_failed_syncs"

abbrev pub metric_collection_duration : String
metric_collection_duration = "pve_collection_duration_seconds"

abbrev pub metric_request_errors : String
metric_request_errors = "pve_request_errors_total"

abbrev pub ha_node_states : List String
ha_node_states = "online" ∷ "maintenance" ∷ "unknown" ∷ "fence" ∷ "gone" ∷ []

abbrev pub ha_guest_states : List String
ha_guest_states =
    "stopped" ∷ "request_stop" ∷ "request_start" ∷ "request_start_balance" ∷ "started" ∷ "fence"
    ∷ "recovery" ∷ "migrate" ∷ "relocate" ∷ "freeze" ∷ "error" ∷ []

abbrev pub lock_states : List String
lock_states =
    "backup" ∷ "clone" ∷ "create" ∷ "migrate" ∷ "rollback" ∷ "snapshot" ∷ "snapshot-delete"
    ∷ "suspended" ∷ "suspending" ∷ []

abbrev pub sub_states : List String
sub_states = "new" ∷ "notfound" ∷ "active" ∷ "invalid" ∷ "expired" ∷ "suspended" ∷ []

pub record Label : Type 0 where
  pub name : String
  pub value : String

pub record Sample : Type 0 where
  pub name : String
  pub labels : List Label
  pub value : Float64

-- `sampleSet`
pub record SampleSet : Type 0 where
  pub cluster : String
  pub out : List Sample

unfoldable pub new_sample_set : String → SampleSet
new_sample_set cluster = record { cluster = cluster; out = [] }

abbrev pub label : String → String → Label
label name value = record { name = name; value = value }

unfoldable pub add : SampleSet → String → Float64 → List Label → SampleSet
add s name value labels = record s {
  out =
      s.out
      ++ record { name = name; labels = label "cluster" s.cluster ∷ labels; value = value } ∷ [];
}

abbrev pub id_label : String → Label
id_label value = label "id" value
