-- ===== src/Examples.antt =====
-- Test data: two targets with their replies, and a configuration.
pub mod Configs
pub mod Polls
pub mod Cycles
pub mod Loads
pub mod Exports
pub mod Overlaps
pub mod Reloads
pub mod Starts
pub mod Swaps
pub mod Parses
use pve_exporter.Base.{
  ℕ, zero, suc, String, Bool, true, false, Option, none, some, List, [], ◌∷◌, ◌==◌, if◌then◌else◌,
}
use pve_exporter.Base.Float.{Float64, float_zero, float_one}
use pve_exporter.Base.Int.{ℤ, pos, negsuc}
use pve_exporter.Models.Config.{
  ClusterConfig, CollectorToggles, OtelExportConfig, ServerConfig, CollectionConfig,
  OpenTelemetryConfig, Configuration,
}
use pve_exporter.Pve.Api.{ClusterResource, ClusterStatusEntry, GuestRef}
use pve_exporter.Pve.Parse.{FlexFloat, absent}
use pve_exporter.Pve.Client.{
  Client, Reply, response, transport_error, decoded, malformed, Codec, Remote,
}
use pve_exporter.Pve.Metrics.{Sample, Label}
use pve_exporter.Pve.Snapshot.{TargetSnapshot}
use pve_exporter.Pve.Collector.{Clock}
use pve_exporter.Pve.Collector.Cycle.{Visit}

abbrev pub present : Float64 → FlexFloat
present x = record { value = x; valid = true }

abbrev row : String → String → String → String → ClusterResource
row id type node status = record {
  id = id;
  type = type;
  node = node;
  name = "web";
  status = status;
  cpu = present float_zero;
  max_cpu = present float_one;
  mem = absent;
  max_mem = absent;
  disk = absent;
  max_disk = absent;
  uptime = absent;
  disk_read = absent;
  disk_write = absent;
  net_in = absent;
  net_out = absent;
  template = absent;
  shared = absent;
  tags = "";
  storage = "";
  plugin_type = "";
  content = "";
  ha_state = "started";
  lock = "";
  vmid = absent;
}

abbrev pub rows : List ClusterResource
rows = row "node/a" "node" "a" "online" ∷ row "qemu/100" "qemu" "a" "running" ∷ []

abbrev status_row : ClusterStatusEntry
status_row = record {
  id = "cluster";
  type = "cluster";
  name = "prod";
  nodes = present float_one;
  quorate = absent;
  version = absent;
  node_id = absent;
  level = "";
  online = absent;
}

abbrev codec : Codec
codec = record {
  envelope = λ body. decoded body;
  resources = λ raw. decoded rows;
  statuses = λ raw. decoded (status_row ∷ []);
  version = λ raw. decoded (record { release = "8.2"; repo_id = "ab"; version = "8.2.4" });
  qdevice = λ raw. malformed "no object";
  not_backed_up = λ raw. decoded [];
  ha_status = λ raw. decoded [];
  replication_jobs = λ raw. decoded [];
  replication_status = λ raw. malformed "no object";
  subscription = λ raw. decoded (record { status = "active"; level = "c"; next_due_date = "" });
  guests = λ raw. decoded [];
  guest_config = λ raw. decoded (record { onboot = absent });
}

-- A target that answers, but has no HA endpoint.
abbrev pub up_remote : Remote
up_remote = record {
  codec = codec;
  http =
      λ path. if path == "/cluster/ha/status/current" then response 404 "" else response 200 "{}";
}

-- A target that cannot be reached.
abbrev pub down_remote : Remote
down_remote = record { codec = codec; http = λ path. transport_error "no route to host" }

abbrev pub client : Client
client = record { name = "pve1"; request_errors = 3 }

abbrev pub toggles : CollectorToggles
toggles = record {
  onboot = some false;
  replication = none;
  subscription = none;
  backup_info = some true;
  qdevice = none;
  ha_status = none;
}

abbrev pub clock : Clock
clock = record { start = 7; elapsed = float_one }

abbrev pub in_order : List String → List String
in_order nodes = nodes

abbrev pub sample : String → String → Sample
sample name cluster = record {
  name = name;
  labels = record { name = "cluster"; value = cluster } ∷ [];
  value = float_one;
}

abbrev pub polled : String → TargetSnapshot
polled cluster = record {
  cluster = cluster;
  up = true;
  scrape_error = "";
  last_scrape = 7;
  samples = sample "pve_up" cluster ∷ sample "pve_node_info" cluster ∷ sample "pve_up" cluster ∷ [];
}

abbrev pub polls : List (Option TargetSnapshot)
polls = some (polled "pve1") ∷ none ∷ some (polled "pve2") ∷ []

-- A parser that knows the durations of the test data.
abbrev pub parse_duration : String → Option ℤ
parse_duration s =
    if s == "30s"
    then some (pos 30000000000)
    else if s == "25s"
    then some (pos 25000000000)
    else if s == "10s"
    then some (pos 10000000000)
    else if s == "0s"
    then some (pos 0)
    else none

abbrev otel : OtelExportConfig
otel = record {
  enabled = true;
  endpoint = "";
  insecure = false;
  interval = "";
  sampling_rate = float_zero;
}

abbrev pub cluster : String → ClusterConfig
cluster name = record {
  name = name;
  host = "10.0.0.1";
  token_id = "root@pam!exporter";
  token_secret = "s";
  token_secret_file = "";
  insecure_skip_verify = true;
}

abbrev pub config : Configuration
config = record {
  server = record { host = ""; port = ""; uri = ""; log_name = "" };
  collection = record { interval = ""; timeout = "25s"; max_concurrent_targets = pos 2 };
  collectors = toggles;
  open_telemetry = record { metrics = otel; tracing = otel };
  clusters = cluster "pve1" ∷ cluster "pve2" ∷ [];
}

-- The first target answers, the others do not.
abbrev pub visits : ℕ → Visit
visits zero = record { remote = up_remote; clock = clock; order = in_order }
visits (suc i) = record { remote = down_remote; clock = clock; order = in_order }
