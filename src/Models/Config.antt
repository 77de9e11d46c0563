-- ===== src/Models/Config.antt =====
-- internal/models/config.go. `time.ParseDuration` is the parameter `parse_duration`; a duration is
-- an integer of nanoseconds.
pub mod Defaults
pub mod Valid
use pve_exporter.Base.{
  ℕ, ◌+◌, String, ◌<>◌, Bool, true, false, not, Option, none, some, List, [], ◌∷◌, ◌&&◌, ◌||◌,
  starts_with, ◌==◌, if◌then◌else◌,
}
use pve_exporter.Base.Dict.{Dict, lookup, contains}
use pve_exporter.Base.Text.{contains_code}
use pve_exporter.Base.Float.{Float64, is_zero}
use pve_exporter.Base.Int.{ℤ}

abbrev pub default_host : String
default_host = "0.0.0.0"

abbrev pub default_port : String
default_port = "9221"

abbrev pub default_uri : String
default_uri = "/metrics"

abbrev pub default_interval : String
default_interval = "30s"

abbrev pub default_timeout : String
default_timeout = "25s"

abbrev pub default_metrics_push : String
default_metrics_push = "10s"

abbrev pub default_pve_port : String
default_pve_port = "8006"

-- 0.1
abbrev pub default_sampling_rate : Float64
default_sampling_rate = record { bits = 0x3fb999999999999a }

abbrev pub default_otlp_endpoint : String
default_otlp_endpoint = "localhost:4317"

abbrev pub reserved_paths : Dict String
reserved_paths =
    ("/", "server root")
    ∷ ("/health", "health endpoint")
    ∷ ("/livez", "liveness probe")
    ∷ ("/readyz", "readiness probe")
    ∷ []

pub record ClusterConfig : Type 0 where
  pub name : String
  pub host : String
  pub token_id : String
  pub token_secret : String
  pub token_secret_file : String
  pub insecure_skip_verify : Bool

-- `BaseURL`; 58 is the colon
unfoldable pub base_url : ClusterConfig → String
unfolding contains_code
base_url c =
    let host =
      if not (contains_code 58 c.host) then c.host <> (":" <> default_pve_port) else c.host in
    "https://" <> (host <> "/api2/json")

unfoldable pub auth_header : ClusterConfig → String
auth_header c = "PVEAPIToken=" <> (c.token_id <> ("=" <> c.token_secret))

-- A toggle that the file does not set is a nil pointer.
pub record CollectorToggles : Type 0 where
  pub onboot : Option Bool
  pub replication : Option Bool
  pub subscription : Option Bool
  pub backup_info : Option Bool
  pub qdevice : Option Bool
  pub ha_status : Option Bool

abbrev pub bool_or_true : Option Bool → Bool
bool_or_true none = true
bool_or_true (some b) = b

abbrev pub onboot_enabled : CollectorToggles → Bool
onboot_enabled t = bool_or_true t.onboot

abbrev pub replication_enabled : CollectorToggles → Bool
replication_enabled t = bool_or_true t.replication

abbrev pub subscription_enabled : CollectorToggles → Bool
subscription_enabled t = bool_or_true t.subscription

abbrev pub backup_info_enabled : CollectorToggles → Bool
backup_info_enabled t = bool_or_true t.backup_info

abbrev pub qdevice_enabled : CollectorToggles → Bool
qdevice_enabled t = bool_or_true t.qdevice

abbrev pub ha_status_enabled : CollectorToggles → Bool
ha_status_enabled t = bool_or_true t.ha_status

pub record OtelExportConfig : Type 0 where
  pub enabled : Bool
  pub endpoint : String
  pub insecure : Bool
  pub interval : String
  pub sampling_rate : Float64

pub record ServerConfig : Type 0 where
  pub host : String
  pub port : String
  pub uri : String
  pub log_name : String

pub record CollectionConfig : Type 0 where
  pub interval : String
  pub timeout : String
  pub max_concurrent_targets : ℤ

pub record OpenTelemetryConfig : Type 0 where
  pub metrics : OtelExportConfig
  pub tracing : OtelExportConfig

-- `Config`
pub record Configuration : Type 0 where
  pub server : ServerConfig
  pub collection : CollectionConfig
  pub collectors : CollectorToggles
  pub open_telemetry : OpenTelemetryConfig
  pub clusters : List ClusterConfig

-- if s == "" { s = d }
abbrev pub or_default : String → String → String
or_default s d = if s == "" then d else s

unfoldable pub set_defaults : Configuration → Configuration
set_defaults c = record c {
  server = record c.server {
    host = or_default c.server.host default_host;
    port = or_default c.server.port default_port;
    uri = or_default c.server.uri default_uri;
  };
  collection = record c.collection {
    interval = or_default c.collection.interval default_interval;
    timeout = or_default c.collection.timeout default_timeout;
  };
  open_telemetry = record {
    metrics = record c.open_telemetry.metrics {
      endpoint = or_default c.open_telemetry.metrics.endpoint default_otlp_endpoint;
      interval = or_default c.open_telemetry.metrics.interval default_metrics_push;
    };
    tracing = record c.open_telemetry.tracing {
      endpoint = or_default c.open_telemetry.tracing.endpoint default_otlp_endpoint;
      sampling_rate =
          if is_zero c.open_telemetry.tracing.sampling_rate
          then default_sampling_rate
          else c.open_telemetry.tracing.sampling_rate;
    };
  };
}

-- The errors of `Validate`, with the index and the name that they print.
pub data ConfigError : Type 0 where
  uri_without_slash : String → ConfigError
  uri_reserved : String → String → ConfigError
  bad_interval bad_timeout no_clusters bad_push_interval : ConfigError
  name_required : ℕ → ConfigError
  duplicate_name : ℕ → String → ConfigError
  host_required : ℕ → String → ConfigError
  token_id_required : ℕ → String → ConfigError
  secret_required : ℕ → String → ConfigError

-- The checks on one cluster, with the names seen before it.
check_cluster : ℕ → List String → ClusterConfig → Option ConfigError
check_cluster i seen cl =
    if cl.name == ""
    then some (name_required i)
    else if contains cl.name seen
    then some (duplicate_name i cl.name)
    else if cl.host == ""
    then some (host_required i cl.name)
    else if cl.token_id == ""
    then some (token_id_required i cl.name)
    else if cl.token_secret == "" && cl.token_secret_file == ""
    then some (secret_required i cl.name)
    else none

-- The loop over the clusters; the first error ends it.
check_clusters : ℕ → List String → List ClusterConfig → Option ConfigError
unfolding check_cluster
check_clusters i seen [] = none
check_clusters i seen (cl ∷ rest) =
    let later = check_clusters (i + 1) (cl.name ∷ seen) rest in
    elim (check_cluster i seen cl) [ some e ↦ some e | none ↦ later ]

module _ (parse_duration : String → Option ℤ) where
  abbrev parses : String → Bool
  parses s = elim (parse_duration s) [ none ↦ false | some d ↦ true ]

  check_push : OtelExportConfig → Option ConfigError
  check_push m = if m.enabled && not (parses m.interval) then some bad_push_interval else none

  check_rest : Configuration → Option ConfigError
  unfolding check_clusters check_push
  check_rest c = elim (check_clusters 0 [] c.clusters) [
    | some e ↦ some e
    | none ↦ check_push c.open_telemetry.metrics
  ]

  check_durations : Configuration → Option ConfigError
  unfolding check_rest
  check_durations c =
      if not (parses c.collection.interval)
      then some bad_interval
      else if not (parses c.collection.timeout)
      then some bad_timeout
      else elim c.clusters [ [] ↦ some no_clusters | _ ↦ check_rest c ]

  -- The checks, on a configuration with its defaults.
  check : Configuration → Option ConfigError
  unfolding check_durations
  check c =
      if not (starts_with c.server.uri "/")
      then some (uri_without_slash c.server.uri)
      else elim (lookup c.server.uri reserved_paths) [
        | some what ↦ some (uri_reserved c.server.uri what)
        | none ↦ check_durations c
      ]

  -- `Validate`: the defaults stay set also where a check fails.
  unfoldable pub validate : Configuration → Configuration × Option ConfigError
  unfolding check set_defaults
  validate c = let d = set_defaults c in (d, check d)

  -- `mustDuration`; where the fallback does not parse either, the duration is zero
  unfoldable pub must_duration : String → String → ℤ
  must_duration s fallback = elim (parse_duration s) [
    | some d ↦ d
    | none ↦ elim (parse_duration fallback) [ some d ↦ d | none ↦ ℤ.pos 0 ]
  ]

  unfoldable pub get_collection_interval : Configuration → ℤ
  unfolding must_duration
  get_collection_interval c = must_duration c.collection.interval default_interval

  unfoldable pub get_collection_timeout : Configuration → ℤ
  unfolding must_duration
  get_collection_timeout c = must_duration c.collection.timeout default_timeout

  unfoldable pub get_metrics_push_interval : Configuration → ℤ
  unfolding must_duration
  get_metrics_push_interval c = must_duration c.open_telemetry.metrics.interval default_metrics_push

unfoldable pub get_server_address : Configuration → String
get_server_address c = c.server.host <> (":" <> c.server.port)

abbrev pub get_max_concurrent_targets : Configuration → ℤ
get_max_concurrent_targets c = c.collection.max_concurrent_targets

abbrev pub is_otel_metrics_enabled : Configuration → Bool
is_otel_metrics_enabled c = c.open_telemetry.metrics.enabled

abbrev pub is_otel_tracing_enabled : Configuration → Bool
is_otel_tracing_enabled c = c.open_telemetry.tracing.enabled
