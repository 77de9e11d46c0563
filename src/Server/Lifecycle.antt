-- ===== src/Server/Lifecycle.antt =====
-- main.go: `run`, from the start to the end of the first cycle.
-- What the process finds outside is a parameter, `World`. A run is modelled up to the state behind
-- its first cycle and the registration of the instruments; what follows is the loop of `Run`, the
-- reloads and the ticks of `syncInstruments`, which are modelled elsewhere. How the parts are
-- stopped, and a stop before the end of the first cycle, are not modelled.
pub mod Run
pub mod FirstPush
use pve_exporter.Base.{
  ℕ, ◌+◌, String, Bool, true, false, Option, none, some, List, [], ◌∷◌, ◌++◌, if◌then◌else◌,
}
use pve_exporter.Base.Dict.{lookup}
use pve_exporter.Base.Float.{Float64}
use pve_exporter.Base.Int.{ℤ, is_positive}
use pve_exporter.Base.Fallible.{Fallible, value, failure}
use pve_exporter.Models.Config.{
  Configuration, get_collection_timeout, is_otel_metrics_enabled, is_otel_tracing_enabled,
}
use pve_exporter.Models.SafeConfig.{LoadError, load_config}
use pve_exporter.Utils.Env.{EnvError, resolve_secrets}
use pve_exporter.Utils.Dotenv.{Environment, load_dot_env}
use pve_exporter.Logging.{Logger, prepare_logs}
use pve_exporter.Telemetry.{TracerConfig, ExporterOption, Manager, Global, new_manager, initialize}
use pve_exporter.Pve.Snapshot.{Snapshot, SnapshotStore}
use pve_exporter.Pve.Otlp.{OtlpExporter, ensure_instruments}
use pve_exporter.Pve.Otlp.Setup.{create_exporter}
use pve_exporter.Pve.Collector.Cycle.{Collector, Visit, collect_once}
use pve_exporter.Server.{start_collector}
use pve_exporter.Watcher.{watch_config_file}

-- The flags of the command line.
pub record Flags : Type 0 where
  pub config_file : String
  pub once : Bool
  pub debug : Bool

-- The file system, the libraries and the targets, as `run` finds them; `E` is their errors.
pub record World (E : Type 0) : Type 0 where
  pub environment : Environment
  pub stat : String → Bool
  pub load_env : String → Environment → Environment × Option E
  pub read_file : String → Option String
  pub decode : String → Option Configuration
  pub parse_duration : String → Option ℤ
  pub mkdir_all : String → Bool
  pub open_file : String → Bool
  pub new_trace_exporter : List ExporterOption → Option E
  pub new_metric_exporter : List ExporterOption → Option E
  pub new_resource : String → String → Option E
  pub logger : Logger
  pub quote : String → String
  pub format : Float64 → String
  pub float64_observable_gauge : String → Option E
  pub new_watcher : Option E
  pub add_watch : String → Option E
  pub visits : ℕ → Visit
  pub finished : List ℕ

module _ {E : Type 0} (world : World E) (version : String) where
  -- The variables after `LoadDotEnv`, as `os.LookupEnv` reads them.
  abbrev pub variables : String → String → Option String
  variables config_file name =
      lookup name (load_dot_env world.stat world.load_env config_file world.environment).environment

  -- models.LoadConfig(configFile, utils.ResolveSecrets), behind utils.LoadDotEnv(configFile)
  abbrev pub load_configuration : String → Fallible (LoadError EnvError) Configuration
  load_configuration config_file =
      load_config world.read_file world.decode world.parse_duration
        (some (resolve_secrets (variables config_file) world.read_file)) config_file

  abbrev pub tracer_config : Configuration → TracerConfig
  tracer_config cfg = record {
    endpoint = cfg.open_telemetry.tracing.endpoint;
    insecure = cfg.open_telemetry.tracing.insecure;
    sampling_rate = cfg.open_telemetry.tracing.sampling_rate;
    service_name = "pve-exporter";
    service_version = version;
  }

  -- An error of the set-up leaves no tracer.
  abbrev unless_failed : Manager × Global × Option E → Option Manager
  unless_failed (m, global, none) = some m
  unless_failed (m, global, some e) = none

  -- The optional tracer; the process has no provider before it.
  unfoldable pub start_tracing : Configuration → Option Manager
  unfolding new_manager initialize
  start_tracing cfg =
      if is_otel_tracing_enabled cfg
      then unless_failed (
          initialize world.new_trace_exporter world.new_resource (new_manager (tracer_config cfg))
            none)
      else none

  -- A new exporter behind its first registration, whose error is only logged.
  abbrev registered :
      {R : Type 0} → SnapshotStore → Fallible E (OtlpExporter × R) → Option OtlpExporter
  registered store (failure e) = none
  registered store (value (exporter, reader)) =
      some (ensure_instruments world.float64_observable_gauge store exporter).0

  -- `setupOTLP`
  unfoldable pub setup_otlp : Configuration → SnapshotStore → Option OtlpExporter
  unfolding create_exporter ensure_instruments
  setup_otlp cfg store =
      if is_otel_metrics_enabled cfg
      then registered store (
          create_exporter world.new_metric_exporter world.new_resource world.parse_duration
            cfg.open_telemetry.metrics version)
      else none

  -- `collectFirstCycle`
  abbrev pub collect_first_cycle : Collector → Snapshot × Collector
  collect_first_cycle = collect_once world.visits world.finished

  -- The registration behind the first cycle, where there is an exporter.
  abbrev pub ensure_registered : SnapshotStore → Option OtlpExporter → Option OtlpExporter
  ensure_registered store none = none
  ensure_registered store (some exporter) =
      some (ensure_instruments world.float64_observable_gauge store exporter).0

  -- `syncInstruments`, with the stores that its ticks find until the context is cancelled
  abbrev pub sync_instruments : List SnapshotStore → Option OtlpExporter → Option OtlpExporter
  sync_instruments [] otlp = otlp
  sync_instruments (store ∷ stores) otlp = sync_instruments stores (ensure_registered store otlp)
