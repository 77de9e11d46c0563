-- ===== src/Server/Lifecycle/Run.antt =====
-- main.go: the two branches of `run`, and `run` itself.
use pve_exporter.Base.{Bool, [], String, Option, none, some, List, if◌then◌else◌, true}
use pve_exporter.Base.Int.{is_positive}
use pve_exporter.Base.Fallible.{Fallible, value, failure}
use pve_exporter.Models.Config.{Configuration, get_server_address}
use pve_exporter.Models.SafeConfig.{LoadError, load_config}
use pve_exporter.Utils.Env.{EnvError}
use pve_exporter.Logging.{prepare_logs}
use pve_exporter.Telemetry.{Manager}
use pve_exporter.Pve.Otlp.{OtlpExporter, ensure_instruments}
use pve_exporter.Pve.Collector.Cycle.{Collector, collect_once}
use pve_exporter.Server.{Handler, start_collector, register_endpoints}
use pve_exporter.Watcher.{Watch, watch_config_file}
use pve_exporter.Server.Dump.{dump_samples}
use pve_exporter.Server.Lifecycle.{
  Flags, World, load_configuration, start_tracing, setup_otlp, collect_first_cycle,
  ensure_registered,
}

-- The address of the server and the routes of its mux.
pub record Serving : Type 0 where
  pub address : String
  pub routes : List (String × Handler)

-- The state of `run` behind the first cycle and its registration, and what it printed.
pub record Running : Type 0 where
  pub collector : Collector
  pub http : Option Serving
  pub otlp : Option OtlpExporter
  pub tracing : Option Manager
  pub watch : Option Watch
  pub printed : List String

-- An error of the configuration or of the log ends `run` before it starts anything; a loop with an
-- interval that is not positive panics, which ends the process.
pub data Outcome (E : Type 0) : Type 0 where
  failed : LoadError EnvError → Outcome E
  log_failed : E → Outcome E
  crashed : Outcome E
  returned : Running → Outcome E

module _ {E : Type 0} (world : World E) (version : String) where
  -- The branch of `--once`.
  unfoldable pub run_once : Bool → Configuration → Running
  unfolding start_tracing setup_otlp start_collector collect_once dump_samples
  run_once debug cfg =
      let tracing = start_tracing world version cfg in
      let (snap, collector) =
        collect_first_cycle world version (start_collector world.parse_duration cfg) in
      let otlp = setup_otlp world version cfg collector.store in
      record {
        collector = collector;
        http = none;
        otlp = otlp;
        tracing = tracing;
        watch = none;
        printed = if debug then dump_samples world.quote world.format snap else [];
      }

  -- The watch of the configuration file; an error only disables it.
  abbrev watching : String → Option Watch
  watching config_file = elim (watch_config_file world.new_watcher world.add_watch config_file).0 [
    | failure e ↦ none
    | value watch ↦ some watch
  ]

  -- The branch with the server, where nothing stops it before the end of the first cycle.
  unfoldable pub run_server : String → Configuration → Running
  unfolding start_tracing setup_otlp start_collector collect_once ensure_instruments
      get_server_address register_endpoints watch_config_file
  run_server config_file cfg =
      let tracing = start_tracing world version cfg in
      let new = start_collector world.parse_duration cfg in
      let otlp = setup_otlp world version cfg new.store in
      let (snap, collector) = collect_first_cycle world version new in
      record {
        collector = collector;
        http = some (record {
          address = get_server_address cfg;
          routes = register_endpoints true cfg.server.uri;
        });
        otlp = ensure_registered world version collector.store otlp;
        tracing = tracing;
        watch = watching config_file;
        printed = [];
      }

  unfoldable pub run_configured : Flags → Configuration → Outcome E
  unfolding run_once run_server start_collector
  run_configured flags cfg =
      if flags.once
      then returned (run_once flags.debug cfg)
      else if is_positive (start_collector world.parse_duration cfg).interval
      then returned (run_server flags.config_file cfg)
      else crashed

  -- PrepareLogs(cfg.Server.LogName)
  abbrev pub log_error : Configuration → Option E
  log_error cfg = (prepare_logs world.mkdir_all world.open_file cfg.server.log_name world.logger).1

  unfoldable pub run_loaded : Flags → Configuration → Outcome E
  unfolding run_configured prepare_logs
  run_loaded flags cfg = elim (log_error cfg) [
    | some e ↦ log_failed e
    | none ↦ run_configured flags cfg
  ]

  abbrev pub loaded : Flags → Fallible (LoadError EnvError) Configuration → Outcome E
  loaded flags (failure e) = failed e
  loaded flags (value cfg) = run_loaded flags cfg

  -- `run`
  unfoldable pub run : Flags → Outcome E
  unfolding run_loaded load_config
  run flags = loaded flags (load_configuration world version flags.config_file)
