-- ===== src/Examples/Starts.antt =====
-- Runs of the start: the log, the tracer, the environment and `run` itself.
use pve_exporter.Base.{
  ◌+◌, String, ◌≡◌, refl, Bool, true, false, ◌||◌, none, some, List, [], ◌∷◌, length, ◌==◌,
  if◌then◌else◌, map,
}
use pve_exporter.Base.Float.{float_one}
use pve_exporter.Models.Config.{set_defaults}
use pve_exporter.Logging.{Logger, stdout, log_file, prepare_logs, is_writable, prepare_logs_total}
use pve_exporter.Telemetry.{
  TracerConfig, TracerProvider, Attempt, new_manager, IsConsistent, initialize_all, tracer_provider,
  shutdown_manager, initialize_all-tracer_provider,
}
use mathlib.Core.List.{Perm}
use pve_exporter.Pve.Snapshot.Index.{all_samples}
use pve_exporter.Server.Dump.{line, dump_samples}
use pve_exporter.Server.Dump.Sorted.{IsSorted, dump_samples-IsSorted}
use pve_exporter.Server.Lifecycle.{Flags, World, sync_instruments}
use pve_exporter.Server.Lifecycle.Run.{run_once, run_server}
use pve_exporter.Server.Lifecycle.FirstPush.{ObservesAll, run-ObservesAll}
use pve_exporter.Pve.Snapshot.{SnapshotStore, build_snapshot, new_snapshot_store, load, store}
use pve_exporter.Examples.{polls, config, parse_duration, visits}
use pve_exporter.Examples.Loads.{any_file, decode}

abbrev logger : Logger
logger = record { json = false; output = stdout ∷ []; warnings = [] }

-- Only one directory can be made.
abbrev only_var_log : String → Bool
only_var_log path = path == "/var/log"

prepare_logs_total_example :
    let after = prepare_logs only_var_log (λ path. true) {E = String} "/var/log/pve.log" logger in
    (after.1 ≡ none)
    × (after.0.json ≡ true)
    × (after.0.output
        ≡ stdout
          ∷ (if is_writable only_var_log (λ path. true) "/var/log/pve.log"
              then log_file "/var/log/pve.log" ∷ []
              else []))
    × (length after.0.warnings
        ≡ length logger.warnings
          + (if "/var/log/pve.log" == ""
                || is_writable only_var_log (λ path. true) "/var/log/pve.log"
              then 0
              else 1))
prepare_logs_total_example =
    prepare_logs_total only_var_log (λ path. true) {E = String} "/var/log/pve.log" logger

abbrev tracing : TracerConfig
tracing = record {
  endpoint = "localhost:4317";
  insecure = true;
  sampling_rate = float_one;
  service_name = "pve-exporter";
  service_version = "dev";
}

abbrev noop : TracerProvider
noop = record { exporter = []; service_name = ""; service_version = ""; ratio = float_one }

-- The resource is refused at first.
abbrev attempts : List (Attempt String)
attempts =
    record { new_exporter = λ o. none; new_resource = λ n v. some "no resource" }
    ∷ record { new_exporter = λ o. none; new_resource = λ n v. none }
    ∷ []

initialize_all-tracer_provider_example :
    let (m, global) = initialize_all attempts (new_manager tracing, none) in
    IsConsistent m global
    × (tracer_provider noop global m ≡ elim global [ none ↦ noop | some p ↦ p ])
    × ((shutdown_manager {E = String} (λ p. none) m).0
        ≡ elim global [ none ↦ [] | some p ↦ p ∷ [] ])
initialize_all-tracer_provider_example =
    initialize_all-tracer_provider attempts tracing noop (λ p. none)

abbrev world : World String
world = record {
  environment = ("SECRET", "s3") ∷ [];
  stat = λ path. false;
  load_env = λ path env. (env, none);
  read_file = any_file;
  decode = decode;
  parse_duration = parse_duration;
  mkdir_all = only_var_log;
  open_file = λ path. true;
  new_trace_exporter = λ o. none;
  new_metric_exporter = λ o. none;
  new_resource = λ n v. none;
  logger = logger;
  quote = λ s. s;
  format = λ v. "1";
  float64_observable_gauge = λ n. none;
  new_watcher = none;
  add_watch = λ path. none;
  visits = visits;
  finished = 1 ∷ 0 ∷ [];
}

abbrev flags : Flags
flags = record { config_file = "/etc/pve/config.yaml"; once = false; debug = false }

abbrev published : SnapshotStore
published = store new_snapshot_store (build_snapshot polls)

published-polls : load published ≡ build_snapshot polls
unfolding load store
published-polls = refl

run-ObservesAll_example :
    let r = run_once world "dev" true (set_defaults config) in
    let s = run_server world "dev" "config.yaml" (set_defaults config) in
    let later = sync_instruments world "dev" (new_snapshot_store ∷ published ∷ []) s.otlp in
    ObservesAll r.collector.store r.otlp
    × ObservesAll s.collector.store s.otlp
    × ObservesAll published later
run-ObservesAll_example =
    run-ObservesAll world "dev" (set_defaults config) "config.yaml" true (new_snapshot_store ∷ [])
      published polls (λ n. refl) published-polls

dump_samples-IsSorted_example :
    let dump = dump_samples world.quote world.format (build_snapshot polls) in
    Perm dump (map (line world.quote world.format) (all_samples polls)) × IsSorted dump
dump_samples-IsSorted_example = dump_samples-IsSorted world.quote world.format polls
