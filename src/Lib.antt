-- ===== src/Lib.antt =====
-- pve_exporter: a Prometheus and OTLP exporter for Proxmox VE.
--
-- The program reads its configuration, resolves the secrets in it, builds a client for each
-- configured cluster, and runs a cycle on an interval: it polls all targets concurrently, and the
-- nodes of each target concurrently again, turns the replies into labelled samples, indexes the
-- samples of a cycle into a snapshot and publishes that in a store. The Prometheus collector and
-- the OTLP exporter only read the store. A reload of the configuration swaps the targets.
--
-- The files and the code they model:
--   Models/Config        internal/models/config.go, with the defaults and the validation
--   Models/SafeConfig    internal/models/safe_config.go: load and reload
--   Utils/Env            internal/utils/env.go: references to the environment, secrets
--   Utils/Dotenv         internal/utils/dotenv.go
--   Logging              internal/logging/logging.go
--   Telemetry            internal/telemetry/manager.go
--   Watcher              internal/config/watcher.go: the signal and the file watch;
--                        Watcher/Schedule: both and the ticks on one server
--   Pve/Metrics          internal/pve/metrics.go: names, labels, samples, the sample set
--   Pve/Api              internal/pve/api.go: the rows of the API
--   Pve/Parse            internal/pve/parse.go; Pve/Parse/Calendar: the days of the calendar
--   Pve/Resources        internal/pve/resources.go
--   Pve/Help             internal/pve/help.go
--   Pve/Client           internal/pve/client.go
--   Pve/Ha, Pve/Node     internal/pve/ha.go, internal/pve/node.go
--   Pve/Snapshot         internal/pve/snapshot.go
--   Pve/Group            the goroutines of internal/pve/collector.go, as steps of an errgroup
--   Pve/Collector        internal/pve/collector.go: one poll; Pve/Collector/Cycle: the collector,
--                        its cycles and its loop; Pve/Collector/Shared: a cycle that runs while the
--                        targets are swapped
--   Pve/Prometheus       internal/pve/prometheus.go
--   Pve/Otlp             internal/pve/otlp.go: set-up, instruments and their callbacks
--   Server               main.go: the reload of the server, and the route table;
--                        Server/Overlap: the steps of two reloads at a time;
--                        Server/Lifecycle: run, from the start to the end of the first cycle;
--                        Server/Dump: the dump of a single cycle
--   Base                 what the files share: texts, maps, floats, integers, lists
--   Examples             test data and runs
-- A child module named for a property (Labels, Counting, Index, Schedule, ...) holds its proof.
--
-- A function of the source keeps its name in snake case, and a struct its fields. A function that
-- changes a struct returns the new one; `SampleSet`, `Snapshot` and the client's error counter are
-- passed through in this way, and a function that calls the API is a `Fetch`, a function of the
-- client's state. An error is a value (`Result`, `FetchError`, `ConfigError`, `Fallible`). A loop
-- over a slice is a recursion on the list, so there is no fuel; the loop of `Run` is a recursion on
-- the events that wake it.
--
-- Parameters stand for what is not in the repository: the replies of the API (one reply for each
-- path within a cycle, after resty's retries), `encoding/json` (`Codec`), the YAML decoder, files
-- and environment variables, `time.ParseDuration`, `strconv.ParseFloat`, the verbs %q and %g of
-- `fmt`, the constructors of the Prometheus and OTLP libraries, fsnotify, godotenv, the clock, and
-- the order in which goroutines finish. A float is its bits; the arithmetic of floats is not
-- modelled. `time.Parse` is modelled for the one layout that is used. A Go map is an association
-- list in order of insertion. A swap of the targets falls between two cycles, but for
-- Pve/Collector/Shared, where it falls between the steps of one; there a cycle may also publish
-- before its goroutines are done, which the code does not do.
--
-- A reload has three steps in Server/Overlap and in Watcher/Schedule, where the two goroutines that
-- reload may overlap, and is one step in Server/Reload. In Watcher/Schedule a cycle is one step.
-- Server/Lifecycle goes to the end of the first cycle, where nothing stops the run before.
--
-- Not modelled: the HTTP transport with its retries, TLS, timeouts and cancellation of a poll; the
-- shutdown, and a stop during the first cycle; the reader that is left running where the resource of
-- the OTLP exporter is refused; the patterns of http.ServeMux that are no plain paths; the parsing of
-- the flags, the level and the texts of the log, the texts of configuration errors.
pub mod Base
pub mod Examples
pub mod Logging
pub mod Models
pub mod Pve
pub mod Server
pub mod Telemetry
pub mod Utils
pub mod Watcher
