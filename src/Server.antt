-- ===== src/Server.antt =====
-- main.go: the hot reload of the targets, and the route table.
pub mod Dump
pub mod Overlap
pub mod Lifecycle
pub mod Reload
pub mod Routes
use pve_exporter.Base.Dict.{lookup}
use pve_exporter.Base.{ℕ, String, Bool, true, false, Option, none, some, List, [], ◌∷◌, ◌++◌, map}
use pve_exporter.Base.Int.{ℤ}
use pve_exporter.Base.Fallible.{Fallible, value, failure}
use pve_exporter.Models.Config.{
  ClusterConfig, Configuration, get_collection_interval, get_collection_timeout,
  get_max_concurrent_targets,
}
use pve_exporter.Pve.Snapshot.{new_snapshot_store}
use pve_exporter.Models.SafeConfig.{LoadError, SafeConfig, reload_config}
use pve_exporter.Pve.Client.{Client}
use pve_exporter.Pve.Collector.{Target}
use pve_exporter.Pve.Collector.Cycle.{Collector, new_collector, set_targets}

-- `pve.NewClient`, as far as the model has a client
abbrev pub new_client : ClusterConfig → Client
new_client cl = record { name = cl.name; request_errors = 0 }

abbrev pub target_for : ClusterConfig → Target
target_for cl = record { cfg = cl; client = new_client cl }

-- `buildTargets`
unfoldable pub build_targets : List ClusterConfig → List Target
build_targets [] = []
build_targets (cl ∷ cls) = target_for cl ∷ build_targets cls

-- The collector that `run` makes.
unfoldable pub start_collector : (String → Option ℤ) → Configuration → Collector
unfolding new_collector build_targets new_snapshot_store get_collection_interval
    get_collection_timeout
start_collector parse_duration cfg =
    new_collector (build_targets cfg.clusters) new_snapshot_store
      (get_collection_interval parse_duration cfg) (get_collection_timeout parse_duration cfg)
      cfg.collectors (get_max_concurrent_targets cfg)

-- `server`
pub record Server (E : Type 0) : Type 0 where
  pub safe_cfg : SafeConfig E
  pub collector : Collector

module _ {E : Type 0} (read_file : String → Option String) (decode : String → Option Configuration)
    (parse_duration : String → Option ℤ) where
  rebuilt : Server E → SafeConfig E × Fallible (LoadError E) Bool → Server E × Option (LoadError E)
  unfolding build_targets
  rebuilt s (cfg, failure e) = (record s { safe_cfg = cfg }, some e)
  rebuilt s (cfg, value false) = (record s { safe_cfg = cfg }, none)
  rebuilt s (cfg, value true) = (
    record {
      safe_cfg = cfg;
      collector = set_targets (build_targets cfg.config.clusters) s.collector;
    },
    none,
  )

  -- `server.ReloadConfig`
  unfoldable pub reload_server : String → Server E → Server E × Option (LoadError E)
  unfolding rebuilt
  reload_server path s = rebuilt s (reload_config read_file decode parse_duration path s.safe_cfg)

-- What `registerEndpoints` registers, in order: the path and the handler.
pub data Handler : Type 0 where
  metrics_handler health_handler static_ok_handler : Handler

abbrev with_metrics : Bool → String → List (String × Handler)
with_metrics true uri = (uri, metrics_handler) ∷ []
with_metrics false uri = []

-- `registerEndpoints`; the metrics handler may be nil
unfoldable pub register_endpoints : Bool → String → List (String × Handler)
register_endpoints has_metrics uri =
    with_metrics has_metrics uri
    ++ ("/health", health_handler)
      ∷ ("/livez", static_ok_handler)
      ∷ ("/readyz", static_ok_handler)
      ∷ []

-- What a handler writes: the status and the body.
pub record Response : Type 0 where
  pub status : ℕ
  pub body : String

-- `staticOKHandler`
abbrev pub static_ok : Response
static_ok = record { status = 200; body = "ok" }

-- `metrics` is what promhttp answers at that time; the health handler writes as the static one
abbrev pub respond : Response → Handler → Response
respond metrics metrics_handler = metrics
respond metrics health_handler = record { status = 200; body = "ok" }
respond metrics static_ok_handler = static_ok

abbrev pub respond_route : Response → Option Handler → Option Response
respond_route metrics none = none
respond_route metrics (some h) = some (respond metrics h)

abbrev pub respond_pattern : Response → List (String × Handler) → Option String → Option Response
respond_pattern metrics routes none = none
respond_pattern metrics routes (some pattern) = respond_route metrics (lookup pattern routes)

-- The answer of a mux with these routes; `mux` is http.ServeMux: the pattern that it picks for a path
-- among the registered ones, or none where it refuses a pattern or knows no fitting one.
unfoldable pub answer :
    (List String → String → Option String)
    → Response
    → List (String × Handler)
    → String
    → Option Response
unfolding lookup
answer mux metrics routes path = respond_pattern metrics routes (mux (map (λ r. r.0) routes) path)
