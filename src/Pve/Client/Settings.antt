-- ===== src/Pve/Client/Settings.antt =====
-- internal/pve/client.go: the settings that `NewClient` gives to resty, and the trace of a response.
use pve_exporter.Base.{ℕ, String, Bool, true, false, Option, none, some, List, [], ◌∷◌, ◌*◌}
use pve_exporter.Models.Config.{ClusterConfig, base_url, auth_header}
use pve_exporter.Pve.Client.{Reply, retry_condition}

-- In nanoseconds.
abbrev pub default_timeout : ℕ
default_timeout = 30 * 1000000000

abbrev pub retry_count : ℕ
retry_count = 2

abbrev pub retry_wait_time : ℕ
retry_wait_time = 500 * 1000000

abbrev pub retry_max_wait_time : ℕ
retry_max_wait_time = 3 * 1000000000

-- tls.Config
pub record TlsConfig : Type 0 where
  pub insecure_skip_verify : Bool
  pub min_version : ℕ

-- tls.VersionTLS12
abbrev pub version_tls12 : ℕ
version_tls12 = 0x0303

-- What a trace logs of a response.
pub record TraceEntry : Type 0 where
  pub cluster : String
  pub method : String
  pub path : String
  pub status : ℕ
  pub body : String

pub record HttpSettings : Type 0 where
  pub base_url : String
  pub headers : List (String × String)
  pub timeout : ℕ
  pub retries : ℕ
  pub wait : ℕ
  pub max_wait : ℕ
  pub retry : Reply → Bool
  pub tls : TlsConfig
  pub on_after_response : Option (String → String → ℕ → String → TraceEntry)

abbrev trace_response : ClusterConfig → String → String → ℕ → String → TraceEntry
trace_response cfg method path status body = record {
  cluster = cfg.name;
  method = method;
  path = path;
  status = status;
  body = body;
}

-- `NewClient`, given to resty
unfoldable pub http_settings : ClusterConfig → Bool → HttpSettings
unfolding base_url auth_header retry_condition
http_settings cfg trace = record {
  base_url = base_url cfg;
  headers = ("Authorization", auth_header cfg) ∷ ("Accept", "application/json") ∷ [];
  timeout = default_timeout;
  retries = retry_count;
  wait = retry_wait_time;
  max_wait = retry_max_wait_time;
  retry = retry_condition;
  tls = record { insecure_skip_verify = cfg.insecure_skip_verify; min_version = version_tls12 };
  on_after_response = elim trace [ true ↦ some (trace_response cfg) | false ↦ none ];
}
