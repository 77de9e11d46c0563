-- ===== src/Examples/Loads.antt =====
-- Runs of a load, of a reload and of the route table.
use pve_exporter.Base.{
  All, arith, inl, inr, String, ◌≡◌, refl, ◌≢◌, ◌⊎◌, true, Option, none, some, List, [], ◌∷◌, ◌==◌,
  if◌then◌else◌,
}
use pve_exporter.Base.Dict.{lookup, contains}
use pve_exporter.Base.Fallible.{value, failure}
use pve_exporter.Base.Int.{pos}
use pve_exporter.Models.Config.{Configuration, set_defaults, validate}
use pve_exporter.Models.SafeConfig.{SafeConfig, load_config, reload_config}
use pve_exporter.Models.SafeConfig.Loading.{ReloadCases, reload_config-ReloadCases}
use pve_exporter.Utils.Env.Matching.{text_of}
use pve_exporter.Utils.Env.Written.{IsWritten, pieces-text_of}
use pve_exporter.Utils.Env.{
  literal, reference, Piece, EnvError, unset, pieces, expand_env, resolve_secrets,
}
use pve_exporter.Utils.Env.Expansion.{
  unset_names, AreResolved, expand_env_cases, resolve_secrets-AreResolved,
}
use pve_exporter.Pve.Snapshot.{new_snapshot_store}
use pve_exporter.Pve.Collector.Cycle.{new_collector}
use pve_exporter.Server.{
  Server, build_targets, reload_server, register_endpoints, answer, static_ok,
}
use pve_exporter.Server.Reload.{InStep, reload_server-InStep}
use pve_exporter.Server.Routes.{livez, path_of, is_plain, IsServeMux, answer-register_endpoints}
use pve_exporter.Examples.{config, cluster, parse_duration, toggles}

abbrev pub env : String → Option String
env name = if name == "SECRET" then some "s3" else none

abbrev pub no_file : String → Option String
no_file path = none

abbrev pub any_file : String → Option String
any_file path = some "clusters: ..."

abbrev pub decode : String → Option Configuration
decode text = some config

expand_env_cases_example :
    ((unset_names env (pieces 0 "${SECRET}-${OTHER}") ≡ [])
      × ((out : String) × (expand_env env "${SECRET}-${OTHER}" ≡ value out)))
    ⊎ ((unset_names env (pieces 0 "${SECRET}-${OTHER}") ≢ [])
        × (expand_env env "${SECRET}-${OTHER}"
            ≡ failure (unset (unset_names env (pieces 0 "${SECRET}-${OTHER}")))))
expand_env_cases_example = expand_env_cases env "${SECRET}-${OTHER}"

abbrev pub with_secret : String → Configuration
with_secret s = record config { clusters = record (cluster "pve1") { token_secret = s } ∷ [] }

resolves : resolve_secrets env no_file (with_secret "${SECRET}") ≡ value (with_secret "s3")
unfolding resolve_secrets
resolves = refl

resolve_secrets-AreResolved_example :
    AreResolved env no_file (with_secret "${SECRET}").clusters (with_secret "s3").clusters
resolve_secrets-AreResolved_example =
    resolve_secrets-AreResolved env no_file (with_secret "${SECRET}") (with_secret "s3") resolves

loads :
    load_config {E = EnvError} any_file decode parse_duration none "config.yaml"
    ≡ value (set_defaults config)
unfolding load_config set_defaults lookup contains
loads = refl

abbrev pub holder : SafeConfig EnvError
holder = record { config = with_secret "old"; resolver = some (resolve_secrets env no_file) }

reload_config-ReloadCases_example :
    ReloadCases any_file decode parse_duration holder
      (reload_config any_file decode parse_duration "config.yaml" holder)
reload_config-ReloadCases_example =
    reload_config-ReloadCases any_file decode parse_duration "config.yaml" holder

abbrev pub server : Server EnvError
server = record {
  safe_cfg = holder;
  collector =
      new_collector (build_targets holder.config.clusters) new_snapshot_store (pos 30) (pos 25)
        toggles (pos 2);
}

pub server-InStep : InStep server
unfolding new_collector build_targets
server-InStep = refl

reload_server-InStep_example :
    InStep (reload_server any_file decode parse_duration "config.yaml" server).0
reload_server-InStep_example =
    reload_server-InStep any_file decode parse_duration "config.yaml" server server-InStep

accepted : (validate parse_duration config).1 ≡ none
unfolding validate set_defaults lookup contains
accepted = refl

-- A mux that knows its patterns only in full.
abbrev exact_mux : List String → String → Option String
exact_mux patterns path = if contains path patterns then some path else none

exact_mux-IsServeMux : IsServeMux exact_mux
exact_mux-IsServeMux patterns probe distinct plain known = rw known refl

plain_uri : is_plain (validate parse_duration config).0.server.uri ≡ true
unfolding validate set_defaults
plain_uri = refl

answer-register_endpoints_example :
    answer exact_mux
      (record { status = 500; body = "" })
      (register_endpoints true (validate parse_duration config).0.server.uri)
      (path_of livez)
    ≡ some static_ok
answer-register_endpoints_example =
    answer-register_endpoints exact_mux parse_duration config (record { status = 500; body = "" })
      exact_mux-IsServeMux accepted plain_uri true livez

-- A reference with a fallback behind a letter.
abbrev with_reference : List Piece
with_reference =
    literal "h" ∷ reference (record { name = "_a1"; fallback = some "x" }) ∷ literal "z" ∷ []

with_reference-IsWritten : All IsWritten with_reference
with_reference-IsWritten = (
  λ e. absurd (ground (arith, e)),
  (
    (
      (
        inr (inr refl),
        (inl (inr (inl (omega arith, omega arith))), (inr (omega arith, omega arith), tt)),
      ),
      (λ e. absurd (ground (arith, e)), tt),
    ),
    (λ e. absurd (ground (arith, e)), tt),
  ),
)

pieces-text_of_example : pieces 0 (text_of with_reference) ≡ with_reference
pieces-text_of_example = pieces-text_of with_reference with_reference-IsWritten

abbrev test_env : String → Option String
test_env name = if name == "A" then some "x" else if name == "EMPTY" then some "" else none

plain_test : expand_env test_env "a$b${A}-${A" ≡ value "a$bx-${A"
unfolding expand_env
plain_test = refl

fallback_test : expand_env test_env "${EMPTY:-d}${NO:-}${EMPTY}${A:-z}" ≡ value "dx"
unfolding expand_env
fallback_test = refl

missing_test : expand_env test_env "${NO} ${A} ${NO_2}" ≡ failure (unset ("NO" ∷ "NO_2" ∷ []))
unfolding expand_env
missing_test = refl
