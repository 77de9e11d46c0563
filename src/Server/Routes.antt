-- ===== src/Server/Routes.antt =====
-- main.go: the paths of the route table.
use pve_exporter.Base.{
  ℕ, String, ◌≡◌, refl, ap, ◌∙◌, Bool, true, false, Option, none, some, List, [], ◌∷◌, map, arith,
  starts_with, ◌==◌, ◌&&◌, ◌||◌, leb, eqb, eq_iff, All,
}
use pve_exporter.Base.Dict.{lookup, contains}
use pve_exporter.Base.Distinct.{IsDistinct}
use pve_exporter.Base.Int.{ℤ}
use pve_exporter.Models.Config.{Configuration, set_defaults, validate}
use pve_exporter.Models.Config.Valid.{IsValid, validate_iff}
use Prim.Native.Char.{code}
use pve_exporter.Server.{
  Response, Handler, health_handler, static_ok_handler, respond, respond_route, respond_pattern,
  static_ok, answer, register_endpoints,
}

-- For a configuration that `Validate` accepts, `registerEndpoints` registers no path twice, which
-- `http.ServeMux` would refuse with a panic.
pub register_endpoints-IsDistinct :
    (parse_duration : String → Option ℤ) (c : Configuration)
    → (validate parse_duration c).1 ≡ none
    → (has_metrics : Bool)
    → IsDistinct
        (map (λ r. r.0) (register_endpoints has_metrics (validate parse_duration c).0.server.uri))
unfolding register_endpoints contains validate lookup
register_endpoints-IsDistinct parse_duration c h false = (refl, (refl, (refl, tt)))
register_endpoints-IsDistinct parse_duration c h true = (free, (refl, (refl, (refl, tt))))
  where
    v : IsValid parse_duration (set_defaults c)
    v = (validate_iff parse_duration c).0 h

    uri : String
    uri = (set_defaults c).server.uri

    free : contains uri ("/health" ∷ "/livez" ∷ "/readyz" ∷ []) ≡ false
    free = ground (arith, v.free)

-- The paths of the probes.
pub data Probe : Type 0 where
  health livez readyz : Probe

abbrev pub path_of : Probe → String
path_of health = "/health"
path_of livez = "/livez"
path_of readyz = "/readyz"

uri-probe :
    (parse_duration : String → Option ℤ) (c : Configuration)
    → (validate parse_duration c).1 ≡ none
    → (probe : Probe) → ((validate parse_duration c).0.server.uri == path_of probe) ≡ false
unfolding validate lookup
uri-probe parse_duration c h probe = apart probe
  where
    uri : String
    uri = (set_defaults c).server.uri

    v : IsValid parse_duration (set_defaults c)
    v = (validate_iff parse_duration c).0 h

    apart : (probe : Probe) → (uri == path_of probe) ≡ false
    apart health = ground (arith, v.free, eq_iff uri "/health", eq_iff "/health" uri)
    apart livez = ground (arith, v.free, eq_iff uri "/livez", eq_iff "/livez" uri)
    apart readyz = ground (arith, v.free, eq_iff uri "/readyz", eq_iff "/readyz" uri)

abbrev is_plain_code : ℕ → Bool
is_plain_code c = leb 97 c && leb c 122 || leb 65 c && leb c 90 || leb 45 c && leb c 57 || eqb c 95

-- The text has only letters, digits, and the characters of "-./_".
abbrev pub is_plain : String → Bool
is_plain String.[] = true
is_plain (String.◌∷◌ c s) = is_plain_code (code c) && is_plain s

-- Documented of http.ServeMux: it takes distinct patterns that are plain paths, and for a probe's
-- path, which has one segment, it picks the pattern that is this path before any other that matches.
-- It parses other patterns: braces, percent signs and spaces have a meaning there, and a pattern may
-- be refused with a panic.
abbrev pub IsServeMux : (List String → String → Option String) → Type 0
IsServeMux mux =
    (patterns : List String) (probe : Probe)
    → IsDistinct patterns
    → All (λ p. (starts_with p "/" ≡ true) × (is_plain p ≡ true)) patterns
    → contains (path_of probe) patterns ≡ true
    → mux patterns (path_of probe) ≡ some (path_of probe)

-- The routes behind another path.
lookup-behind :
    (uri : String) (probe : Probe)
    → (uri == path_of probe) ≡ false
    → (h : Handler) × (lookup (path_of probe) (register_endpoints true uri) ≡ some h)
      × ((metrics : Response) → respond metrics h ≡ static_ok)
unfolding register_endpoints lookup
lookup-behind uri health e = (health_handler, ground (arith, e), λ m. refl)
lookup-behind uri livez e = (static_ok_handler, ground (arith, e), λ m. refl)
lookup-behind uri readyz e = (static_ok_handler, ground (arith, e), λ m. refl)

lookup-probe :
    (probe : Probe) (uri : String)
    → (h : Handler) × (lookup (path_of probe) (register_endpoints false uri) ≡ some h)
      × ((metrics : Response) → respond metrics h ≡ static_ok)
unfolding register_endpoints lookup
lookup-probe health uri = (health_handler, refl, λ m. refl)
lookup-probe livez uri = (static_ok_handler, refl, λ m. refl)
lookup-probe readyz uri = (static_ok_handler, refl, λ m. refl)

contains-path_of :
    (has_metrics : Bool) (uri : String) (probe : Probe)
    → contains (path_of probe) (map (λ r. r.0) (register_endpoints has_metrics uri)) ≡ true
unfolding register_endpoints contains
contains-path_of true uri health = ground arith
contains-path_of true uri livez = ground arith
contains-path_of true uri readyz = ground arith
contains-path_of false uri health = refl
contains-path_of false uri livez = refl
contains-path_of false uri readyz = refl

answer-lookup :
    (mux : List String → String → Option String) (metrics : Response)
    (routes : List (String × Handler)) (path : String) (h : Handler)
    → mux (map (λ r. r.0) routes) path ≡ some path
    → lookup path routes ≡ some h
    → answer mux metrics routes path ≡ some (respond metrics h)
unfolding answer
answer-lookup mux metrics routes path h e k =
    ap (respond_pattern metrics routes) e ∙ ap (respond_route metrics) k

-- For a configuration that `Validate` accepts, where the URI of the metrics is a plain path, every
-- probe is answered with status 200 and "ok", whatever the handler of the metrics would answer and
-- whether or not there is one: no pattern is registered twice, and the URI of the metrics never
-- takes the path of a probe. http.ServeMux takes distinct plain paths, and a path that is
-- registered itself goes before others.
pub answer-register_endpoints :
    (mux : List String → String → Option String) (parse_duration : String → Option ℤ)
    (c : Configuration) (metrics : Response)
    → IsServeMux mux
    → (validate parse_duration c).1 ≡ none
    → is_plain (validate parse_duration c).0.server.uri ≡ true
    → (has_metrics : Bool) (probe : Probe)
    → answer mux metrics
        (register_endpoints has_metrics (validate parse_duration c).0.server.uri)
        (path_of probe)
      ≡ some static_ok
unfolding validate register_endpoints
answer-register_endpoints mux parse_duration c metrics serves h plain has_metrics probe =
    let picked =
      serves _ probe (register_endpoints-IsDistinct parse_duration c h has_metrics)
        (patterns_plain has_metrics) (contains-path_of has_metrics uri probe) in
    let (handler, found, ok) = route has_metrics in
    answer-lookup mux metrics (register_endpoints has_metrics uri) (path_of probe) handler picked
      found
    ∙ ap some (ok metrics)
  where
    uri : String
    uri = (validate parse_duration c).0.server.uri

    slash : starts_with (validate parse_duration c).0.server.uri "/" ≡ true
    slash = ((validate_iff parse_duration c).0 h).slash

    patterns_plain :
        (b : Bool)
        → All
            (λ p. (starts_with p "/" ≡ true) × (is_plain p ≡ true))
            (map (λ r. r.0) (register_endpoints b (validate parse_duration c).0.server.uri))
    patterns_plain true = ((slash, plain), ((refl, refl), ((refl, refl), ((refl, refl), tt))))
    patterns_plain false = ((refl, refl), ((refl, refl), ((refl, refl), tt)))

    route :
        (b : Bool)
        → (k : Handler) × (lookup
              (path_of probe)
              (register_endpoints b (validate parse_duration c).0.server.uri)
            ≡ some k)
          × ((m : Response) → respond m k ≡ static_ok)
    route true =
        lookup-behind (validate parse_duration c).0.server.uri probe
          (uri-probe parse_duration c h probe)
    route false = lookup-probe probe (validate parse_duration c).0.server.uri
