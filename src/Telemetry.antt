-- ===== src/Telemetry.antt =====
-- internal/telemetry/manager.go: the life of the tracer provider.
-- The OpenTelemetry SDK is a parameter: whether the gRPC exporter and the resource can be made,
-- and the outcome of stopping a provider. A provider is the settings it was made with.
use pve_exporter.Base.{
  String, ◌≡◌, refl, Bool, true, false, Option, none, some, List, [], ◌∷◌, arith,
}
use pve_exporter.Base.Float.{Float64}

-- `Config`
pub record TracerConfig : Type 0 where
  pub endpoint : String
  pub insecure : Bool
  pub sampling_rate : Float64
  pub service_name : String
  pub service_version : String

-- The options given to otlptracegrpc.New; otlpmetricgrpc.New has the same two.
pub data ExporterOption : Type 0 where
  with_endpoint : String → ExporterOption
  with_insecure : ExporterOption

-- The provider made by sdktrace.NewTracerProvider: its exporter, resource and sampler.
pub record TracerProvider : Type 0 where
  pub exporter : List ExporterOption
  pub service_name : String
  pub service_version : String
  pub ratio : Float64

-- `Manager`
pub record Manager : Type 0 where
  pub enabled : Bool
  pub provider : Option TracerProvider
  pub cfg : TracerConfig

unfoldable pub new_manager : TracerConfig → Manager
new_manager cfg = record { enabled = false; provider = none; cfg = cfg }

unfoldable pub exporter_options : TracerConfig → List ExporterOption
exporter_options cfg =
    with_endpoint cfg.endpoint ∷ elim cfg.insecure [ true ↦ with_insecure ∷ [] | false ↦ [] ]

-- The provider of the process that otel.SetTracerProvider sets.
abbrev pub Global : Type 0
Global = Option TracerProvider

-- The provider that `Initialize` makes.
unfoldable pub provider_for : TracerConfig → TracerProvider
unfolding exporter_options
provider_for cfg = record {
  exporter = exporter_options cfg;
  service_name = cfg.service_name;
  service_version = cfg.service_version;
  ratio = cfg.sampling_rate;
}

-- What `Initialize` leaves, from the outcomes of the exporter and of the resource, whose outcome
-- counts only behind an exporter.
abbrev set_up : {E : Type 0} → Manager → Global → Option E → Option E → Manager × Global × Option E
set_up m global (some e) resource = (m, global, some e)
set_up m global none (some e) = (m, global, some e)
set_up m global none none = (
  record m { enabled = true; provider = some (provider_for m.cfg) },
  some (provider_for m.cfg),
  none,
)

-- `Initialize`: the manager and the provider of the process after, and the error
unfoldable pub initialize :
    {E : Type 0}
    → (List ExporterOption → Option E)
    → (String → String → Option E)
    → Manager
    → Global
    → Manager × Global × Option E
unfolding exporter_options provider_for
initialize new_exporter new_resource m global =
    set_up m global (new_exporter (exporter_options m.cfg))
      (new_resource m.cfg.service_name m.cfg.service_version)

-- `Shutdown`: the providers that are stopped, and the error
unfoldable pub shutdown_manager :
    {E : Type 0} → (TracerProvider → Option E) → Manager → List TracerProvider × Option E
shutdown_manager stop m = elim m.provider [ none ↦ ([], none) | some p ↦ (p ∷ [], stop p) ]

abbrev pub is_enabled : Manager → Bool
is_enabled m = m.enabled

-- `TracerProvider`; `noop` is what the SDK has before a provider is set
unfoldable pub tracer_provider : TracerProvider → Global → Manager → TracerProvider
tracer_provider noop global m = elim m.provider [
  | some p ↦ p
  | none ↦ elim global [ none ↦ noop | some p ↦ p ]
]

abbrev has_provider : Manager → Bool
has_provider m = elim m.provider [ some p ↦ true | none ↦ false ]

-- What a manager with this provider of the process has: it is enabled exactly if it has a provider,
-- which is made of its settings and is the provider of the process.
pub record IsConsistent (m : Manager) (global : Global) : Type 0 where
  pub flag : m.enabled ≡ has_provider m
  pub settings : (p : TracerProvider) → m.provider ≡ some p → p ≡ provider_for m.cfg
  pub same : global ≡ m.provider

-- The outcomes of the SDK during one call of `Initialize`.
pub record Attempt (E : Type 0) : Type 0 where
  pub new_exporter : List ExporterOption → Option E
  pub new_resource : String → String → Option E

abbrev pub initialize_all : {E : Type 0} → List (Attempt E) → Manager × Global → Manager × Global
initialize_all [] s = s
initialize_all (a ∷ attempts) (m, global) =
    let (m', global', e) = initialize a.new_exporter a.new_resource m global in
    initialize_all attempts (m', global')

set_up-IsConsistent :
    {E : Type 0} (m : Manager) (global : Global) (exporter resource : Option E)
    → IsConsistent m global
    → IsConsistent (set_up m global exporter resource).0 (set_up m global exporter resource).1
set_up-IsConsistent m global (some e) resource h = h
set_up-IsConsistent m global none (some e) h = h
set_up-IsConsistent m global none none h = record {
  flag = refl;
  settings = λ p e. ground (arith, e);
  same = refl;
}

initialize_all-IsConsistent :
    {E : Type 0} (attempts : List (Attempt E)) (m : Manager) (global : Global)
    → IsConsistent m global
    → IsConsistent (initialize_all attempts (m, global)).0 (initialize_all attempts (m, global)).1
initialize_all-IsConsistent [] m global h = h
initialize_all-IsConsistent (a ∷ attempts) m global h =
    initialize_all-IsConsistent attempts _ _
      (unfold initialize in set_up-IsConsistent m global _ _ h)

module _ (m : Manager) (global : Global) (same : global ≡ m.provider) where
  tracer_provider-global :
      (noop : TracerProvider)
      → tracer_provider noop global m ≡ elim global [ none ↦ noop | some p ↦ p ]
  unfolding tracer_provider
  tracer_provider-global noop = ground (arith, same)

  shutdown_manager-global :
      {E : Type 0} (stop : TracerProvider → Option E)
      → (shutdown_manager stop m).0 ≡ elim global [ none ↦ [] | some p ↦ p ∷ [] ]
  unfolding shutdown_manager
  shutdown_manager-global stop = ground (arith, same)

-- In a process without a provider, after any attempts to set up a new manager, each of which may
-- fail at the exporter or at the resource: the manager is enabled exactly if it has a provider,
-- the provider is made of its settings, `TracerProvider` gives the provider of the process, and
-- `Shutdown` stops exactly the provider that the manager has, so it does nothing before a set-up
-- has succeeded.
pub initialize_all-tracer_provider :
    {E : Type 0} (attempts : List (Attempt E)) (cfg : TracerConfig) (noop : TracerProvider)
    (stop : TracerProvider → Option E)
    → let (m, global) = initialize_all attempts (new_manager cfg, none) in
      IsConsistent m global
      × (tracer_provider noop global m ≡ elim global [ none ↦ noop | some p ↦ p ])
      × ((shutdown_manager stop m).0 ≡ elim global [ none ↦ [] | some p ↦ p ∷ [] ])
unfolding new_manager
initialize_all-tracer_provider attempts cfg noop stop =
    let h =
      initialize_all-IsConsistent attempts (new_manager cfg) none
        (record { flag = refl; settings = λ p e. ground (arith, e); same = refl }) in
    (h, tracer_provider-global _ _ h.same noop, shutdown_manager-global _ _ h.same stop)
