-- ===== src/Pve/Otlp.antt =====
-- internal/pve/otlp.go: the registration of instruments and what their callbacks observe.
-- `meter.Float64ObservableGauge` is a parameter: the error of registering a name, or none. The
-- provider, the reader and the push over the network belong to the OpenTelemetry SDK.
pub mod Instruments
pub mod Setup
use pve_exporter.Base.{String, Bool, Option, none, some, List, [], ◌∷◌, ◌++◌, map, if◌then◌else◌}
use pve_exporter.Base.Dict.{contains}
use pve_exporter.Base.Float.{Float64}
use pve_exporter.Pve.Metrics.{Label, Sample}
use pve_exporter.Pve.Snapshot.{SnapshotStore, load, metric_names, samples_for}

-- The instruments that the meter has, in order of registration, and the names in `registered`.
pub record OtlpExporter : Type 0 where
  pub instruments : List String
  pub registered : List String

unfoldable pub new_otlp_exporter : OtlpExporter
new_otlp_exporter = record { instruments = []; registered = [] }

-- o.Observe(s.Value, attributes...)
pub record Observation : Type 0 where
  pub value : Float64
  pub attributes : List (String × String)

abbrev pub attrs_for : List Label → List (String × String)
attrs_for labels = map (λ l. (l.name, l.value)) labels

abbrev pub observe : Sample → Observation
observe s = record { value = s.value; attributes = attrs_for s.labels }

-- e.registered[name] = struct{}{}, after the meter took the instrument
register : String → OtlpExporter → OtlpExporter
register name e = record {
  instruments = e.instruments ++ name ∷ [];
  registered = name ∷ e.registered;
}

-- What a push reads under a name: the callback of its instrument, on the snapshot of that moment.
unfoldable pub observations : OtlpExporter → SnapshotStore → String → List Observation
observations e store name =
    if contains name e.instruments then map observe (samples_for (load store) name) else []

module _ {E : Type 0} (float64_observable_gauge : String → Option E) where
  unfoldable pub ensure_names : List String → OtlpExporter → OtlpExporter × Option E
  unfolding register
  ensure_names [] e = (e, none)
  ensure_names (name ∷ names) e =
      let skipped = ensure_names names e in
      let rest = ensure_names names (register name e) in
      if contains name e.registered
      then skipped
      else elim (float64_observable_gauge name) [ some failure ↦ (e, some failure) | none ↦ rest ]

  -- `EnsureInstruments`
  unfoldable pub ensure_instruments : SnapshotStore → OtlpExporter → OtlpExporter × Option E
  unfolding ensure_names
  ensure_instruments store e = ensure_names (metric_names (load store)) e
