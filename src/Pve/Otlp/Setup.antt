-- ===== src/Pve/Otlp/Setup.antt =====
-- internal/pve/otlp.go: how the exporter is set up.
-- The SDK is a parameter: whether the gRPC exporter and the resource can be made. A result with an
-- error does not show the reader, which the code has made by then and leaves running.
use pve_exporter.Base.{String, true, false, Option, none, some, List, [], ◌∷◌, if◌then◌else◌}
use pve_exporter.Base.Int.{ℤ, pos, is_positive}
use pve_exporter.Base.Fallible.{Fallible, value, failure}
use pve_exporter.Models.Config.{OtelExportConfig}
use pve_exporter.Telemetry.{ExporterOption, with_endpoint, with_insecure}
use pve_exporter.Pve.Otlp.{OtlpExporter, new_otlp_exporter}

abbrev pub otlp_service_name : String
otlp_service_name = "pve-exporter"

unfoldable pub metric_options : OtelExportConfig → List ExporterOption
metric_options oc =
    with_endpoint oc.endpoint ∷ elim oc.insecure [ true ↦ with_insecure ∷ [] | false ↦ [] ]

-- The reader made by sdkmetric.NewPeriodicReader.
pub record PeriodicReader : Type 0 where
  pub exporter : List ExporterOption
  pub interval : ℤ

-- 10 * time.Second
abbrev pub default_push : ℤ
default_push = pos 10000000000

-- A step that may fail, before the rest.
abbrev pub unless_error : {E A : Type 0} → Option E → Fallible E A → Fallible E A
unless_error (some e) rest = failure e
unless_error none rest = rest

module _ {E : Type 0} (new_exporter : List ExporterOption → Option E)
    (new_resource : String → String → Option E) (parse_duration : String → Option ℤ) where
  unfoldable pub push_interval : OtelExportConfig → ℤ
  push_interval oc = elim (parse_duration oc.interval) [
    | none ↦ default_push
    | some d ↦ if is_positive d then d else default_push
  ]

  -- `newOTLPExporterWithReader`
  unfoldable pub with_reader : PeriodicReader → String → Fallible E (OtlpExporter × PeriodicReader)
  unfolding new_otlp_exporter
  with_reader reader version =
      unless_error (new_resource otlp_service_name version) (value (new_otlp_exporter, reader))

  -- `NewOTLPExporter`
  unfoldable pub create_exporter :
      OtelExportConfig → String → Fallible E (OtlpExporter × PeriodicReader)
  unfolding metric_options push_interval with_reader
  create_exporter oc version =
      unless_error (new_exporter (metric_options oc))
        (with_reader (record { exporter = metric_options oc; interval = push_interval oc }) version)
