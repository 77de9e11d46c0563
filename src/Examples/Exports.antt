-- ===== src/Examples/Exports.antt =====
-- Runs of the two exporters.
use pve_exporter.Base.{String, ◌≡◌, refl, map, Option, none, some, List}
use pve_exporter.Base.Dict.{contains, lookup, insert}
use pve_exporter.Base.Float.{Float64}
use pve_exporter.Pve.Metrics.{Sample}
use pve_exporter.Pve.Snapshot.{build_snapshot, metric_names, SnapshotStore, load}
use pve_exporter.Pve.Snapshot.Index.{all_samples, named}
use pve_exporter.Pve.Prometheus.{Desc, ValueType, collect}
use pve_exporter.Pve.Prometheus.Series.{emit_all, AreFirst}
use pve_exporter.Pve.Prometheus.Series.Gather.{collect-IsDistinct}
use pve_exporter.Pve.Otlp.{new_otlp_exporter, observe, observations, ensure_instruments}
use pve_exporter.Pve.Otlp.Instruments.{IsConsistent, observations-all}
use pve_exporter.Examples.{polls}

abbrev const_metric : Desc → ValueType → Float64 → List String → Option String
const_metric d t v values = some d.name

abbrev published : SnapshotStore
published = record { current = build_snapshot polls }

abbrev gauge : String → Option String
gauge name = none

new-IsConsistent : IsConsistent new_otlp_exporter
unfolding new_otlp_exporter
new-IsConsistent = record { distinct = tt; same = λ n. refl }

registers : (ensure_instruments gauge published new_otlp_exporter).1 ≡ none
unfolding ensure_instruments new_otlp_exporter load build_snapshot metric_names lookup insert
    contains
registers = refl

published-polls : load published ≡ build_snapshot polls
unfolding load
published-polls = refl

observations-all_example :
    observations (ensure_instruments gauge published new_otlp_exporter).0 published "pve_up"
    ≡ map observe (named "pve_up" (all_samples polls))
observations-all_example =
    observations-all gauge polls published new_otlp_exporter "pve_up" new-IsConsistent
      published-polls registers

collect-IsDistinct_example :
    (ks : List Sample) × (collect const_metric published ≡ emit_all const_metric ks)
    × ((n : String) → AreFirst (named n (all_samples polls)) (named n ks))
collect-IsDistinct_example = collect-IsDistinct const_metric polls published published-polls
