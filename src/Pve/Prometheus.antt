-- ===== src/Pve/Prometheus.antt =====
-- internal/pve/prometheus.go: the collector that emits the current snapshot.
-- `prometheus.NewDesc` and `prometheus.NewConstMetric` are one parameter: nothing on an error.
pub mod Series
use pve_exporter.Base.{
  String, ◌≡◌, refl, Bool, Option, none, some, List, [], ◌∷◌, ◌++◌, map, if◌then◌else◌,
}
use pve_exporter.Base.Dict.{contains}
use pve_exporter.Base.Float.{Float64}
use pve_exporter.Base.Text.{join}
use pve_exporter.Pve.Metrics.{Label, Sample}
use pve_exporter.Pve.Help.{help_for, is_counter}
use pve_exporter.Pve.Snapshot.{Snapshot, SnapshotStore, load, metric_names, samples_for}

pub data ValueType : Type 0 where
  counter_value gauge_value : ValueType

-- prometheus.NewDesc(name, help, keys, nil)
pub record Desc : Type 0 where
  pub name : String
  pub help : String
  pub keys : List String

abbrev pub split_labels : List Label → List String × List String
split_labels labels = (map (λ l. l.name) labels, map (λ l. l.value) labels)

-- The signature by which duplicates are found.
unfoldable pub signature : Sample → String
signature s = join "\0" (split_labels s.labels).1

unfoldable pub value_type : String → ValueType
value_type name = if is_counter name then counter_value else gauge_value

unfoldable pub desc_of : Sample → Desc
desc_of s = record { name = s.name; help = help_for s.name; keys = (split_labels s.labels).0 }

-- A metric that could not be built is passed over.
abbrev pub emit {ℓ} : {M : Type ℓ} → Option M → List M → List M
emit none ms = ms
emit (some m) ms = m ∷ ms

module _ {M : Type 0} (new_const_metric : Desc → ValueType → Float64 → List String → Option M) where
  unfoldable pub metric_of : Sample → Option M
  unfolding desc_of value_type
  metric_of s = new_const_metric (desc_of s) (value_type s.name) s.value (split_labels s.labels).1

  -- The loop over the samples of one name, with the signatures seen.
  unfoldable pub collect_samples : List String → List Sample → List M
  unfolding signature metric_of
  collect_samples seen [] = []
  collect_samples seen (s ∷ samples) =
      let skipped = collect_samples seen samples in
      let rest = collect_samples (signature s ∷ seen) samples in
      if contains (signature s) seen then skipped else emit (metric_of s) rest

  unfoldable pub collect_names : Snapshot → List String → List M
  unfolding collect_samples
  collect_names snap [] = []
  collect_names snap (name ∷ names) =
      collect_samples [] (samples_for snap name) ++ collect_names snap names

  -- `Collect`: what is sent on the channel, in order
  unfoldable pub collect : SnapshotStore → List M
  unfolding collect_names
  collect store = let snap = load store in collect_names snap (metric_names snap)

join_test : join "\0" ("a" ∷ "b" ∷ []) ≡ "a\0b"
unfolding join
join_test = refl
