-- ===== src/Pve/Ha/Labels.antt =====
-- internal/pve/ha.go: `collectHAStatus` and the label keys of its samples.
use pve_exporter.Base.{List, [], ◌∷◌}
use pve_exporter.Pve.Metrics.{SampleSet}
use pve_exporter.Pve.Metrics.Labels.{Extends, Extends-refl, Extends-trans}
use pve_exporter.Pve.Api.{HaStatusEntry}
use pve_exporter.Pve.Resources.Labels.{extends_rules}
use pve_exporter.Pve.Client.{Remote, Result, ok, err}
use pve_exporter.Pve.Client.Returns.{Returns, Returns-pure, Returns-bind}
use pve_exporter.Pve.Ha.{collect_ha_entry, collect_ha_entries, ha_samples, collect_ha_status}

entry-Extends : (s : SampleSet) (e : HaStatusEntry) → Extends s (collect_ha_entry s e)
unfolding collect_ha_entry
entry-Extends s e = search extends_rules

entries-Extends :
    (entries : List HaStatusEntry) (s : SampleSet) → Extends s (collect_ha_entries s entries)
unfolding collect_ha_entries
entries-Extends [] s = Extends-refl s
entries-Extends (e ∷ entries) s = Extends-trans (entry-Extends s e) (entries-Extends entries _)

ha_samples-Extends : (s : SampleSet) (r : Result (List HaStatusEntry)) → Extends s (ha_samples s r)
unfolding ha_samples
ha_samples-Extends s (ok entries) = entries-Extends entries s
ha_samples-Extends s (err e) = Extends-refl s

pub collect_ha_status-Extends :
    (remote : Remote) (s : SampleSet) → Returns (Extends s) (collect_ha_status remote s)
unfolding collect_ha_status
collect_ha_status-Extends remote s = Returns-bind _ _ (λ r. Returns-pure _ (ha_samples-Extends s r))
