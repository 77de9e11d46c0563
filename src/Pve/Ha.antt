-- ===== src/Pve/Ha.antt =====
-- internal/pve/ha.go: node states from /cluster/ha/status/current.
pub mod Labels
pub mod Canonical
use pve_exporter.Base.{String, ◌<>◌, Bool, ◌||◌, not, List, [], ◌∷◌, ◌==◌, if◌then◌else◌}
use pve_exporter.Base.Dict.{Dict}
use pve_exporter.Base.Text.{trim_space, lower_eq}
use pve_exporter.Pve.Metrics.{SampleSet, metric_ha_state, ha_node_states}
use pve_exporter.Pve.Api.{HaStatusEntry}
use pve_exporter.Pve.Resources.{add_state_enum}
use pve_exporter.Pve.Client.{Remote, Fetch, Result, ok, err, get_optional, pure, ◌>>=◌}

abbrev ha_node_status_map : Dict String
ha_node_status_map =
    ("online", "online")
    ∷ ("maintenance", "maintenance")
    ∷ ("unknown", "unknown")
    ∷ ("fence", "fence")
    ∷ ("gone", "gone")
    ∷ []

-- The value of the key that the lowered text is, "" if it is none.
lookup_lower : String → Dict String → String
lookup_lower s [] = ""
lookup_lower s ((key, value) ∷ m) = if lower_eq s key then value else lookup_lower s m

unfoldable pub canonical_node_ha_state : String → String
unfolding lookup_lower
canonical_node_ha_state status = lookup_lower (trim_space status) ha_node_status_map

collect_ha_entry : SampleSet → HaStatusEntry → SampleSet
collect_ha_entry s e =
    let canonical = canonical_node_ha_state e.status in
    if not (e.type == "node") || e.node == ""
    then s
    else if canonical == ""
    then s
    else add_state_enum s metric_ha_state ("node/" <> e.node) canonical ha_node_states

unfoldable pub collect_ha_entries : SampleSet → List HaStatusEntry → SampleSet
unfolding collect_ha_entry
collect_ha_entries s [] = s
collect_ha_entries s (e ∷ entries) = collect_ha_entries (collect_ha_entry s e) entries

-- The samples of a reply; an error leaves the set as it is.
ha_samples : SampleSet → Result (List HaStatusEntry) → SampleSet
ha_samples s (ok entries) = collect_ha_entries s entries
ha_samples s (err e) = s

unfoldable pub collect_ha_status : Remote → SampleSet → Fetch SampleSet
unfolding ha_samples
collect_ha_status remote s = do
  entries ← get_optional remote remote.codec.ha_status [] "/cluster/ha/status/current"
  pure (ha_samples s entries)
