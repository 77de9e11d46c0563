-- ===== src/Pve/Resources.antt =====
-- internal/pve/resources.go: the rows of the cluster endpoints as samples.
pub mod Labels
pub mod Values
pub mod OneHot
use pve_exporter.Base.{
  String, ◌<>◌, not, ◌&&◌, none, some, List, [], ◌∷◌, length, ◌==◌, if◌then◌else◌, ◌||◌,
}
use pve_exporter.Base.Dict.{Dict, lookup}
use pve_exporter.Base.Float.{float_one, is_one, of_int64, format_int}
use pve_exporter.Pve.Metrics
use pve_exporter.Pve.Metrics.{SampleSet, Label, label, add, id_label}
use pve_exporter.Pve.Parse.{FlexFloat, bool_to_float}
use pve_exporter.Pve.Api.{
  ClusterResource, ClusterStatusEntry, VersionInfo, QdeviceConfig, NotBackedUpGuest,
}

unfoldable pub add_flex : SampleSet → String → FlexFloat → List Label → SampleSet
add_flex s name f labels = if f.valid then add s name f.value labels else s

unfoldable pub add_state_enum : SampleSet → String → String → String → List String → SampleSet
add_state_enum s name id active [] = s
add_state_enum s name id active (st ∷ states) =
    add_state_enum (add s name (bool_to_float (st == active)) (id_label id ∷ label "state" st ∷ []))
      name id active states

-- The seven samples that nodes and guests share.
usage : SampleSet → ClusterResource → SampleSet
usage s₀ r =
    let id = id_label r.id ∷ [] in
    let s₁ = add_flex s₀ Metrics.metric_cpu_ratio r.cpu id in
    let s₂ = add_flex s₁ Metrics.metric_cpu_limit r.max_cpu id in
    let s₃ = add_flex s₂ Metrics.metric_mem_size r.max_mem id in
    let s₄ = add_flex s₃ Metrics.metric_mem_usage r.mem id in
    let s₅ = add_flex s₄ Metrics.metric_disk_size r.max_disk id in
    let s₆ = add_flex s₅ Metrics.metric_disk_usage r.disk id in
    add_flex s₆ Metrics.metric_uptime r.uptime id

unfoldable pub collect_node_resource : SampleSet → ClusterResource → SampleSet
unfolding usage
collect_node_resource s r =
    usage (add s Metrics.metric_up (bool_to_float (r.status == "online")) (id_label r.id ∷ [])) r

-- The four counters of a guest.
traffic : SampleSet → ClusterResource → SampleSet
traffic s₀ r =
    let id = id_label r.id ∷ [] in
    let s₁ = add_flex s₀ Metrics.metric_net_rx_total r.net_in id in
    let s₂ = add_flex s₁ Metrics.metric_net_tx_total r.net_out id in
    let s₃ = add_flex s₂ Metrics.metric_disk_read_total r.disk_read id in
    add_flex s₃ Metrics.metric_disk_write_total r.disk_write id

-- The HA and lock states of a guest, where they are reported.
states : SampleSet → ClusterResource → SampleSet
states s₀ r =
    let s₁ =
      if r.ha_state == ""
      then s₀
      else add_state_enum s₀ Metrics.metric_ha_state r.id r.ha_state Metrics.ha_guest_states in
    if r.lock == ""
    then s₁
    else add_state_enum s₁ Metrics.metric_lock_state r.id r.lock Metrics.lock_states

abbrev template_text : FlexFloat → String
template_text f = if f.valid && is_one f.value then "1" else "0"

guest_info : SampleSet → ClusterResource → SampleSet
guest_info s r = add s Metrics.metric_guest_info float_one (
    id_label r.id
    ∷ label "node" r.node
    ∷ label "name" r.name
    ∷ label "type" r.type
    ∷ label "template" (template_text r.template)
    ∷ label "tags" r.tags
    ∷ [])

unfoldable pub collect_guest_resource : SampleSet → ClusterResource → SampleSet
unfolding usage traffic states guest_info
collect_guest_resource s₀ r =
    let s₁ =
      add s₀ Metrics.metric_up (bool_to_float (r.status == "running")) (id_label r.id ∷ []) in
    guest_info (states (traffic (usage s₁ r) r) r) r

unfoldable pub collect_storage_resource : SampleSet → ClusterResource → SampleSet
collect_storage_resource s₀ r =
    let id = id_label r.id in
    let s₁ = add s₀ Metrics.metric_up (bool_to_float (r.status == "available")) (id ∷ []) in
    let s₂ = add_flex s₁ Metrics.metric_disk_size r.max_disk (id ∷ []) in
    let s₃ = add_flex s₂ Metrics.metric_disk_usage r.disk (id ∷ []) in
    let s₄ = add_flex s₃ Metrics.metric_stor_share r.shared (id ∷ []) in
    add s₄ Metrics.metric_storage_info float_one (
      id
      ∷ label "node" r.node
      ∷ label "storage" r.storage
      ∷ label "plugintype" r.plugin_type
      ∷ label "content" r.content
      ∷ [])

-- The `switch` on the row's type.
unfoldable pub collect_resource : SampleSet → ClusterResource → SampleSet
collect_resource s r =
    if r.type == "node"
    then collect_node_resource s r
    else if r.type == "qemu" || r.type == "lxc"
    then collect_guest_resource s r
    else if r.type == "storage"
    then collect_storage_resource s r
    else s

unfoldable pub collect_resources : SampleSet → List ClusterResource → SampleSet
unfolding collect_resource
collect_resources s [] = s
collect_resources s (r ∷ rows) = collect_resources (collect_resource s r) rows

-- An absent number is the empty text.
unfoldable pub int_text : FlexFloat → String
int_text f = if f.valid then format_int f.value else ""

unfoldable pub collect_status_entry : SampleSet → ClusterStatusEntry → SampleSet
unfolding int_text
collect_status_entry s e =
    if e.type == "node"
    then add s Metrics.metric_node_info float_one (
        id_label e.id
        ∷ label "name" e.name
        ∷ label "level" e.level
        ∷ label "nodeid" (int_text e.node_id)
        ∷ [])
    else if e.type == "cluster"
    then add s Metrics.metric_cluster_info float_one (
        id_label e.id
        ∷ label "nodes" (int_text e.nodes)
        ∷ label "quorate" (int_text e.quorate)
        ∷ label "version" (int_text e.version)
        ∷ [])
    else s

unfoldable pub collect_status : SampleSet → List ClusterStatusEntry → SampleSet
unfolding collect_status_entry
collect_status s [] = s
collect_status s (e ∷ rows) = collect_status (collect_status_entry s e) rows

unfoldable pub collect_version : SampleSet → VersionInfo → SampleSet
collect_version s v =
    add s Metrics.metric_version_info float_one
      (label "release" v.release ∷ label "repoid" v.repo_id ∷ label "version" v.version ∷ [])

-- A key that a Go map lacks reads as the empty text.
text_at : String → Dict String → String
text_at k m = elim (lookup k m) [ none ↦ "" | some v ↦ v ]

unfoldable pub collect_qdevice : SampleSet → String → QdeviceConfig → SampleSet
unfolding text_at
collect_qdevice s cluster_id q =
    if q.model == ""
    then s
    else add (add s Metrics.metric_qdevice_up float_one (id_label cluster_id ∷ []))
        Metrics.metric_qdevice_info float_one
        (id_label cluster_id
          ∷ label "model" q.model
          ∷ label "host" (text_at "host" q.network)
          ∷ label "algorithm" (text_at "algorithm" q.network)
          ∷ [])

-- A row without a number or a type is skipped.
collect_guest_not_backed_up : SampleSet → NotBackedUpGuest → SampleSet
collect_guest_not_backed_up s g =
    if not g.vmid.valid || g.type == ""
    then s
    else add s Metrics.metric_not_backed_up_info float_one
        (id_label (g.type <> ("/" <> format_int g.vmid.value)) ∷ [])

unfoldable pub collect_guests_not_backed_up : SampleSet → List NotBackedUpGuest → SampleSet
unfolding collect_guest_not_backed_up
collect_guests_not_backed_up s [] = s
collect_guests_not_backed_up s (g ∷ guests) =
    collect_guests_not_backed_up (collect_guest_not_backed_up s g) guests

unfoldable pub collect_not_backed_up : SampleSet → String → List NotBackedUpGuest → SampleSet
unfolding collect_guests_not_backed_up
collect_not_backed_up s cluster_id guests =
    collect_guests_not_backed_up
      (add s Metrics.metric_not_backed_up_total (of_int64 (length guests))
        (id_label cluster_id ∷ []))
      guests
