-- ===== src/Pve/Resources/Labels.antt =====
-- internal/pve/resources.go: the collectors and the label keys of their samples.
use pve_exporter.Base.{String, ◌≡◌, Bool, true, false, some, List, [], ◌∷◌, ◌==◌, if◌then◌else◌}
use pve_exporter.Pve.Metrics.{SampleSet, Label, label, add, id_label}
use pve_exporter.Pve.Metrics.Labels.{
  label_keys, keys, Extends, Extends-refl, Extends-trans, Extends-add,
}
use pve_exporter.Pve.Parse.{FlexFloat, bool_to_float}
use pve_exporter.Pve.Api.{
  ClusterResource, ClusterStatusEntry, VersionInfo, QdeviceConfig, NotBackedUpGuest,
}
use pve_exporter.Pve.Resources.{
  add_flex, add_state_enum, usage, traffic, states, guest_info, collect_node_resource,
  collect_guest_resource, collect_storage_resource, collect_resource, collect_resources,
  collect_status_entry, collect_status, collect_version, collect_qdevice,
  collect_guest_not_backed_up, collect_guests_not_backed_up, collect_not_backed_up,
}

pub Extends-add_flex :
    {s t : SampleSet} (name : String) (f : FlexFloat) (labels : List Label)
    → label_keys name ≡ some (keys labels)
    → Extends s t
    → Extends s (add_flex t name f labels)
unfolding add_flex
Extends-add_flex {s} {t} name f labels h e = go f.valid
  where
    go : (b : Bool) → Extends s (if b then add t name f.value labels else t)
    go true = Extends-add name f.value labels h e
    go false = e

pub Extends-if :
    {s t u : SampleSet} (b : Bool) → Extends s t → Extends s u → Extends s (if b then t else u)
Extends-if true p q = p
Extends-if false p q = q

pub Extends-add_state_enum :
    {s : SampleSet} (t : SampleSet) (name id active : String) (all : List String)
    → label_keys name ≡ some ("id" ∷ "state" ∷ [])
    → Extends s t
    → Extends s (add_state_enum t name id active all)
unfolding add_state_enum
Extends-add_state_enum t name id active [] h e = e
Extends-add_state_enum t name id active (st ∷ rest) h e =
    Extends-add_state_enum
      (add t name (bool_to_float (st == active)) (id_label id ∷ label "state" st ∷ [])) name id
      active rest h (Extends-add name _ _ h e)

pub ruleset extends_rules =
    (Extends-refl, Extends-add, Extends-add_flex, Extends-if, Extends-add_state_enum)

usage-Extends : (s : SampleSet) (r : ClusterResource) → Extends s (usage s r)
unfolding usage
usage-Extends s r = search extends_rules depth 20

traffic-Extends : (s : SampleSet) (r : ClusterResource) → Extends s (traffic s r)
unfolding traffic
traffic-Extends s r = search extends_rules depth 20

states-Extends : (s : SampleSet) (r : ClusterResource) → Extends s (states s r)
unfolding states
states-Extends s r = search extends_rules depth 20

guest_info-Extends : (s : SampleSet) (r : ClusterResource) → Extends s (guest_info s r)
unfolding guest_info
guest_info-Extends s r = search extends_rules

storage-Extends : (s : SampleSet) (r : ClusterResource) → Extends s (collect_storage_resource s r)
unfolding collect_storage_resource
storage-Extends s r = search extends_rules depth 20

node-Extends : (s : SampleSet) (r : ClusterResource) → Extends s (collect_node_resource s r)
unfolding collect_node_resource
node-Extends s r = Extends-trans (search extends_rules) (usage-Extends _ r)

guest-Extends : (s : SampleSet) (r : ClusterResource) → Extends s (collect_guest_resource s r)
unfolding collect_guest_resource
guest-Extends s r =
    Extends-trans
      (Extends-trans
        (Extends-trans (Extends-trans (search extends_rules) (usage-Extends _ r))
          (traffic-Extends _ r))
        (states-Extends _ r))
      (guest_info-Extends _ r)

pub collect_resource-Extends :
    (s : SampleSet) (r : ClusterResource) → Extends s (collect_resource s r)
unfolding collect_resource
collect_resource-Extends s r = search (extends_rules, node-Extends, guest-Extends, storage-Extends)

pub collect_resources-Extends :
    (rows : List ClusterResource) (s : SampleSet) → Extends s (collect_resources s rows)
unfolding collect_resources
collect_resources-Extends [] s = Extends-refl s
collect_resources-Extends (r ∷ rows) s =
    Extends-trans (collect_resource-Extends s r) (collect_resources-Extends rows _)

entry-Extends : (s : SampleSet) (e : ClusterStatusEntry) → Extends s (collect_status_entry s e)
unfolding collect_status_entry
entry-Extends s e = search extends_rules

pub collect_status-Extends :
    (rows : List ClusterStatusEntry) (s : SampleSet) → Extends s (collect_status s rows)
unfolding collect_status
collect_status-Extends [] s = Extends-refl s
collect_status-Extends (e ∷ rows) s =
    Extends-trans (entry-Extends s e) (collect_status-Extends rows _)

pub collect_version-Extends : (s : SampleSet) (v : VersionInfo) → Extends s (collect_version s v)
unfolding collect_version
collect_version-Extends s v = search extends_rules

pub collect_qdevice-Extends :
    (s : SampleSet) (cluster_id : String) (q : QdeviceConfig)
    → Extends s (collect_qdevice s cluster_id q)
unfolding collect_qdevice
collect_qdevice-Extends s cluster_id q = search extends_rules

guests-Extends :
    (guests : List NotBackedUpGuest) (s : SampleSet)
    → Extends s (collect_guests_not_backed_up s guests)
unfolding collect_guests_not_backed_up collect_guest_not_backed_up
guests-Extends [] s = Extends-refl s
guests-Extends (g ∷ guests) s = Extends-trans (search extends_rules) (guests-Extends guests _)

pub collect_not_backed_up-Extends :
    (s : SampleSet) (cluster_id : String) (guests : List NotBackedUpGuest)
    → Extends s (collect_not_backed_up s cluster_id guests)
unfolding collect_not_backed_up
collect_not_backed_up-Extends s cluster_id guests =
    Extends-trans (search extends_rules) (guests-Extends guests _)
