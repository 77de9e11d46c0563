-- ===== src/Pve/Resources/Values.antt =====
-- internal/pve/resources.go: the values of the rows of /cluster/resources, against a table.
use pve_exporter.Base.{
  String, ◌≡◌, refl, sym, ◌∙◌, Bool, true, false, ◌||◌, List, [], ◌∷◌, ◌++◌, append-nil,
  append_assoc, select-append, arith, ◌==◌, Bool-cases, inl, inr, if◌then◌else◌,
}
use pve_exporter.Base.Float.{Float64}
use pve_exporter.Pve.Metrics
use pve_exporter.Pve.Metrics.{Sample, SampleSet, Label, label, add, id_label}
use pve_exporter.Pve.Parse.{FlexFloat, bool_to_float}
use pve_exporter.Pve.Api.{ClusterResource}
use pve_exporter.Pve.Snapshot.Index.{named}
use pve_exporter.Pve.Resources.Labels.{collect_resource-Extends}
use pve_exporter.Pve.Resources.{
  add_flex, add_state_enum, usage, traffic, states, guest_info, collect_node_resource,
  collect_guest_resource, collect_storage_resource, collect_resource, collect_resources,
}

-- The numbers of a row that become samples.
pub data Field : Type 0 where
  cpu max_cpu mem max_mem disk max_disk uptime net_in net_out disk_read disk_write shared : Field

-- The metric of a number (docs/metrics.md).
abbrev pub metric_of : Field → String
metric_of cpu = "pve_cpu_usage_ratio"
metric_of max_cpu = "pve_cpu_usage_limit"
metric_of mem = "pve_memory_usage_bytes"
metric_of max_mem = "pve_memory_size_bytes"
metric_of disk = "pve_disk_usage_bytes"
metric_of max_disk = "pve_disk_size_bytes"
metric_of uptime = "pve_uptime_seconds"
metric_of net_in = "pve_network_receive_bytes_total"
metric_of net_out = "pve_network_transmit_bytes_total"
metric_of disk_read = "pve_disk_read_bytes_total"
metric_of disk_write = "pve_disk_written_bytes_total"
metric_of shared = "pve_storage_shared"

abbrev pub number_of : Field → ClusterResource → FlexFloat
number_of cpu r = r.cpu
number_of max_cpu r = r.max_cpu
number_of mem r = r.mem
number_of max_mem r = r.max_mem
number_of disk r = r.disk
number_of max_disk r = r.max_disk
number_of uptime r = r.uptime
number_of net_in r = r.net_in
number_of net_out r = r.net_out
number_of disk_read r = r.disk_read
number_of disk_write r = r.disk_write
number_of shared r = r.shared

abbrev of_node : Field → Bool
of_node net_in = false
of_node net_out = false
of_node disk_read = false
of_node disk_write = false
of_node shared = false
of_node _ = true

abbrev of_guest : Field → Bool
of_guest shared = false
of_guest _ = true

abbrev of_storage : Field → Bool
of_storage disk = true
of_storage max_disk = true
of_storage shared = true
of_storage _ = false

-- The rows that have a number, by their type.
abbrev pub has_number : Field → String → Bool
has_number f type =
    if type == "node"
    then of_node f
    else if type == "qemu" || type == "lxc"
    then of_guest f
    else if type == "storage"
    then of_storage f
    else false

abbrev pub value_sample : String → String → ClusterResource → Float64 → Sample
value_sample name cluster r value = record {
  name = name;
  labels = label "cluster" cluster ∷ id_label r.id ∷ [];
  value = value;
}

abbrev value_if : Bool → Field → String → ClusterResource → List Sample
value_if b f cluster r =
    if b
    then (if (number_of f r).valid
        then value_sample (metric_of f) cluster r (number_of f r).value ∷ []
        else [])
    else []

-- One sample for each row that has the number and reports it.
abbrev pub values : Field → String → List ClusterResource → List Sample
values f cluster [] = []
values f cluster (r ∷ rows) = value_if (has_number f r.type) f cluster r ++ values f cluster rows

cluster-add :
    (s : SampleSet) (n : String) (v : Float64) (ls : List Label)
    → (add s n v ls).cluster ≡ s.cluster
unfolding add
cluster-add s n v ls = refl

named-add :
    (m : String) (s : SampleSet) (n : String) (v : Float64) (ls : List Label)
    → named m (add s n v ls).out
      ≡ named m s.out
        ++ (if n == m
            then record { name = n; labels = label "cluster" s.cluster ∷ ls; value = v } ∷ []
            else [])
unfolding add
named-add m s n v ls = select-append (λ x. x.name == m) s.out _ ∙ ground arith

cluster-add_flex :
    (s : SampleSet) (n : String) (f : FlexFloat) (ls : List Label)
    → (add_flex s n f ls).cluster ≡ s.cluster
unfolding add_flex add
cluster-add_flex s n f ls = ground arith

named-add_flex :
    (m : String) (s : SampleSet) (n : String) (f : FlexFloat) (ls : List Label)
    → named m (add_flex s n f ls).out
      ≡ named m s.out
        ++ (if n == m
            then (if f.valid
                then record { name = n; labels = label "cluster" s.cluster ∷ ls; value = f.value }
                  ∷ []
                else [])
            else [])
unfolding add_flex
named-add_flex m s n f ls = ground (arith, named-add m s n f.value ls, append-nil (named m s.out))

ruleset value_rules = (named-add, named-add_flex, cluster-add, cluster-add_flex, append-nil)

named-collect_node_resource :
    (f : Field) (s : SampleSet) (r : ClusterResource)
    → named (metric_of f) (collect_node_resource s r).out
      ≡ named (metric_of f) s.out ++ value_if (of_node f) f s.cluster r
unfolding collect_node_resource usage
named-collect_node_resource cpu s r = simp value_rules
named-collect_node_resource _ s r = simp value_rules

named-add_state_enum :
    (m name id active : String) (all : List String) (s : SampleSet)
    → (name == m) ≡ false
    → named m (add_state_enum s name id active all).out ≡ named m s.out
unfolding add_state_enum
named-add_state_enum m name id active [] s h = refl
named-add_state_enum m name id active (st ∷ all) s h =
    named-add_state_enum m name id active all
      (add s name (bool_to_float (st == active)) (id_label id ∷ label "state" st ∷ [])) h
    ∙ named-add m s name _ _
    ∙ rw h (append-nil (named m s.out))

-- No number has the name of a state.
ha_state_apart : (f : Field) → (Metrics.metric_ha_state == metric_of f) ≡ false
ha_state_apart cpu = refl
ha_state_apart _ = refl

lock_state_apart : (f : Field) → (Metrics.metric_lock_state == metric_of f) ≡ false
lock_state_apart cpu = refl
lock_state_apart _ = refl

named-unless :
    (m : String) (b : Bool) (s t : SampleSet)
    → named m t.out ≡ named m s.out
    → named m (if b then s else t).out ≡ named m s.out
named-unless m true s t h = refl
named-unless m false s t h = h

named-states :
    (f : Field) (s : SampleSet) (r : ClusterResource)
    → named (metric_of f) (states s r).out ≡ named (metric_of f) s.out
unfolding states
named-states f s r =
    named-unless m (r.lock == "") _ _ (
      named-add_state_enum m Metrics.metric_lock_state r.id r.lock Metrics.lock_states _
        (lock_state_apart f))
    ∙ named-unless m (r.ha_state == "") s _ (
        named-add_state_enum m Metrics.metric_ha_state r.id r.ha_state Metrics.ha_guest_states s
          (ha_state_apart f))
  where
    m : String
    m = metric_of f

named-collect_guest_resource :
    (f : Field) (s : SampleSet) (r : ClusterResource)
    → named (metric_of f) (collect_guest_resource s r).out
      ≡ named (metric_of f) s.out ++ value_if (of_guest f) f s.cluster r
unfolding collect_guest_resource usage traffic guest_info
named-collect_guest_resource cpu s r = simp (value_rules, named-states cpu)
named-collect_guest_resource f s r = simp (value_rules, named-states f)

named-collect_storage_resource :
    (f : Field) (s : SampleSet) (r : ClusterResource)
    → named (metric_of f) (collect_storage_resource s r).out
      ≡ named (metric_of f) s.out ++ value_if (of_storage f) f s.cluster r
unfolding collect_storage_resource
named-collect_storage_resource cpu s r = simp value_rules
named-collect_storage_resource _ s r = simp value_rules

cluster-collect_resource :
    (s : SampleSet) (r : ClusterResource) → (collect_resource s r).cluster ≡ s.cluster
cluster-collect_resource s r = (collect_resource-Extends s r).cluster

named-collect_resource :
    (f : Field) (s : SampleSet) (r : ClusterResource)
    → named (metric_of f) (collect_resource s r).out
      ≡ named (metric_of f) s.out ++ value_if (has_number f r.type) f s.cluster r
unfolding collect_resource
named-collect_resource f s r = elim (Bool-cases (r.type == "node")) [
  | inl n ↦ rw n (named-collect_node_resource f s r)
  | inr n ↦ elim (Bool-cases (r.type == "qemu" || r.type == "lxc")) [
    | inl g ↦ rw (n, g) (named-collect_guest_resource f s r)
    | inr g ↦ elim (Bool-cases (r.type == "storage")) [
      | inl t ↦ rw (n, g, t) (named-collect_storage_resource f s r)
      | inr t ↦ rw (n, g, t) (sym (append-nil (named (metric_of f) s.out)))
    ]
  ]
]

-- The samples under the metric of a number are, in the order of the rows, one for each row of a
-- type that has the number and that reports it, under the row's id and with its value: a number
-- that is absent gives no sample, and no other row gives one.
pub named-collect_resources :
    (f : Field) (rows : List ClusterResource) (s : SampleSet)
    → named (metric_of f) (collect_resources s rows).out
      ≡ named (metric_of f) s.out ++ values f s.cluster rows
unfolding collect_resources
named-collect_resources f [] s = sym (append-nil (named (metric_of f) s.out))
named-collect_resources f (r ∷ rows) s =
    named-collect_resources f rows (collect_resource s r)
    ∙ rw (cluster-collect_resource s r, named-collect_resource f s r)
        (append_assoc (named (metric_of f) s.out) (value_if (has_number f r.type) f s.cluster r)
          (values f s.cluster rows))
