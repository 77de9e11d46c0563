-- ===== src/Pve/Metrics/Labels.antt =====
-- The label keys of every metric (docs/metrics.md, docs/adr/0006-label-invariant.md), and the
-- relation by which the collectors extend a sample set.
use pve_exporter.Base.{
  String, ◌≡◌, refl, sym, ap, ◌∙◌, Option, none, some, List, [], ◌∷◌, ◌++◌, map, append-nil,
  append_assoc, All, All-append, ◌==◌, if◌then◌else◌,
}
use mathlib.Core.Path.{subst}
use pve_exporter.Base.Float.{Float64}
use pve_exporter.Pve.Metrics
use pve_exporter.Pve.Metrics.{Label, Sample, SampleSet, add, label}

abbrev pub find_keys : String → List (String × List String) → Option (List String)
find_keys name [] = none
find_keys name ((j, keys) ∷ rest) = if j == name then some keys else find_keys name rest

abbrev with_id : List String → List String
with_id keys = "id" ∷ keys

-- The label keys behind "cluster", in order, as docs/metrics.md lists them.
abbrev pub schema : List (String × List String)
schema =
    (Metrics.metric_up, with_id ([]))
    ∷ (Metrics.metric_disk_size, with_id ([]))
    ∷ (Metrics.metric_disk_usage, with_id ([]))
    ∷ (Metrics.metric_mem_size, with_id ([]))
    ∷ (Metrics.metric_mem_usage, with_id ([]))
    ∷ (Metrics.metric_cpu_ratio, with_id ([]))
    ∷ (Metrics.metric_cpu_limit, with_id ([]))
    ∷ (Metrics.metric_uptime, with_id ([]))
    ∷ (Metrics.metric_stor_share, with_id ([]))
    ∷ (Metrics.metric_ha_state, with_id ("state" ∷ []))
    ∷ (Metrics.metric_lock_state, with_id ("state" ∷ []))
    ∷ (Metrics.metric_net_rx_total, with_id ([]))
    ∷ (Metrics.metric_net_tx_total, with_id ([]))
    ∷ (Metrics.metric_disk_read_total, with_id ([]))
    ∷ (Metrics.metric_disk_write_total, with_id ([]))
    ∷ (Metrics.metric_guest_info, with_id ("node" ∷ "name" ∷ "type" ∷ "template" ∷ "tags" ∷ []))
    ∷ (Metrics.metric_storage_info, with_id ("node" ∷ "storage" ∷ "plugintype" ∷ "content" ∷ []))
    ∷ (Metrics.metric_node_info, with_id ("name" ∷ "level" ∷ "nodeid" ∷ []))
    ∷ (Metrics.metric_cluster_info, with_id ("nodes" ∷ "quorate" ∷ "version" ∷ []))
    ∷ (Metrics.metric_version_info, "release" ∷ "repoid" ∷ "version" ∷ [])
    ∷ (Metrics.metric_qdevice_up, with_id ([]))
    ∷ (Metrics.metric_qdevice_info, with_id ("model" ∷ "host" ∷ "algorithm" ∷ []))
    ∷ (Metrics.metric_sub_info, with_id ("level" ∷ []))
    ∷ (Metrics.metric_sub_status, with_id ("status" ∷ []))
    ∷ (Metrics.metric_sub_next_due, with_id ([]))
    ∷ (Metrics.metric_onboot, with_id ("node" ∷ "type" ∷ []))
    ∷ (Metrics.metric_not_backed_up_total, with_id ([]))
    ∷ (Metrics.metric_not_backed_up_info, with_id ([]))
    ∷ (Metrics.metric_repl_info, with_id ("guest" ∷ "source" ∷ "target" ∷ "type" ∷ []))
    ∷ (Metrics.metric_repl_duration, with_id ([]))
    ∷ (Metrics.metric_repl_last_sync, with_id ([]))
    ∷ (Metrics.metric_repl_last_try, with_id ([]))
    ∷ (Metrics.metric_repl_next_sync, with_id ([]))
    ∷ (Metrics.metric_repl_failed, with_id ([]))
    ∷ (Metrics.metric_collection_duration, with_id ([]))
    ∷ (Metrics.metric_request_errors, with_id ([]))
    ∷ []

-- The keys that the code emits: those of the reference, but for pve_subscription_status, whose
-- last key is "state" in the code and "status" in the reference.
abbrev pub label_keys : String → Option (List String)
label_keys name =
    if name == Metrics.metric_sub_status
    then some (with_id ("state" ∷ []))
    else find_keys name schema

abbrev pub keys : List Label → List String
keys = map (λ l. l.name)

-- The first label names the target, and the keys behind it are those of the metric.
pub record Conforms (cluster : String) (s : Sample) : Type 0 where
  pub rest : List Label
  pub first : s.labels ≡ label "cluster" cluster ∷ rest
  pub known : label_keys s.name ≡ some (keys rest)

-- `t` is `s` with further samples behind its own, and each of those conforms.
pub record Extends (s t : SampleSet) : Type 0 where
  pub more : List Sample
  pub cluster : t.cluster ≡ s.cluster
  pub out : t.out ≡ s.out ++ more
  pub conform : All (Conforms s.cluster) more

pub Extends-refl : (s : SampleSet) → Extends s s
Extends-refl s = record { more = []; cluster = refl; out = sym (append-nil s.out); conform = tt }

pub Extends-trans : {s t u : SampleSet} → Extends s t → Extends t u → Extends s u
Extends-trans {s} {t} {u} p q = record {
  more = p.more ++ q.more;
  cluster = q.cluster ∙ p.cluster;
  out = q.out ∙ ap (λ l. l ++ q.more) p.out ∙ append_assoc s.out p.more q.more;
  conform =
      All-append (Conforms s.cluster) p.more q.more p.conform
        (subst (λ c. All (Conforms c) q.more) p.cluster q.conform);
}

Extends-add_one :
    (t : SampleSet) (name : String) (v : Float64) (labels : List Label)
    → label_keys name ≡ some (keys labels)
    → Extends t (add t name v labels)
unfolding add
Extends-add_one t name v labels h = record {
  more = record { name = name; labels = label "cluster" t.cluster ∷ labels; value = v } ∷ [];
  cluster = refl;
  out = refl;
  conform = (record { rest = labels; first = refl; known = h }, tt);
}

pub Extends-add :
    {s t : SampleSet} (name : String) (v : Float64) (labels : List Label)
    → label_keys name ≡ some (keys labels)
    → Extends s t
    → Extends s (add t name v labels)
Extends-add {s} {t} name v labels h e = Extends-trans e (Extends-add_one t name v labels h)

-- A set that extends an empty one holds conforming samples only.
pub Extends-empty : {s t : SampleSet} → s.out ≡ [] → Extends s t → All (Conforms s.cluster) t.out
Extends-empty {s} {t} none_yet e =
    subst (All (Conforms s.cluster)) (sym (e.out ∙ ap (λ l. l ++ e.more) none_yet)) e.conform
