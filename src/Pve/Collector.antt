-- ===== src/Pve/Collector.antt =====
-- internal/pve/collector.go: one cycle over the targets.
-- What the environment decides enters as arguments: the replies (`Remote`), the clock, and the
-- order in which the goroutines of a target's nodes finish. A cycle sees one reply for each path.
pub mod Labels
pub mod Degraded
pub mod Cycle
pub mod Shared
pub mod Nodes
pub mod Tally
pub mod Order
use pve_exporter.Base.{
  ℕ, String, ◌<>◌, Bool, not, ◌&&◌, ◌||◌, Option, none, some, List, [], ◌∷◌, ◌++◌, map, ◌==◌,
  if◌then◌else◌, true, false,
}
use pve_exporter.Base.Float.{Float64, float_zero, float_one, of_int64}
use pve_exporter.Base.Int.{ℤ, is_positive}
use pve_exporter.Models.Config.{
  ClusterConfig, CollectorToggles, onboot_enabled, replication_enabled, subscription_enabled,
  backup_info_enabled, qdevice_enabled, ha_status_enabled,
}
use pve_exporter.Pve.Metrics
use pve_exporter.Pve.Metrics.{SampleSet, new_sample_set, add, id_label}
use pve_exporter.Pve.Api.{
  ClusterResource, ClusterStatusEntry, VersionInfo, QdeviceConfig, NotBackedUpGuest,
}
use pve_exporter.Pve.Resources.{
  collect_resources, collect_status, collect_version, collect_qdevice, collect_not_backed_up,
}
use pve_exporter.Pve.Client.{
  Client, Remote, Fetch, FetchError, Result, ok, err, message, get, get_optional, pure, ◌>>=◌,
}
use pve_exporter.Pve.Ha.{collect_ha_status}
use pve_exporter.Pve.Node.{Outcome, done, collect_replication, collect_subscription, collect_onboot}
use pve_exporter.Pve.Snapshot.{TargetSnapshot, Snapshot, SnapshotStore, build_snapshot, store}

-- time.Now() at the start of a target's poll, and the seconds since then when it is measured
pub record Clock : Type 0 where
  pub start : ℕ
  pub elapsed : Float64

-- A target's config with its client.
pub record Target : Type 0 where
  pub cfg : ClusterConfig
  pub client : Client

-- `nodeNames`
unfoldable pub node_names : List ClusterResource → List String
node_names [] = []
node_names (r ∷ rows) =
    if r.type == "node" && not (r.node == "") then r.node ∷ node_names rows else node_names rows

-- `clusterNameFromStatus`
unfoldable pub cluster_name_from_status : List ClusterStatusEntry → String
cluster_name_from_status [] = ""
cluster_name_from_status (e ∷ rows) =
    let later = cluster_name_from_status rows in if e.type == "cluster" then e.name else later

-- client.RequestErrors(), as the sample's value
abbrev pub request_errors : Fetch Float64
request_errors c = (of_int64 c.request_errors, c)

-- An optional collector: the set that it leaves where it runs.
abbrev when_enabled : Bool → (SampleSet → Fetch SampleSet) → SampleSet → Fetch SampleSet
when_enabled enabled f s = if enabled then f s else pure s

-- A node collector writes into the local set; its error is logged.
abbrev logged : (SampleSet → Fetch Outcome) → SampleSet → Fetch SampleSet
logged f s = do o ← f s; pure o.set

-- The samples so far and the resolved id of the cluster.
pub record Progress : Type 0 where
  pub set : SampleSet
  pub cluster_id : String

pub after_status : String → SampleSet → Result (List ClusterStatusEntry) → Progress
after_status name s (err e) = record { set = s; cluster_id = "cluster/" <> name }
after_status name s (ok rows) = record {
  set = collect_status s rows;
  cluster_id =
      let cn = cluster_name_from_status rows in "cluster/" <> (if cn == "" then name else cn);
}

pub after_version : SampleSet → Result VersionInfo → SampleSet
after_version s (err e) = s
after_version s (ok v) = collect_version s v

after_qdevice : String → SampleSet → Result QdeviceConfig → SampleSet
after_qdevice cluster_id s (err e) = s
after_qdevice cluster_id s (ok q) = collect_qdevice s cluster_id q

after_backup_info : String → SampleSet → Result (List NotBackedUpGuest) → SampleSet
after_backup_info cluster_id s (err e) = s
after_backup_info cluster_id s (ok guests) = collect_not_backed_up s cluster_id guests

abbrev no_version : VersionInfo
no_version = record { release = ""; repo_id = ""; version = "" }

abbrev no_qdevice : QdeviceConfig
no_qdevice = record { model = ""; network = [] }

-- The samples that every poll ends with.
pub final_samples : String → Float64 → Float64 → String → Float64 → SampleSet → SampleSet
final_samples name up elapsed cluster_id errors s₀ =
    let self_id = id_label ("cluster/" <> name) ∷ [] in
    let s₁ = add s₀ Metrics.metric_up up (id_label cluster_id ∷ []) in
    let s₂ = add s₁ Metrics.metric_collection_duration elapsed self_id in
    add s₂ Metrics.metric_request_errors errors self_id

degraded : String → Clock → FetchError → Float64 → TargetSnapshot
unfolding final_samples
degraded name clock e errors = record {
  cluster = name;
  up = false;
  scrape_error = message e;
  last_scrape = clock.start;
  samples =
      (final_samples name float_zero clock.elapsed ("cluster/" <> name) errors
        (new_sample_set name)).out;
}

module _ (remote : Remote) (toggles : CollectorToggles) (name : String) where
  -- The goroutine of one node.
  unfoldable pub collect_node : String → Fetch SampleSet
  collect_node node = do
    s₁ ←
        when_enabled (replication_enabled toggles) (logged (collect_replication remote node))
          (new_sample_set name)
    s₂ ← when_enabled (subscription_enabled toggles) (logged (collect_subscription remote node)) s₁
    when_enabled (onboot_enabled toggles) (logged (collect_onboot remote node)) s₂

  -- The goroutines that finish in this order, each appending its samples under the lock.
  unfoldable pub merge_nodes : List String → SampleSet → Fetch SampleSet
  merge_nodes [] s = pure s
  merge_nodes (node ∷ nodes) s = do
    local ← collect_node node
    merge_nodes nodes (record s { out = s.out ++ local.out })

  -- `collectNodes`
  unfoldable pub collect_nodes :
      (List String → List String) → List String → SampleSet → Fetch SampleSet
  unfolding merge_nodes
  collect_nodes order [] s = pure s
  collect_nodes order (node ∷ nodes) s =
      if not (replication_enabled toggles)
        && not (subscription_enabled toggles)
        && not (onboot_enabled toggles)
      then pure s
      else merge_nodes (order (node ∷ nodes)) s

  poll_qdevice : String → SampleSet → Fetch SampleSet
  unfolding after_qdevice
  poll_qdevice cluster_id s = do
    q ← get_optional remote remote.codec.qdevice no_qdevice "/cluster/config/qdevice"
    pure (after_qdevice cluster_id s q)

  poll_backup_info : String → SampleSet → Fetch SampleSet
  unfolding after_backup_info
  poll_backup_info cluster_id s = do
    guests ← get_optional remote remote.codec.not_backed_up [] "/cluster/backup-info/not-backed-up"
    pure (after_backup_info cluster_id s guests)

  -- The optional collectors of the cluster and of its nodes.
  pub poll_optional :
      (List String → List String) → List String → String → SampleSet → Fetch SampleSet
  unfolding poll_qdevice poll_backup_info
  poll_optional order nodes cluster_id s = do
    s₁ ← when_enabled (qdevice_enabled toggles) (poll_qdevice cluster_id) s
    s₂ ← when_enabled (backup_info_enabled toggles) (poll_backup_info cluster_id) s₁
    s₃ ← when_enabled (ha_status_enabled toggles) (collect_ha_status remote) s₂
    collect_nodes order nodes s₃

  -- The rest of a poll whose primary call succeeds.
  poll_up : Clock → (List String → List String) → List ClusterResource → Fetch TargetSnapshot
  unfolding after_status after_version poll_optional final_samples
  poll_up clock order rows = do
    status ← get remote remote.codec.statuses [] "/cluster/status"
    let p = after_status name (collect_resources (new_sample_set name) rows) status
    ver ← get remote remote.codec.version no_version "/version"
    s ← poll_optional order (node_names rows) p.cluster_id (after_version p.set ver)
    errors ← request_errors
    pure (record {
      cluster = name;
      up = true;
      scrape_error = "";
      last_scrape = clock.start;
      samples = (final_samples name float_one clock.elapsed p.cluster_id errors s).out;
    })

  poll_rows :
      Clock → (List String → List String) → Result (List ClusterResource) → Fetch TargetSnapshot
  unfolding poll_up degraded
  poll_rows clock order (err e) = do errors ← request_errors; pure (degraded name clock e errors)
  poll_rows clock order (ok rows) = poll_up clock order rows

  -- `collectTarget`
  unfoldable pub collect_target : Clock → (List String → List String) → Fetch TargetSnapshot
  unfolding poll_rows
  collect_target clock order = do
    rows ← get remote remote.codec.resources [] "/cluster/resources"
    poll_rows clock order rows
