-- ===== src/Pve/Collector/Order.antt =====
-- internal/pve/collector.go: a poll under different finishing orders of its nodes.
use mathlib.Core.List.{Perm}
use mathlib.Core.List.Perm
use pve_exporter.Base.{
  String, ◌≡◌, refl, Bool, true, false, not, ◌&&◌, List, [], ◌∷◌, if◌then◌else◌,
}
use pve_exporter.Base.Float.{Float64}
use pve_exporter.Models.Config.{
  CollectorToggles, replication_enabled, subscription_enabled, onboot_enabled,
}
use pve_exporter.Pve.Metrics.{SampleSet, add}
use pve_exporter.Pve.Api.{ClusterResource}
use pve_exporter.Pve.Client.{Client, Remote, Fetch, Result, ok, err, pure, ◌>>=◌}
use pve_exporter.Pve.Snapshot.{TargetSnapshot}
use pve_exporter.Pve.Collector.{
  Clock, collect_nodes, final_samples, poll_optional, poll_up, poll_rows, collect_target,
}
use pve_exporter.Pve.Collector.Nodes.{merge_nodes-order}

-- The same samples in some order, for the same target and client.
record Agrees (x y : SampleSet × Client) : Type 0 where
  cluster : x.0.cluster ≡ y.0.cluster
  out : Perm x.0.out y.0.out
  client : x.1 ≡ y.1

-- Two results of a poll with the same samples in some order, and all else the same.
pub record SamePoll (x y : TargetSnapshot × Client) : Type 0 where
  pub cluster : x.0.cluster ≡ y.0.cluster
  pub up : x.0.up ≡ y.0.up
  pub scrape_error : x.0.scrape_error ≡ y.0.scrape_error
  pub last_scrape : x.0.last_scrape ≡ y.0.last_scrape
  pub samples : Perm x.0.samples y.0.samples
  pub client : x.1 ≡ y.1

if-Agrees :
    (b : Bool) (m n n' : Fetch SampleSet) (c : Client)
    → Agrees (n c) (n' c)
    → Agrees ((if b then m else n) c) ((if b then m else n') c)
if-Agrees true m n n' c h = record { cluster = refl; out = Perm.refl _; client = refl }
if-Agrees false m n n' c h = h

final_samples-perm :
    (name : String) (up elapsed : Float64) (id : String) (errors : Float64) (s t : SampleSet)
    → s.cluster ≡ t.cluster
    → Perm s.out t.out
    → Perm
        (final_samples name up elapsed id errors s).out
        (final_samples name up elapsed id errors t).out
unfolding final_samples add
final_samples-perm name up elapsed id errors s t e p =
    rw e (Perm.append_right _ (Perm.append_right _ (Perm.append_right _ p)))

module _ (remote : Remote) (toggles : CollectorToggles) (name : String) (clock : Clock)
    (order : List String → List String) (h : (nodes : List String) → Perm (order nodes) nodes) where
  abbrev as_given : List String → List String
  as_given nodes = nodes

  collect_nodes-Agrees :
      (nodes : List String) (s : SampleSet) (c : Client)
      → Agrees
          (collect_nodes remote toggles name order nodes s c)
          (collect_nodes remote toggles name as_given nodes s c)
  unfolding collect_nodes
  collect_nodes-Agrees [] s c = record { cluster = refl; out = Perm.refl _; client = refl }
  collect_nodes-Agrees (node ∷ nodes) s c =
      if-Agrees
        (not (replication_enabled toggles)
          && not (subscription_enabled toggles)
          && not (onboot_enabled toggles))
        _ _ _ c
        (let (cluster, out, client) =
            merge_nodes-order remote toggles name (order (node ∷ nodes)) (node ∷ nodes) s c (h _) in
          record { cluster = cluster; out = out; client = client })

  poll_up-SamePoll :
      (rows : List ClusterResource) (c : Client)
      → SamePoll
          (poll_up remote toggles name clock order rows c)
          (poll_up remote toggles name clock as_given rows c)
  unfolding poll_up poll_optional ◌>>=◌ pure
  poll_up-SamePoll rows c =
      let a = collect_nodes-Agrees _ _ _ in
      record {
        cluster = refl;
        up = refl;
        scrape_error = refl;
        last_scrape = refl;
        samples = rw a.client (final_samples-perm name _ _ _ _ _ _ a.cluster a.out);
        client = a.client;
      }

  poll_rows-SamePoll :
      (r : Result (List ClusterResource)) (c : Client)
      → SamePoll
          (poll_rows remote toggles name clock order r c)
          (poll_rows remote toggles name clock as_given r c)
  unfolding poll_rows
  poll_rows-SamePoll (err e) c = record {
    cluster = refl;
    up = refl;
    scrape_error = refl;
    last_scrape = refl;
    samples = Perm.refl _;
    client = refl;
  }
  poll_rows-SamePoll (ok rows) c = poll_up-SamePoll rows c

  -- In whatever order the goroutines of the nodes finish, a poll gives the same result as with the
  -- nodes polled one after the other: the same samples in some order, the same client, and all
  -- else the same.
  pub collect_target-SamePoll :
      (c : Client)
      → SamePoll
          (collect_target remote toggles name clock order c)
          (collect_target remote toggles name clock (λ nodes. nodes) c)
  unfolding collect_target ◌>>=◌
  collect_target-SamePoll c = poll_rows-SamePoll _ _
