-- ===== src/Pve/Collector/Degraded.antt =====
-- How the samples of a poll end, whether it succeeds or not.
use pve_exporter.Base.{String, ◌<>◌, ◌≡◌, refl, false, List, [], ◌∷◌, ◌++◌, append_assoc}
use pve_exporter.Base.Float.{Float64, of_int64}
use pve_exporter.Models.Config.{CollectorToggles}
use pve_exporter.Pve.Metrics
use pve_exporter.Pve.Metrics.{Sample, SampleSet, new_sample_set, add, label, id_label}
use pve_exporter.Pve.Parse.{bool_to_float}
use pve_exporter.Pve.Api.{ClusterResource, ClusterStatusEntry, VersionInfo}
use pve_exporter.Pve.Resources.{collect_resources}
use pve_exporter.Pve.Collector.Labels.{start, poll_optional-Extends, required-Extends}
use pve_exporter.Pve.Client.{Client, Remote, Result, ok, err, pure, ◌>>=◌}
use pve_exporter.Pve.Snapshot.{TargetSnapshot}
use pve_exporter.Pve.Collector.{
  Clock, final_samples, after_status, after_version, poll_optional, poll_up, poll_rows,
  collect_target,
}

-- A sample with the target's name and one id.
abbrev pub with_id : String → String → String → Float64 → Sample
with_id name cluster id value = record {
  name = name;
  labels = label "cluster" cluster ∷ id_label id ∷ [];
  value = value;
}

-- The three samples about the poll itself.
abbrev pub poll_samples : String → Clock → String → TargetSnapshot × Client → List Sample
poll_samples name clock cluster_id (t, c) =
    with_id Metrics.metric_up name cluster_id (bool_to_float t.up)
    ∷ with_id Metrics.metric_collection_duration name ("cluster/" <> name) clock.elapsed
    ∷ with_id Metrics.metric_request_errors name ("cluster/" <> name) (of_int64 c.request_errors)
    ∷ []

pub record EndsWithPoll (name : String) (clock : Clock) (r : TargetSnapshot × Client) : Type 0 where
  pub before : List Sample
  pub cluster_id : String
  pub samples : r.0.samples ≡ before ++ poll_samples name clock cluster_id r
  pub down : r.0.up ≡ false → (before ≡ []) × (cluster_id ≡ "cluster/" <> name)

out-final_samples :
    (name : String) (up elapsed : Float64) (id : String) (errors : Float64) (s : SampleSet)
    → s.cluster ≡ name
    → (final_samples name up elapsed id errors s).out
      ≡ s.out
        ++ with_id Metrics.metric_up name id up
          ∷ with_id Metrics.metric_collection_duration name ("cluster/" <> name) elapsed
          ∷ with_id Metrics.metric_request_errors name ("cluster/" <> name) errors
          ∷ []
unfolding final_samples add
out-final_samples name up elapsed id errors s e = simp (e, append_assoc)

module _ (remote : Remote) (toggles : CollectorToggles) (name : String) (clock : Clock)
    (order : List String → List String) where
  cluster-poll_optional :
      (rows : List ClusterResource) (status : Result (List ClusterStatusEntry))
      (ver : Result VersionInfo) (nodes : List String) (id : String) (c : Client)
      → (poll_optional remote toggles name order nodes id
          (after_version
            (after_status name (collect_resources (start remote toggles name) rows) status).set
            ver)
          c).0.cluster
        ≡ name
  unfolding new_sample_set
  cluster-poll_optional rows status ver nodes id c =
      ((poll_optional-Extends remote toggles name order nodes id _
          (required-Extends remote toggles name rows status ver)).at
        c).cluster

  poll_up-EndsWithPoll :
      (rows : List ClusterResource) (c : Client)
      → EndsWithPoll name clock (poll_up remote toggles name clock order rows c)
  unfolding poll_up ◌>>=◌ pure bool_to_float
  poll_up-EndsWithPoll rows c = record {
    before = _;
    cluster_id = _;
    samples = out-final_samples name _ _ _ _ _ (cluster-poll_optional rows _ _ _ _ _);
    down = λ h. cc;
  }

  -- The case split of `collectTarget` on the primary call.
  poll_rows-EndsWithPoll :
      (r : Result (List ClusterResource)) (c : Client)
      → EndsWithPoll name clock (poll_rows remote toggles name clock order r c)
  unfolding poll_rows ◌>>=◌ pure new_sample_set bool_to_float
  poll_rows-EndsWithPoll (err e) c = record {
    before = [];
    cluster_id = "cluster/" <> name;
    samples = out-final_samples name _ _ _ _ _ refl;
    down = λ h. (refl, refl);
  }
  poll_rows-EndsWithPoll (ok rows) c = poll_up-EndsWithPoll rows c

  -- Every poll, successful or degraded, ends with the same three samples: `pve_up` as the result
  -- says, the duration, and the error count as the client has it after the poll, the last two
  -- under the id made of the configured name. A degraded poll has no other sample, and its
  -- `pve_up` is under that id too.
  pub collect_target-EndsWithPoll :
      (c : Client) → EndsWithPoll name clock (collect_target remote toggles name clock order c)
  unfolding collect_target ◌>>=◌
  collect_target-EndsWithPoll c = poll_rows-EndsWithPoll _ _
