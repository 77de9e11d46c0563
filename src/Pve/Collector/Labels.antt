-- ===== src/Pve/Collector/Labels.antt =====
-- internal/pve/collector.go: the labels of the samples of a poll.
use pve_exporter.Base.{
  String, refl, Bool, true, false, List, [], ◌∷◌, ◌++◌, All, All-append, if◌then◌else◌,
}
use pve_exporter.Base.Float.{Float64}
use pve_exporter.Models.Config.{CollectorToggles}
use pve_exporter.Pve.Metrics.{SampleSet, new_sample_set}
use pve_exporter.Pve.Metrics.Labels.{Conforms, Extends, Extends-refl, Extends-trans, Extends-empty}
use pve_exporter.Pve.Api.{
  ClusterResource, ClusterStatusEntry, VersionInfo, QdeviceConfig, NotBackedUpGuest,
}
use pve_exporter.Pve.Resources.{collect_resources}
use pve_exporter.Pve.Resources.Labels.{
  extends_rules, collect_resources-Extends, collect_status-Extends, collect_version-Extends,
  collect_qdevice-Extends, collect_not_backed_up-Extends,
}
use pve_exporter.Pve.Client.{Client, Remote, Fetch, Result, ok, err, ◌>>=◌}
use pve_exporter.Pve.Client.Returns.{
  Returns, Returns-weaken, Returns-pure, Returns-bind, Returns-then,
}
use pve_exporter.Pve.Ha.Labels.{collect_ha_status-Extends}
use pve_exporter.Pve.Node.{Outcome}
use pve_exporter.Pve.Node.Labels.{
  Grows, collect_replication-Extends, collect_subscription-Extends, collect_onboot-Extends,
}
use pve_exporter.Pve.Snapshot.{TargetSnapshot}
use pve_exporter.Pve.Collector.{
  Clock, when_enabled, logged, after_status, after_version, after_qdevice, after_backup_info,
  final_samples, collect_node, merge_nodes, collect_nodes, poll_qdevice, poll_backup_info,
  poll_optional, poll_up, poll_rows, collect_target,
}

pub after_status-Extends :
    (name : String) (s : SampleSet) (r : Result (List ClusterStatusEntry))
    → Extends s (after_status name s r).set
unfolding after_status
after_status-Extends name s (err e) = Extends-refl s
after_status-Extends name s (ok rows) = collect_status-Extends rows s

pub after_version-Extends : (s : SampleSet) (r : Result VersionInfo) → Extends s (after_version s r)
unfolding after_version
after_version-Extends s (err e) = Extends-refl s
after_version-Extends s (ok v) = collect_version-Extends s v

after_qdevice-Extends :
    (id : String) (s : SampleSet) (r : Result QdeviceConfig) → Extends s (after_qdevice id s r)
unfolding after_qdevice
after_qdevice-Extends id s (err e) = Extends-refl s
after_qdevice-Extends id s (ok q) = collect_qdevice-Extends s id q

after_backup_info-Extends :
    (id : String) (s : SampleSet) (r : Result (List NotBackedUpGuest))
    → Extends s (after_backup_info id s r)
unfolding after_backup_info
after_backup_info-Extends id s (err e) = Extends-refl s
after_backup_info-Extends id s (ok guests) = collect_not_backed_up-Extends s id guests

pub final_samples-Extends :
    (name : String) (up elapsed : Float64) (id : String) (errors : Float64) (s : SampleSet)
    → Extends s (final_samples name up elapsed id errors s)
unfolding final_samples
final_samples-Extends name up elapsed id errors s = search extends_rules depth 10

-- A step of the poll that extends the set that it is given.
abbrev Growing : (SampleSet → Fetch SampleSet) → Type 0
Growing f = (s : SampleSet) → Returns (Extends s) (f s)

when_enabled-Growing :
    (b : Bool) {f : SampleSet → Fetch SampleSet} → Growing f → Growing (when_enabled b f)
when_enabled-Growing true h s = h s
when_enabled-Growing false h s = Returns-pure s (Extends-refl s)

logged-Growing :
    {f : SampleSet → Fetch Outcome}
    → ((s : SampleSet) → Returns (Grows s) (f s))
    → Growing (logged f)
logged-Growing h s = Returns-then (Grows s) _ _ (h s) (λ o k. Returns-pure _ k)

then-Growing :
    {f : SampleSet → Fetch SampleSet} (g : SampleSet → Fetch SampleSet)
    → Growing f
    → Growing g
    → Growing (λ s. f s >>= g)
then-Growing g hf hg s =
    Returns-then (Extends s) _ _ (hf s)
      (λ t h. Returns-weaken (g t) (λ u k. Extends-trans h k) (hg t))

module _ (remote : Remote) (toggles : CollectorToggles) (name : String) where
  abbrev pub start : SampleSet
  start = new_sample_set name

  collect_node-Extends :
      (node : String) → Returns (Extends start) (collect_node remote toggles name node)
  unfolding collect_node
  collect_node-Extends node =
      then-Growing _
        (when_enabled-Growing _ (logged-Growing (collect_replication-Extends remote node)))
        (then-Growing _
          (when_enabled-Growing _ (logged-Growing (collect_subscription-Extends remote node)))
          (when_enabled-Growing _ (logged-Growing (collect_onboot-Extends remote node))))
        start

  -- What a goroutine appends conforms too, since it works for the same target.
  merge-Extends :
      (s local : SampleSet)
      → Extends start s
      → Extends start local
      → Extends start (record s { out = s.out ++ local.out })
  unfolding new_sample_set
  merge-Extends s local p q = record {
    more = s.out ++ local.out;
    cluster = p.cluster;
    out = refl;
    conform =
        All-append (Conforms name) s.out local.out (Extends-empty refl p) (Extends-empty refl q);
  }

  merge_nodes-Extends :
      (nodes : List String) (s : SampleSet)
      → Extends start s
      → Returns (Extends start) (merge_nodes remote toggles name nodes s)
  unfolding merge_nodes
  merge_nodes-Extends [] s h = Returns-pure s h
  merge_nodes-Extends (node ∷ nodes) s h =
      Returns-then (Extends start) _ _ (collect_node-Extends node)
        (λ local k. merge_nodes-Extends nodes _ (merge-Extends s local h k))

  Returns-if :
      (b : Bool) (m n : Fetch SampleSet)
      → Returns (Extends start) m
      → Returns (Extends start) n
      → Returns (Extends start) (if b then m else n)
  Returns-if true m n h k = h
  Returns-if false m n h k = k

  collect_nodes-Extends :
      (order : List String → List String) (nodes : List String) (s : SampleSet)
      → Extends start s
      → Returns (Extends start) (collect_nodes remote toggles name order nodes s)
  unfolding collect_nodes
  collect_nodes-Extends order [] s h = Returns-pure s h
  collect_nodes-Extends order (node ∷ nodes) s h =
      Returns-if _ _ _ (Returns-pure s h) (merge_nodes-Extends (order (node ∷ nodes)) s h)

  pub poll_optional-Extends :
      (order : List String → List String) (nodes : List String) (id : String) (s : SampleSet)
      → Extends start s
      → Returns (Extends start) (poll_optional remote toggles name order nodes id s)
  unfolding poll_optional
  poll_optional-Extends order nodes id s h =
      Returns-then (Extends s) _ _
        (when_enabled-Growing _ {f = poll_qdevice remote toggles name id} qdevice s)
        λ s₁ h₁.
          Returns-then (Extends s₁) _ _
            (when_enabled-Growing _ {f = poll_backup_info remote toggles name id} backup s₁)
            λ s₂ h₂.
              Returns-then (Extends s₂) _ _
                (when_enabled-Growing _ (collect_ha_status-Extends remote) s₂)
                λ s₃ h₃.
                  collect_nodes-Extends order nodes s₃
                    (Extends-trans (Extends-trans (Extends-trans h h₁) h₂) h₃)
    where
      qdevice : Growing (poll_qdevice remote toggles name id)
      qdevice t =
          unfold poll_qdevice in
          Returns-bind _ _ (λ r. Returns-pure _ (after_qdevice-Extends id t r))

      backup : Growing (poll_backup_info remote toggles name id)
      backup t =
          unfold poll_backup_info in
          Returns-bind _ _ (λ r. Returns-pure _ (after_backup_info-Extends id t r))

  abbrev Labelled : TargetSnapshot → Type 0
  Labelled t = All (Conforms name) t.samples

  start_labelled : {s : SampleSet} → Extends start s → All (Conforms name) s.out
  unfolding new_sample_set
  start_labelled h = Extends-empty refl h

  -- The samples of the three required calls.
  pub required-Extends :
      (rows : List ClusterResource) (status : Result (List ClusterStatusEntry))
      (ver : Result VersionInfo)
      → Extends start
          (after_version (after_status name (collect_resources start rows) status).set ver)
  required-Extends rows status ver =
      Extends-trans
        (Extends-trans (collect_resources-Extends rows start) (after_status-Extends name _ status))
        (after_version-Extends _ ver)

  poll_up-Labelled :
      (clock : Clock) (order : List String → List String) (rows : List ClusterResource)
      → Returns Labelled (poll_up remote toggles name clock order rows)
  unfolding poll_up
  poll_up-Labelled clock order rows = Returns-bind _ _ λ status. Returns-bind _ _ λ ver.
      Returns-then (Extends start) _ _
        (poll_optional-Extends order _ _ _ (required-Extends rows status ver))
        λ s h. Returns-bind _ _ λ errors.
          Returns-pure _ (start_labelled (Extends-trans h (final_samples-Extends name _ _ _ _ s)))

  poll_rows-Labelled :
      (clock : Clock) (order : List String → List String) (r : Result (List ClusterResource))
      → Returns Labelled (poll_rows remote toggles name clock order r)
  unfolding poll_rows
  poll_rows-Labelled clock order (err e) =
      Returns-bind _ _
        (λ errors. Returns-pure _ (start_labelled (final_samples-Extends name _ _ _ _ start)))
  poll_rows-Labelled clock order (ok rows) = poll_up-Labelled clock order rows

-- Whatever the API replies, in whatever order the nodes finish, and whether the poll succeeds or
-- is degraded, every sample of a target has the label "cluster" with the target's configured name
-- first, a metric name of the reference, and behind it exactly the label keys that the reference
-- gives for the metric, but for pve_subscription_status, which has "state" in the place of the
-- reference's "status".
pub collect_target-Conforms :
    (remote : Remote) (toggles : CollectorToggles) (name : String) (clock : Clock)
    (order : List String → List String) (c : Client)
    → All (Conforms name) (collect_target remote toggles name clock order c).0.samples
unfolding collect_target
collect_target-Conforms remote toggles name clock order =
    (Returns-bind {P = Labelled remote toggles name} _ _
      (poll_rows-Labelled remote toggles name clock order)).at
