-- ===== src/Pve/Node/Independent.antt =====
-- internal/pve/node.go: the node collectors and the state of the client.
use pve_exporter.Base.{String, List, [], ◌∷◌}
use pve_exporter.Pve.Metrics.{SampleSet}
use pve_exporter.Pve.Api.{GuestRef, ReplicationJob}
use pve_exporter.Pve.Client.{Remote, Result, ok, err}
use pve_exporter.Pve.Client.Independent.{
  Independent, Independent-pure, Independent-bind, independent_rules,
}
use pve_exporter.Pve.Node.{
  collect_jobs, replication_samples, collect_replication, collect_subscription, onboot_of,
  onboot_guests, onboot_types, collect_onboot,
}

module _ (remote : Remote) (node : String) where
  collect_jobs-Independent :
      (jobs : List ReplicationJob) (s : SampleSet)
      → Independent remote (collect_jobs remote node jobs s)
  unfolding collect_jobs
  collect_jobs-Independent [] s = Independent-pure s
  collect_jobs-Independent (j ∷ jobs) s =
      Independent-bind _ _ (search independent_rules) (λ st. collect_jobs-Independent jobs _)

  replication_samples-Independent :
      (s : SampleSet) (r : Result (List ReplicationJob))
      → Independent remote (replication_samples remote node s r)
  unfolding replication_samples
  replication_samples-Independent s (err e) = search independent_rules
  replication_samples-Independent s (ok jobs) = search (independent_rules, collect_jobs-Independent)

  pub collect_replication-Independent :
      (s : SampleSet) → Independent remote (collect_replication remote node s)
  unfolding collect_replication
  collect_replication-Independent s = search (independent_rules, replication_samples-Independent)

  pub collect_subscription-Independent :
      (s : SampleSet) → Independent remote (collect_subscription remote node s)
  unfolding collect_subscription
  collect_subscription-Independent s = search independent_rules

  onboot_of-Independent :
      (typ : String) (g : GuestRef) (s : SampleSet)
      → Independent remote (onboot_of remote node typ g s)
  unfolding onboot_of
  onboot_of-Independent typ g s = search independent_rules

  onboot_guests-Independent :
      (typ : String) (guests : List GuestRef) (s : SampleSet)
      → Independent remote (onboot_guests remote node typ guests s)
  unfolding onboot_guests
  onboot_guests-Independent typ [] s = Independent-pure s
  onboot_guests-Independent typ (g ∷ guests) s =
      Independent-bind _ _ (onboot_of-Independent typ g s)
        (λ t. onboot_guests-Independent typ guests t)

  onboot_types-Independent :
      (types : List String) (s : SampleSet) → Independent remote (onboot_types remote node types s)
  unfolding onboot_types
  onboot_types-Independent [] s = Independent-pure _
  onboot_types-Independent (typ ∷ types) s = Independent-bind _ _ (search independent_rules) (elim [
    | err e ↦ Independent-pure _
    | ok refs ↦
        Independent-bind _ _ (onboot_guests-Independent typ refs s)
          (λ t. onboot_types-Independent types t)
  ])

  pub collect_onboot-Independent :
      (s : SampleSet) → Independent remote (collect_onboot remote node s)
  unfolding collect_onboot
  collect_onboot-Independent s = onboot_types-Independent ("qemu" ∷ "lxc" ∷ []) s
