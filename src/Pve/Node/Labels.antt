-- ===== src/Pve/Node/Labels.antt =====
-- internal/pve/node.go: the collectors and the label keys of their samples.
use pve_exporter.Base.{
  String, not, none, some, Option, List, [], ◌∷◌, true, false, Bool, if◌then◌else◌,
}
use pve_exporter.Base.Float.{Float64, format_int}
use pve_exporter.Pve.Metrics.{SampleSet}
use pve_exporter.Pve.Metrics.Labels.{Extends, Extends-refl, Extends-trans}
use pve_exporter.Pve.Parse.{parse_due_date}
use pve_exporter.Pve.Api.{
  SubscriptionInfo, GuestRef, GuestConfig, ReplicationJob, ReplicationStatus,
}
use pve_exporter.Pve.Resources.Labels.{extends_rules}
use pve_exporter.Pve.Client.{Remote, Fetch, Result, ok, err}
use pve_exporter.Pve.Client.Returns.{Returns, Returns-pure, Returns-bind, Returns-then}
use pve_exporter.Pve.Node.{
  Outcome, add_job, add_status, collect_jobs, replication_samples, collect_replication, add_due,
  add_subscription, subscription_samples, collect_subscription, add_onboot, onboot_of,
  onboot_guests, onboot_types, collect_onboot,
}

abbrev pub Grows : SampleSet → Outcome → Type 0
Grows s o = Extends s o.set

add_job-Extends : (s : SampleSet) (j : ReplicationJob) → Extends s (add_job s j)
unfolding add_job
add_job-Extends s j = search extends_rules

add_status-Extends :
    (s : SampleSet) (j : ReplicationJob) (r : Result ReplicationStatus)
    → Extends s (add_status s j r)
unfolding add_status
add_status-Extends s j (err e) = Extends-refl s
add_status-Extends s j (ok st) = search extends_rules depth 20

collect_jobs-Extends :
    (remote : Remote) (node : String) (jobs : List ReplicationJob) (s t : SampleSet)
    → Extends s t
    → Returns (Extends s) (collect_jobs remote node jobs t)
unfolding collect_jobs
collect_jobs-Extends remote node [] s t h = Returns-pure t h
collect_jobs-Extends remote node (j ∷ jobs) s t h = Returns-bind _ _ λ st.
    collect_jobs-Extends remote node jobs s _
      (Extends-trans (Extends-trans h (add_job-Extends t j)) (add_status-Extends _ j st))

replication_samples-Extends :
    (remote : Remote) (node : String) (s : SampleSet) (r : Result (List ReplicationJob))
    → Returns (Grows s) (replication_samples remote node s r)
unfolding replication_samples
replication_samples-Extends remote node s (err e) = Returns-pure _ (Extends-refl s)
replication_samples-Extends remote node s (ok jobs) =
    Returns-then (Extends s) _ _ (collect_jobs-Extends remote node jobs s s (Extends-refl s))
      (λ t h. Returns-pure _ h)

pub collect_replication-Extends :
    (remote : Remote) (node : String) (s : SampleSet)
    → Returns (Grows s) (collect_replication remote node s)
unfolding collect_replication
collect_replication-Extends remote node s =
    Returns-bind _ _ (replication_samples-Extends remote node s)

add_due-Extends :
    (s : SampleSet) (node : String) (due : Option Float64) → Extends s (add_due s node due)
unfolding add_due
add_due-Extends s node none = Extends-refl s
add_due-Extends s node (some ts) = search extends_rules

add_subscription-Extends :
    (s : SampleSet) (node : String) (sub : SubscriptionInfo)
    → Extends s (add_subscription s node sub)
unfolding add_subscription
add_subscription-Extends s node sub =
    Extends-trans (search extends_rules) (add_due-Extends _ node (parse_due_date sub.next_due_date))

subscription_samples-Extends :
    (node : String) (s : SampleSet) (r : Result SubscriptionInfo)
    → Grows s (subscription_samples node s r)
unfolding subscription_samples
subscription_samples-Extends node s (err e) = Extends-refl s
subscription_samples-Extends node s (ok sub) = add_subscription-Extends s node sub

pub collect_subscription-Extends :
    (remote : Remote) (node : String) (s : SampleSet)
    → Returns (Grows s) (collect_subscription remote node s)
unfolding collect_subscription
collect_subscription-Extends remote node s =
    Returns-bind _ _ (λ r. Returns-pure _ (subscription_samples-Extends node s r))

add_onboot-Extends :
    (s : SampleSet) (node typ vmid : String) (r : Result GuestConfig)
    → Extends s (add_onboot s node typ vmid r)
unfolding add_onboot
add_onboot-Extends s node typ vmid (err e) = Extends-refl s
add_onboot-Extends s node typ vmid (ok cfg) = search extends_rules

Returns-if :
    {A : Type 0} {P : A → Type 0} (b : Bool) (m n : Fetch A)
    → Returns P m
    → Returns P n
    → Returns P (if b then m else n)
Returns-if true m n h k = h
Returns-if false m n h k = k

module _ (remote : Remote) (node typ : String) where
  onboot_of-Extends :
      (g : GuestRef) (s : SampleSet) → Returns (Extends s) (onboot_of remote node typ g s)
  unfolding onboot_of
  onboot_of-Extends g s = Returns-if (not g.vmid.valid) _ _ (Returns-pure s (Extends-refl s)) (
      Returns-bind _ _
        (λ cfg. Returns-pure _ (add_onboot-Extends s node typ (format_int g.vmid.value) cfg)))

  onboot_guests-Extends :
      (guests : List GuestRef) (s t : SampleSet)
      → Extends s t
      → Returns (Extends s) (onboot_guests remote node typ guests t)
  unfolding onboot_guests
  onboot_guests-Extends [] s t h = Returns-pure t h
  onboot_guests-Extends (g ∷ guests) s t h =
      Returns-then (Extends t) _ _ (onboot_of-Extends g t)
        (λ u k. onboot_guests-Extends guests s u (Extends-trans h k))

onboot_types-Extends :
    (remote : Remote) (node : String) (types : List String) (s t : SampleSet)
    → Extends s t
    → Returns (Grows s) (onboot_types remote node types t)
unfolding onboot_types
onboot_types-Extends remote node [] s t h = Returns-pure _ h
onboot_types-Extends remote node (typ ∷ types) s t h = Returns-bind _ _ (elim [
  | err e ↦ Returns-pure _ h
  | ok refs ↦
      Returns-then (Extends s) _ _ (onboot_guests-Extends remote node typ refs s t h)
        (λ u k. onboot_types-Extends remote node types s u k)
])

pub collect_onboot-Extends :
    (remote : Remote) (node : String) (s : SampleSet)
    → Returns (Grows s) (collect_onboot remote node s)
unfolding collect_onboot
collect_onboot-Extends remote node s =
    onboot_types-Extends remote node ("qemu" ∷ "lxc" ∷ []) s s (Extends-refl s)
