-- ===== src/Pve/Node.antt =====
-- internal/pve/node.go: the collectors that run once for each node.
pub mod Labels
pub mod Independent
use pve_exporter.Base.{String, ◌<>◌, none, some, Option, not, List, [], ◌∷◌, ◌==◌, if◌then◌else◌}
use pve_exporter.Base.Float.{Float64, float_zero, float_one, format_int}
use pve_exporter.Pve.Metrics
use pve_exporter.Pve.Metrics.{SampleSet, Label, label, add, id_label}
use pve_exporter.Pve.Parse.{FlexFloat, absent, parse_due_date}
use pve_exporter.Pve.Api.{
  SubscriptionInfo, GuestRef, GuestConfig, ReplicationJob, ReplicationStatus,
}
use pve_exporter.Pve.Resources.{add_flex, add_state_enum}
use pve_exporter.Pve.Client.{Remote, Fetch, FetchError, Result, ok, err, get_optional, pure, ◌>>=◌}

-- What a collector leaves: the samples gathered so far, and its error.
pub record Outcome : Type 0 where
  pub set : SampleSet
  pub error : Option FetchError

abbrev pub done : SampleSet → Outcome
done s = record { set = s; error = none }

abbrev no_status : ReplicationStatus
no_status = record {
  duration = absent;
  last_sync = absent;
  last_try = absent;
  next_sync = absent;
  fail_count = absent;
}

add_job : SampleSet → ReplicationJob → SampleSet
add_job s j = add s Metrics.metric_repl_info float_one (
    id_label j.id
    ∷ label "guest" (if j.guest.valid then "qemu/" <> format_int j.guest.value else "")
    ∷ label "source" ("node/" <> j.source)
    ∷ label "target" ("node/" <> j.target)
    ∷ label "type" j.type
    ∷ [])

-- The status of a job is best-effort.
add_status : SampleSet → ReplicationJob → Result ReplicationStatus → SampleSet
add_status s j (err e) = s
add_status s j (ok st) =
    let id = id_label j.id ∷ [] in
    let s₁ = add_flex s Metrics.metric_repl_duration st.duration id in
    let s₂ = add_flex s₁ Metrics.metric_repl_last_sync st.last_sync id in
    let s₃ = add_flex s₂ Metrics.metric_repl_last_try st.last_try id in
    let s₄ = add_flex s₃ Metrics.metric_repl_next_sync st.next_sync id in
    add_flex s₄ Metrics.metric_repl_failed st.fail_count id

module _ (remote : Remote) (node : String) where
  collect_jobs : List ReplicationJob → SampleSet → Fetch SampleSet
  unfolding add_job add_status
  collect_jobs [] s = pure s
  collect_jobs (j ∷ jobs) s = do
    st ←
        get_optional remote remote.codec.replication_status no_status
          ("/nodes/" <> (node <> ("/replication/" <> (j.id <> "/status"))))
    collect_jobs jobs (add_status (add_job s j) j st)

  replication_samples : SampleSet → Result (List ReplicationJob) → Fetch Outcome
  unfolding collect_jobs
  replication_samples s (err e) = pure (record { set = s; error = some e })
  replication_samples s (ok jobs) = do t ← collect_jobs jobs s; pure (done t)

  unfoldable pub collect_replication : SampleSet → Fetch Outcome
  unfolding replication_samples
  collect_replication s = do
    jobs ←
        get_optional remote remote.codec.replication_jobs [] ("/nodes/" <> (node <> "/replication"))
    replication_samples s jobs

abbrev no_subscription : SubscriptionInfo
no_subscription = record { status = ""; level = ""; next_due_date = "" }

add_due : SampleSet → String → Option Float64 → SampleSet
add_due s node none = s
add_due s node (some ts) = add s Metrics.metric_sub_next_due ts (id_label ("node/" <> node) ∷ [])

add_subscription : SampleSet → String → SubscriptionInfo → SampleSet
unfolding add_due
add_subscription s node sub =
    let id = id_label ("node/" <> node) in
    let s₁ =
      if sub.level == ""
      then s
      else add s Metrics.metric_sub_info float_one (id ∷ label "level" sub.level ∷ []) in
    let s₂ =
      if sub.status == ""
      then s₁
      else add_state_enum s₁ Metrics.metric_sub_status ("node/" <> node) sub.status
          Metrics.sub_states in
    add_due s₂ node (parse_due_date sub.next_due_date)

subscription_samples : String → SampleSet → Result SubscriptionInfo → Outcome
unfolding add_subscription
subscription_samples node s (err e) = record { set = s; error = some e }
subscription_samples node s (ok sub) = done (add_subscription s node sub)

unfoldable pub collect_subscription : Remote → String → SampleSet → Fetch Outcome
unfolding subscription_samples
collect_subscription remote node s = do
  sub ←
      get_optional remote remote.codec.subscription no_subscription
        ("/nodes/" <> (node <> "/subscription"))
  pure (subscription_samples node s sub)

abbrev no_config : GuestConfig
no_config = record { onboot = absent }

-- The onboot value of a guest, 0 where the configuration does not say.
add_onboot : SampleSet → String → String → String → Result GuestConfig → SampleSet
add_onboot s node typ vmid (err e) = s
add_onboot s node typ vmid (ok cfg) =
    add s Metrics.metric_onboot (if cfg.onboot.valid then cfg.onboot.value else float_zero)
      (id_label (typ <> ("/" <> vmid)) ∷ label "node" node ∷ label "type" typ ∷ [])

module _ (remote : Remote) (node : String) where
  onboot_of : String → GuestRef → SampleSet → Fetch SampleSet
  unfolding add_onboot
  onboot_of typ g s =
      let vmid = format_int g.vmid.value in
      if not g.vmid.valid then pure s else (do
        cfg ←
            get_optional remote remote.codec.guest_config no_config
              ("/nodes/" <> (node <> ("/" <> (typ <> ("/" <> (vmid <> "/config"))))))
        pure (add_onboot s node typ vmid cfg))

  onboot_guests : String → List GuestRef → SampleSet → Fetch SampleSet
  unfolding onboot_of
  onboot_guests typ [] s = pure s
  onboot_guests typ (g ∷ guests) s = do t ← onboot_of typ g s; onboot_guests typ guests t

  -- The first listing that fails ends the loop over the types.
  onboot_types : List String → SampleSet → Fetch Outcome
  unfolding onboot_guests
  onboot_types [] s = pure (done s)
  onboot_types (typ ∷ types) s = do
    guests ← get_optional remote remote.codec.guests [] ("/nodes/" <> (node <> ("/" <> typ)))
    elim guests [
      | err e ↦ pure (record { set = s; error = some e })
      | ok refs ↦ do t ← onboot_guests typ refs s; onboot_types types t
    ]

  unfoldable pub collect_onboot : SampleSet → Fetch Outcome
  unfolding onboot_types
  collect_onboot s = onboot_types ("qemu" ∷ "lxc" ∷ []) s
