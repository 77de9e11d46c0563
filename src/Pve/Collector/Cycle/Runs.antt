-- ===== src/Pve/Collector/Cycle/Runs.antt =====
-- internal/pve/collector.go: what the events of `Run` publish.
use pve_exporter.Base.{ℕ, ◌≡◌, refl, ap, ◌∙◌, true, List, [], ◌∷◌, ◌++◌, map}
use pve_exporter.Base.Int.{is_positive}
use pve_exporter.Pve.Group.{Group, launch, Reach, IsDone}
use pve_exporter.Pve.Snapshot.{build_snapshot, load, store}
use pve_exporter.Pve.Collector.{Target}
use pve_exporter.Pve.Collector.Cycle.{
  Collector, Visit, Slot, indices, result_of, advance, set_targets, collect_all, collect_once,
  Event, tick, swap, handle, handle_all, stopped, run,
}
use pve_exporter.Pve.Collector.Cycle.Schedule.{poll_each, collect_all-each}

pub handle_all-append :
    (before after : List Event) (c : Collector)
    → handle_all (before ++ after) c ≡ handle_all after (handle_all before c)
unfolding handle_all
handle_all-append [] after c = refl
handle_all-append (e ∷ before) after c = handle_all-append before after (handle e c)

-- What no event changes.
record Keeps (c d : Collector) : Type 0 where
  toggles : d.toggles ≡ c.toggles
  limit : d.max_concurrent ≡ c.max_concurrent
  interval : d.interval ≡ c.interval

handle-Keeps : (e : Event) (c : Collector) → Keeps c (handle e c)
unfolding handle
handle-Keeps (tick visits finished) c = record { toggles = refl; limit = refl; interval = refl }
handle-Keeps (swap targets) c = record { toggles = refl; limit = refl; interval = refl }

handle_all-Keeps : (events : List Event) (c : Collector) → Keeps c (handle_all events c)
unfolding handle_all
handle_all-Keeps [] c = record { toggles = refl; limit = refl; interval = refl }
handle_all-Keeps (e ∷ events) c =
    let h = handle-Keeps e c in
    let k = handle_all-Keeps events (handle e c) in
    record {
      toggles = k.toggles ∙ h.toggles;
      limit = k.limit ∙ h.limit;
      interval = k.interval ∙ h.interval;
    }

-- After a swap of the targets and a tick, whatever came before, the loop has published the snapshot
-- of exactly the new targets, polled one after the other, however the goroutines of that tick are
-- scheduled under the limit; and the next cycle starts from the clients as these polls leave them.
-- The interval is positive.
pub run-swap :
    (before : List Event) (targets : List Target) (visits : ℕ → Visit) (c : Collector) {g : Group ℕ}
    → is_positive c.interval ≡ true
    → Reach c.max_concurrent (launch (indices 0 targets)) g
    → IsDone g
    → let slots = poll_each visits c.toggles 0 targets in
      (d : Collector) × (run (before ++ swap targets ∷ tick visits g.finished ∷ []) c ≡ stopped d)
      × (load d.store ≡ build_snapshot (map result_of slots))
      × (d.targets ≡ advance targets slots)
unfolding run handle_all handle collect_once load store
run-swap before targets visits c {g} p r d = (
  handle_all (swap targets ∷ tick visits g.finished ∷ []) (handle_all before c),
  rw p (ap stopped (handle_all-append before _ c)),
  ap (λ x. x.0) cycle
      ∙ ap (λ t. build_snapshot (map result_of (poll_each visits t 0 targets))) k.toggles,
  ap (λ x. x.1.targets) cycle ∙ ap (λ t. advance targets (poll_each visits t 0 targets)) k.toggles,
)
  where
    k : Keeps c (handle_all before c)
    k = handle_all-Keeps before c

    slots : List Slot
    slots = poll_each visits (handle_all before c).toggles 0 targets

    cycle : collect_all visits g.finished (set_targets targets (handle_all before c)) ≡ (
      build_snapshot (map result_of slots),
      record (handle_all before c) { targets = advance targets slots },
    )
    cycle = collect_all-each visits (set_targets targets (handle_all before c)) (rw k.limit r) d
