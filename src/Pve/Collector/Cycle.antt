-- ===== src/Pve/Collector/Cycle.antt =====
-- internal/pve/collector.go: the collector, its cycles and its run loop.
-- A cycle works on a copy of the targets, so a swap of the targets counts from the next cycle on.
-- Each target has a client of its own, as `buildTargets` makes them.
pub mod Schedule
pub mod Bags
pub mod Counters
pub mod Labels
pub mod Runs
use pve_exporter.Base.{
  ℕ, zero, suc, String, Bool, Option, none, some, List, [], ◌∷◌, map, if◌then◌else◌,
}
use pve_exporter.Base.Int.{ℤ, is_positive}
use pve_exporter.Models.Config.{CollectorToggles}
use pve_exporter.Pve.Client.{Client, Remote}
use pve_exporter.Pve.Snapshot.{TargetSnapshot, Snapshot, SnapshotStore, build_snapshot, store}
use pve_exporter.Pve.Collector.{Clock, Target, collect_target}

pub record Collector : Type 0 where
  pub targets : List Target
  pub store : SnapshotStore
  pub interval : ℤ
  pub timeout : ℤ
  pub toggles : CollectorToggles
  pub max_concurrent : ℤ

abbrev pub set_targets : List Target → Collector → Collector
set_targets targets c = record c { targets = targets }

-- `snapshotTargets`: the copy has the same targets
abbrev pub snapshot_targets : Collector → List Target
snapshot_targets c = c.targets

unfoldable pub new_collector :
    List Target → SnapshotStore → ℤ → ℤ → CollectorToggles → ℤ → Collector
new_collector targets store interval timeout toggles max_concurrent = record {
  targets = targets;
  store = store;
  interval = interval;
  timeout = timeout;
  toggles = toggles;
  max_concurrent = max_concurrent;
}

-- What the environment decides for the poll of one target.
pub record Visit : Type 0 where
  pub remote : Remote
  pub clock : Clock
  pub order : List String → List String

-- results[i], nil until its goroutine finishes, with the client as the poll leaves it
abbrev pub Slot : Type 0
Slot = Option (TargetSnapshot × Client)

unfoldable pub poll : (ℕ → Visit) → CollectorToggles → ℕ → Target → TargetSnapshot × Client
poll visits toggles i t =
    collect_target (visits i).remote toggles t.cfg.name (visits i).clock (visits i).order t.client

-- The indices of the loop that starts the goroutines.
unfoldable pub indices : ℕ → List Target → List ℕ
indices i [] = []
indices i (t ∷ targets) = i ∷ indices (suc i) targets

abbrev pub no_results : List Target → List Slot
no_results [] = []
no_results (t ∷ targets) = none ∷ no_results targets

module _ (visits : ℕ → Visit) (toggles : CollectorToggles) where
  -- results[k] = c.collectTarget(gctx, targets[k]), with both slices from index `i` on and `k`
  -- counted from there
  unfoldable pub set_result : ℕ → List Target → ℕ → List Slot → List Slot
  unfolding poll
  set_result i [] k slots = slots
  set_result i (t ∷ targets) k [] = []
  set_result i (t ∷ targets) zero (slot ∷ slots) = some (poll visits toggles i t) ∷ slots
  set_result i (t ∷ targets) (suc k) (slot ∷ slots) = slot ∷ set_result (suc i) targets k slots

  -- The goroutines that finish in this order.
  unfoldable pub collect_targets : List Target → List ℕ → List Slot → List Slot
  unfolding set_result
  collect_targets targets [] slots = slots
  collect_targets targets (k ∷ finished) slots =
      collect_targets targets finished (set_result 0 targets k slots)

abbrev pub result_of : Slot → Option TargetSnapshot
result_of none = none
result_of (some (t, c)) = some t

-- The targets with the clients as the polls leave them.
unfoldable pub advance : List Target → List Slot → List Target
advance [] slots = []
advance (t ∷ targets) [] = t ∷ targets
advance (t ∷ targets) (none ∷ slots) = t ∷ advance targets slots
advance (t ∷ targets) (some (s, c) ∷ slots) = record t { client = c } ∷ advance targets slots

-- `collectAll`, for goroutines that finish in the order `finished`
unfoldable pub collect_all : (ℕ → Visit) → List ℕ → Collector → Snapshot × Collector
unfolding collect_targets
collect_all visits finished c =
    let targets = snapshot_targets c in
    let slots = collect_targets visits c.toggles targets finished (no_results targets) in
    (build_snapshot (map result_of slots), record c { targets = advance targets slots })

-- The snapshot that a cycle returns is the one that it publishes.
abbrev publish : Snapshot × Collector → Snapshot × Collector
publish (snap, c) = (snap, record c { store = store c.store snap })

-- `CollectOnce`
unfoldable pub collect_once : (ℕ → Visit) → List ℕ → Collector → Snapshot × Collector
unfolding collect_all
collect_once visits finished c = publish (collect_all visits finished c)

-- What wakes the loop of `Run`, and the swap of the targets by a reload.
pub data Event : Type 0 where
  tick : (ℕ → Visit) → List ℕ → Event
  swap : List Target → Event

unfoldable pub handle : Event → Collector → Collector
unfolding collect_once
handle (tick visits finished) c = (collect_once visits finished c).1
handle (swap targets) c = set_targets targets c

-- The events until the context is cancelled.
unfoldable pub handle_all : List Event → Collector → Collector
unfolding handle
handle_all [] c = c
handle_all (e ∷ events) c = handle_all events (handle e c)

-- `time.NewTicker` panics unless the interval is positive.
pub data RunResult : Type 0 where
  panicked : RunResult
  stopped : Collector → RunResult

-- `Run`
unfoldable pub run : List Event → Collector → RunResult
unfolding handle_all
run events c = if is_positive c.interval then stopped (handle_all events c) else panicked
