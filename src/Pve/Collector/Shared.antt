-- ===== src/Pve/Collector/Shared.antt =====
-- internal/pve/collector.go: the collector whose targets a reload swaps while a cycle runs.
-- A target holds the address of its client, so the copy of the targets that a cycle works on and the
-- collector's own targets share their clients until a swap brings new ones.
pub mod Clients
pub mod Invariant
pub mod Serial
pub mod Published
use pve_exporter.Base.{
  ℕ, zero, suc, ◌+◌, Bool, Option, none, some, List, [], ◌∷◌, ◌++◌, map, length, eqb, if◌then◌else◌,
}
use pve_exporter.Base.Int.{ℤ}
use pve_exporter.Models.Config.{ClusterConfig, CollectorToggles}
use pve_exporter.Pve.Client.{Client}
use pve_exporter.Pve.Snapshot.{TargetSnapshot, SnapshotStore, build_snapshot, store}
use pve_exporter.Pve.Collector.{Target}
use pve_exporter.Pve.Collector.Cycle.{Collector, Visit, Event, tick, swap, poll}

-- Target, with the pointer to its client
pub record Ref : Type 0 where
  pub cfg : ClusterConfig
  pub address : ℕ

abbrev pub Heap : Type 0
Heap = ℕ → Client

abbrev pub update : ℕ → Client → Heap → Heap
update a c heap = λ x. if eqb x a then c else heap x

abbrev pub deref : Heap → Ref → Target
deref heap r = record { cfg = r.cfg; client = heap r.address }

-- The collector and the heap. The addresses from `next` on are free.
pub record Machine : Type 0 where
  pub targets : List Ref
  pub heap : Heap
  pub next : ℕ
  pub store : SnapshotStore
  pub interval : ℤ
  pub timeout : ℤ
  pub toggles : CollectorToggles
  pub max_concurrent : ℤ

-- A cycle that runs: its copy of the targets, and the results so far.
pub record OpenCycle : Type 0 where
  pub visits : ℕ → Visit
  pub targets : List Ref
  pub results : List (Option TargetSnapshot)

-- The clients of new targets, at the addresses from `a` on.
unfoldable pub allocate : ℕ → List Target → Heap → List Ref × Heap
allocate a [] heap = ([], heap)
allocate a (t ∷ targets) heap =
    let rest = allocate (suc a) targets heap in
    (record { cfg = t.cfg; address = a } ∷ rest.0, update a t.client rest.1)

abbrev pub nothing_yet : List Ref → List (Option TargetSnapshot)
nothing_yet [] = []
nothing_yet (r ∷ refs) = none ∷ nothing_yet refs

-- The goroutine of the `k`-th of these targets polls it, once.
unfoldable pub poll_ref :
    (ℕ → Visit)
    → CollectorToggles
    → Heap
    → ℕ
    → List Ref
    → ℕ
    → List (Option TargetSnapshot)
    → Heap × List (Option TargetSnapshot)
unfolding poll
poll_ref visits toggles heap i [] k results = (heap, results)
poll_ref visits toggles heap i (r ∷ refs) k [] = (heap, [])
poll_ref visits toggles heap i (r ∷ refs) zero (some t ∷ results) = (heap, some t ∷ results)
poll_ref visits toggles heap i (r ∷ refs) zero (none ∷ results) =
    let (t, client) = poll visits toggles i (deref heap r) in
    (update r.address client heap, some t ∷ results)
poll_ref visits toggles heap i (r ∷ refs) (suc k) (x ∷ results) =
    let rest = poll_ref visits toggles heap (suc i) refs k results in (rest.0, x ∷ rest.1)

-- The atomic steps of the run loop and of the reload. `SetTargets` and `snapshotTargets` hold the
-- mutex, and `Store` is one write.
pub data Move : Type 0 where
  begin : (ℕ → Visit) → Move
  finish : ℕ → Move
  publish : Move
  set_refs : List Target → Move

abbrev swap_refs : List Target → Machine → Machine
swap_refs targets m =
    let new = allocate m.next targets m.heap in
    record m { targets = new.0; heap = new.1; next = m.next + length targets }

-- The state: a cycle that runs or none, and the collector. A move that the code cannot take
-- there changes nothing.
unfoldable pub act : Move → Option OpenCycle → Machine → Option OpenCycle × Machine
unfolding poll_ref allocate
act (begin visits) none m =
    (some (record { visits = visits; targets = m.targets; results = nothing_yet m.targets }), m)
act (begin visits) (some cycle) m = (some cycle, m)
act (finish k) none m = (none, m)
act (finish k) (some cycle) m =
    let (heap, results) = poll_ref cycle.visits m.toggles m.heap 0 cycle.targets k cycle.results in
    (some (record cycle { results = results }), record m { heap = heap })
act publish none m = (none, m)
act publish (some cycle) m =
    (none, record m { store = store m.store (build_snapshot cycle.results) })
act (set_refs targets) running m = (running, swap_refs targets m)

unfoldable pub act_all : List Move → Option OpenCycle → Machine → Option OpenCycle × Machine
unfolding act
act_all [] running m = (running, m)
act_all (a ∷ moves) running m = let after = act a running m in act_all moves after.0 after.1

-- The collector with its clients in the heap.
unfoldable pub boot : Collector → Heap → Machine
unfolding allocate
boot c heap =
    let new = allocate 0 c.targets heap in
    record {
      targets = new.0;
      heap = new.1;
      next = length c.targets;
      store = c.store;
      interval = c.interval;
      timeout = c.timeout;
      toggles = c.toggles;
      max_concurrent = c.max_concurrent;
    }

-- The collector without the heap.
abbrev pub view : Machine → Collector
view m = record {
  targets = map (deref m.heap) m.targets;
  store = m.store;
  interval = m.interval;
  timeout = m.timeout;
  toggles = m.toggles;
  max_concurrent = m.max_concurrent;
}

-- A cycle that has begun, with the order of its goroutines and the swaps since.
pub record Pending : Type 0 where
  pub visits : ℕ → Visit
  pub finished : List ℕ
  pub swaps : List Event

unfoldable pub advance_pending : Move → Option Pending → Option Pending
advance_pending (begin visits) none = some (record { visits = visits; finished = []; swaps = [] })
advance_pending (begin visits) (some p) = some p
advance_pending (finish k) none = none
advance_pending (finish k) (some p) = some (record p { finished = p.finished ++ k ∷ [] })
advance_pending publish pending = none
advance_pending (set_refs targets) none = none
advance_pending (set_refs targets) (some p) =
    some (record p { swaps = p.swaps ++ swap targets ∷ [] })

-- What the move adds to the events: a cycle counts when it publishes, and the swaps that it has
-- seen come after it.
unfoldable pub emitted : Move → Option Pending → List Event
emitted (begin visits) pending = []
emitted (finish k) pending = []
emitted publish none = []
emitted publish (some p) = tick p.visits p.finished ∷ p.swaps
emitted (set_refs targets) none = swap targets ∷ []
emitted (set_refs targets) (some p) = []

-- The moves as cycles and swaps that follow each other.
unfoldable pub serialize : List Move → Option Pending → List Event
unfolding advance_pending emitted
serialize [] pending = []
serialize (a ∷ moves) pending = emitted a pending ++ serialize moves (advance_pending a pending)
