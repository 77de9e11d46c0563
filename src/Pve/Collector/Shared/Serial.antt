-- ===== src/Pve/Collector/Shared/Serial.antt =====
-- internal/pve/collector.go: a reload that swaps the targets while a cycle runs.
use mathlib.Core.Path.{subst, ap₂}
use pve_exporter.Base.{
  ℕ, ◌+◌, ◌≡◌, sym, ap, ◌∙◌, Option, none, some, List, [], ◌∷◌, map, arith, length,
}
use pve_exporter.Models.Config.{CollectorToggles}
use pve_exporter.Pve.Snapshot.{TargetSnapshot, build_snapshot, store}
use pve_exporter.Pve.Collector.{Target}
use pve_exporter.Pve.Collector.Cycle.{
  Collector, Visit, Slot, no_results, collect_targets, result_of, advance, set_targets, collect_all,
  collect_once, Event, tick, handle, handle_all,
}
use pve_exporter.Pve.Collector.Cycle.Runs.{handle_all-append}
use pve_exporter.Pve.Collector.Shared.{
  Heap, deref, Machine, OpenCycle, Move, begin, finish, publish, set_refs, act, act_all, boot, view,
  Pending, advance_pending, emitted, serialize,
}
use pve_exporter.Pve.Collector.Shared.Invariant.{
  Idle, Current, shared, swapped, slots_of, During, begin-During, finish-During, swap-Idle,
  swap-During,
}
use pve_exporter.Pve.Collector.Shared.Clients.{
  IsPlaced, allocate-IsPlaced, length-allocate, allocate-deref, results-Matches, targets-Matches,
}

-- The machine is where the events so far have brought the collector, but for a cycle that runs.
data Sim : Option OpenCycle → Machine → Option Pending → Collector → Type 0 where
  idle : {m : Machine} {c : Collector} → Idle m c → Sim none m none c
  busy :
      {cycle : OpenCycle} {m : Machine} {p : Pending} {c : Collector}
      → During cycle m p c
      → Sim (some cycle) m (some p) c

-- The slots of the cycle as the loop of the collector fills them.
abbrev slots_in : Pending → Collector → List Slot
slots_in p c = collect_targets p.visits c.toggles c.targets p.finished (no_results c.targets)

slots-During :
    (cycle : OpenCycle) (m : Machine) (p : Pending) (c : Collector)
    → During cycle m p c
    → slots_of cycle m c p.finished ≡ slots_in p c
slots-During cycle m p c h =
    ap₂
      (λ (v : ℕ → Visit) (t : CollectorToggles).
        collect_targets v t c.targets p.finished (no_results c.targets))
      h.visits (ap (λ (d : Collector). d.toggles) h.rest)

abbrev stored : OpenCycle → Machine → Machine
stored cycle m = record m { store = store m.store (build_snapshot cycle.results) }

-- The machine after the publication, but for its targets.
view-stored :
    (cycle : OpenCycle) (m : Machine) (p : Pending) (c : Collector)
    → During cycle m p c
    → view (stored cycle m)
      ≡ set_targets (map (deref m.heap) m.targets) (handle (tick p.visits p.finished) c)
unfolding handle collect_once collect_all
view-stored cycle m p c h =
    ap (λ (d : Collector). record d { store = store d.store (build_snapshot cycle.results) }) h.rest
    ∙ ap
        (λ (l : List (Option TargetSnapshot)).
          set_targets (map (deref m.heap) m.targets)
            (record c { store = store c.store (build_snapshot l) }))
        (results-Matches cycle.visits m.toggles h.matches
          ∙ ap (map result_of) (slots-During cycle m p c h))

-- The targets after the publication.
targets-stored :
    (cycle : OpenCycle) (m : Machine) (p : Pending) (c : Collector) (end : ℕ)
    → During cycle m p c
    → Current cycle.targets m p.swaps end
    → set_targets (map (deref m.heap) m.targets) (handle (tick p.visits p.finished) c)
      ≡ handle_all p.swaps (handle (tick p.visits p.finished) c)
unfolding handle collect_once collect_all handle_all
targets-stored cycle m p c end h (shared e same) =
    ap (λ (l : List Target). set_targets l after)
      (ap (map (deref m.heap)) same
        ∙ targets-Matches cycle.visits m.toggles h.matches
        ∙ ap (advance c.targets) (slots-During cycle m p c h))
    ∙ sym (ap (λ (l : List Event). handle_all l after) e)
  where
    after : Collector
    after = handle (tick p.visits p.finished) c
targets-stored cycle m p c end h (swapped base placed behind free all) =
    sym (all (handle (tick p.visits p.finished) c))

publish-Idle :
    (cycle : OpenCycle) (m : Machine) (p : Pending) (c : Collector)
    → During cycle m p c
    → Idle (stored cycle m) (handle_all (tick p.visits p.finished ∷ p.swaps) c)
unfolding handle_all
publish-Idle cycle m p c h = publish_current h.current
  where
    same : view (stored cycle m) ≡ handle_all p.swaps (handle (tick p.visits p.finished) c)
    same = view-stored cycle m p c h ∙ targets-stored cycle m p c _ h h.current

    publish_current :
        Current cycle.targets m p.swaps (h.base + length cycle.targets)
        → Idle (stored cycle m) (handle_all p.swaps (handle (tick p.visits p.finished) c))
    publish_current (shared e copied) = record {
      base = h.base;
      placed = subst (IsPlaced h.base) (sym copied) h.placed;
      free = rw copied h.free;
      same = same;
    }
    publish_current (swapped base placed behind free all) = record {
      base = base;
      placed = placed;
      free = free;
      same = same;
    }

act-Sim :
    (a : Move) {running : Option OpenCycle} {m : Machine} {pending : Option Pending} {c : Collector}
    → Sim running m pending c
    → let after = act a running m in
      Sim after.0 after.1 (advance_pending a pending) (handle_all (emitted a pending) c)
unfolding act advance_pending emitted handle_all handle
act-Sim (begin visits) (idle {m} {c} i) = busy (begin-During visits m c i)
act-Sim (begin visits) (busy h) = busy h
act-Sim (finish k) (idle i) = idle i
act-Sim (finish k) (busy {cycle} {m} {p} {c} h) = busy (finish-During k cycle m p c h)
act-Sim publish (idle i) = idle i
act-Sim publish (busy {cycle} {m} {p} {c} h) = idle (publish-Idle cycle m p c h)
act-Sim (set_refs targets) (idle {m} {c} i) = idle (swap-Idle targets m c i)
act-Sim (set_refs targets) (busy {cycle} {m} {p} {c} h) = busy (swap-During targets cycle m p c h)

act_all-Sim :
    (moves : List Move) (running : Option OpenCycle) (m : Machine) (pending : Option Pending)
    (c : Collector)
    → Sim running m pending c
    → let after = act_all moves running m in
      (q : Option Pending) × Sim after.0 after.1 q (handle_all (serialize moves pending) c)
unfolding act_all serialize handle_all
act_all-Sim [] running m pending c h = (pending, h)
act_all-Sim (a ∷ moves) running m pending c h =
    let after = act a running m in
    let (q, end) = act_all-Sim moves after.0 after.1 _ _ (act-Sim a h) in
    (
      q,
      subst (Sim (act_all moves after.0 after.1).0 (act_all moves after.0 after.1).1 q)
          (sym
            (handle_all-append (emitted a pending) (serialize moves (advance_pending a pending)) c))
          end,
    )

boot-Idle : (c : Collector) (heap : Heap) → Idle (boot c heap) c
unfolding boot
boot-Idle c heap = record {
  base = 0;
  placed = allocate-IsPlaced 0 c.targets heap;
  free = omega (arith, length-allocate 0 c.targets heap);
  same = ap (λ (l : List Target). set_targets l c) (allocate-deref 0 c.targets heap);
}

-- What a state of the machine shows of the collector `c`: the published snapshots are the same, and
-- so is the whole collector when no cycle runs.
pub record Shows (running : Option OpenCycle) (m : Machine) (c : Collector) : Type 0 where
  pub store : m.store ≡ c.store
  pub settled : running ≡ none → view m ≡ c

Sim-Shows :
    {running : Option OpenCycle} {m : Machine} {pending : Option Pending} {c : Collector}
    → Sim running m pending c
    → Shows running m c
Sim-Shows (idle i) = record {
  store = ap (λ (d : Collector). d.store) i.same;
  settled = λ e. i.same;
}
Sim-Shows (busy h) = record {
  store = ap (λ (d : Collector). d.store) h.rest;
  settled = λ e. absurd (ground (arith, e));
}

-- Cycles and swaps of the targets interleave as if each cycle were one step that comes before the
-- swaps which it has seen: from any collector, after any moves, the store holds what the events in
-- this order publish, and when no cycle runs the targets and their clients are as the events leave
-- them.
pub act_all-Shows :
    (moves : List Move) (c : Collector) (heap : Heap)
    → let after = act_all moves none (boot c heap) in
      Shows after.0 after.1 (handle_all (serialize moves none) c)
act_all-Shows moves c heap =
    Sim-Shows (act_all-Sim moves none (boot c heap) none c (idle (boot-Idle c heap))).1
