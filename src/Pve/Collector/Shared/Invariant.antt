-- ===== src/Pve/Collector/Shared/Invariant.antt =====
-- internal/pve/collector.go: the collector and a cycle between their moves.
use mathlib.Core.Path.{subst, ap₂}
use pve_exporter.Base.{
  ℕ, ◌+◌, ◌≤◌, ◌≡◌, refl, sym, ap, ◌∙◌, inr, List, [], ◌∷◌, ◌++◌, map, arith, length,
}
use pve_exporter.Models.Config.{CollectorToggles}
use pve_exporter.Pve.Collector.{Target}
use pve_exporter.Pve.Collector.Cycle.{
  Collector, Visit, Slot, no_results, set_result, collect_targets, set_targets, Event, swap, handle,
  handle_all,
}
use pve_exporter.Pve.Collector.Cycle.Runs.{handle_all-append}
use pve_exporter.Pve.Collector.Shared.{
  Ref, Heap, deref, Machine, OpenCycle, allocate, swap_refs, nothing_yet, poll_ref, view, Pending,
}
use pve_exporter.Pve.Collector.Shared.Clients.{
  IsPlaced, deref-agree, allocate-IsPlaced, length-allocate, allocate-before, allocate-deref,
  poll_ref_elsewhere, Matches, Matches-begin, Matches-agree, poll_ref-Matches,
}

-- No cycle runs, and the machine is the collector.
pub record Idle (m : Machine) (c : Collector) : Type 0 where
  pub base : ℕ
  pub placed : IsPlaced base m.targets
  pub free : base + length m.targets ≤ m.next
  pub same : view m ≡ c

-- The targets of the collector while a cycle runs: those that it copied, or later ones with clients
-- of their own.
pub data Current (copied : List Ref) (m : Machine) (swaps : List Event) (end : ℕ) : Type 0 where
  shared : swaps ≡ [] → m.targets ≡ copied → Current copied m swaps end
  swapped :
      (base : ℕ)
      → IsPlaced base m.targets
      → end ≤ base
      → base + length m.targets ≤ m.next
      → ((d : Collector) → handle_all swaps d ≡ set_targets (view m).targets d)
      → Current copied m swaps end

abbrev pub slots_of : OpenCycle → Machine → Collector → List ℕ → List Slot
slots_of cycle m c finished =
    collect_targets cycle.visits m.toggles c.targets finished (no_results c.targets)

-- A cycle runs that began at the collector `c`.
pub record During (cycle : OpenCycle) (m : Machine) (p : Pending) (c : Collector) : Type 0 where
  pub base : ℕ
  pub placed : IsPlaced base cycle.targets
  pub free : base + length cycle.targets ≤ m.next
  pub visits : cycle.visits ≡ p.visits
  pub matches :
      Matches cycle.visits m.toggles 0 m.heap cycle.targets c.targets
        (slots_of cycle m c p.finished)
        cycle.results
  pub rest : view m ≡ set_targets (view m).targets c
  pub current : Current cycle.targets m p.swaps (base + length cycle.targets)

pub begin-During :
    (visits : ℕ → Visit) (m : Machine) (c : Collector)
    → Idle m c
    → During
        (record { visits = visits; targets = m.targets; results = nothing_yet m.targets })
        m
        (record { visits = visits; finished = []; swaps = [] })
        c
unfolding collect_targets
begin-During visits m c i =
    subst
      (λ (d : Collector).
        During (record { visits = visits; targets = m.targets; results = nothing_yet m.targets }) m
          (record { visits = visits; finished = []; swaps = [] }) d)
      i.same
      (record {
        base = i.base;
        placed = i.placed;
        free = i.free;
        visits = refl;
        matches = Matches-begin visits m.toggles 0 m.heap m.targets;
        rest = refl;
        current = shared refl refl;
      })

collect_targets-append :
    (visits : ℕ → Visit) (toggles : CollectorToggles) (targets : List Target) (finished : List ℕ)
    (k : ℕ) (slots : List Slot)
    → collect_targets visits toggles targets (finished ++ k ∷ []) slots
      ≡ set_result visits toggles 0 targets k
          (collect_targets visits toggles targets finished slots)
unfolding collect_targets
collect_targets-append visits toggles targets [] k slots = refl
collect_targets-append visits toggles targets (x ∷ finished) k slots =
    collect_targets-append visits toggles targets finished k _

-- A poll changes the clients of the copied targets only.
Current-poll :
    (copied : List Ref) (m : Machine) (swaps : List Event) (end : ℕ) (heap : Heap)
    → ((x : ℕ) → end ≤ x → heap x ≡ m.heap x)
    → Current copied m swaps end
    → Current copied (record m { heap = heap }) swaps end
Current-poll copied m swaps end heap kept (shared e same) = shared e same
Current-poll copied m swaps end heap kept (swapped base placed behind free all) =
    swapped base placed behind free (λ d.
      all d
      ∙ ap (λ (l : List Target). set_targets l d)
          (deref-agree m.heap heap m.targets placed (λ x low high. sym (kept x (omega arith)))))

pub finish-During :
    (k : ℕ) (cycle : OpenCycle) (m : Machine) (p : Pending) (c : Collector)
    → During cycle m p c
    → let after = poll_ref cycle.visits m.toggles m.heap 0 cycle.targets k cycle.results in
      During
        (record cycle { results = after.1 })
        (record m { heap = after.0 })
        (record p { finished = p.finished ++ k ∷ [] })
        c
finish-During k cycle m p c h =
    let after = poll_ref cycle.visits m.toggles m.heap 0 cycle.targets k cycle.results in
    record {
      base = h.base;
      placed = h.placed;
      free = h.free;
      visits = h.visits;
      matches =
          subst
            (λ (slots : List Slot).
              Matches cycle.visits m.toggles 0 after.0 cycle.targets c.targets slots after.1)
            (sym (
              collect_targets-append cycle.visits m.toggles c.targets p.finished k
                (no_results c.targets)))
            (poll_ref-Matches cycle.visits m.toggles k h.placed h.matches);
      rest = ap (set_targets (map (deref after.0) m.targets)) h.rest;
      current =
          Current-poll cycle.targets m p.swaps _ after.0
            (λ x low.
              poll_ref_elsewhere cycle.visits m.toggles m.heap 0 cycle.targets k cycle.results
                h.placed x (inr low))
            h.current;
    }

pub swap-Idle :
    (targets : List Target) (m : Machine) (c : Collector)
    → Idle m c
    → Idle (swap_refs targets m) (set_targets targets c)
swap-Idle targets m c i = record {
  base = m.next;
  placed = allocate-IsPlaced m.next targets m.heap;
  free = omega (arith, length-allocate m.next targets m.heap);
  same =
      ap₂ (λ (l : List Target) (d : Collector). set_targets l d)
        (allocate-deref m.next targets m.heap) i.same;
}

-- The swaps so far only set the targets.
swaps_set :
    (copied : List Ref) (m : Machine) (swaps : List Event) (end : ℕ) (targets : List Target)
    (d : Collector)
    → Current copied m swaps end
    → set_targets targets (handle_all swaps d) ≡ set_targets targets d
unfolding handle_all
swaps_set copied m swaps end targets d (shared e same) =
    ap (λ (l : List Event). set_targets targets (handle_all l d)) e
swaps_set copied m swaps end targets d (swapped base placed behind free all) =
    ap (set_targets targets) (all d)

pub swap-During :
    (targets : List Target) (cycle : OpenCycle) (m : Machine) (p : Pending) (c : Collector)
    → During cycle m p c
    → During cycle (swap_refs targets m) (record p { swaps = p.swaps ++ swap targets ∷ [] }) c
unfolding handle_all handle
swap-During targets cycle m p c h =
    let new = allocate m.next targets m.heap in
    record {
      base = h.base;
      placed = h.placed;
      free = omega (arith, h.free);
      visits = h.visits;
      matches =
          Matches-agree cycle.visits m.toggles m.heap new.1 h.placed
            (λ x low high. sym (allocate-before m.next targets m.heap x (omega (arith, h.free))))
            h.matches;
      rest = ap (set_targets (map (deref new.1) new.0)) h.rest;
      current =
          swapped m.next (allocate-IsPlaced m.next targets m.heap) h.free
            (omega (arith, length-allocate m.next targets m.heap))
            (λ d.
              handle_all-append p.swaps (swap targets ∷ []) d
              ∙ swaps_set cycle.targets m p.swaps _ targets d h.current
              ∙ ap (λ (l : List Target). set_targets l d)
                  (sym (allocate-deref m.next targets m.heap)));
    }
