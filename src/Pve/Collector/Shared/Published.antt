-- ===== src/Pve/Collector/Shared/Published.antt =====
-- internal/pve/collector.go: what a cycle publishes while the targets are swapped.
use pve_exporter.Base.{
  ℕ, ◌≡◌, refl, ap, ◌∙◌, none, some, List, [], ◌∷◌, ◌++◌, map, All, append-nil, append_assoc,
}
use pve_exporter.Pve.Group.{Group, launch, Reach, IsDone}
use pve_exporter.Pve.Snapshot.{build_snapshot, load, store}
use pve_exporter.Pve.Collector.Cycle.{
  Collector, Visit, indices, result_of, set_targets, collect_all, collect_once, Event, tick, swap,
  handle, handle_all,
}
use pve_exporter.Pve.Collector.Cycle.Schedule.{poll_each, collect_all-each}
use pve_exporter.Pve.Collector.Shared.{
  Heap, Move, begin, finish, publish, set_refs, act_all, boot, Pending, advance_pending, emitted,
  serialize,
}
use pve_exporter.Pve.Collector.Shared.Serial.{act_all-Shows}

-- A move within a cycle.
abbrev pub IsBetween : Move → Type 0
IsBetween (begin visits) = ⊥
IsBetween (finish k) = Unit
IsBetween publish = ⊥
IsBetween (set_refs targets) = Unit

-- The goroutines that finish, in order.
abbrev pub finishes : List Move → List ℕ
finishes [] = []
finishes (begin visits ∷ moves) = finishes moves
finishes (finish k ∷ moves) = k ∷ finishes moves
finishes (publish ∷ moves) = finishes moves
finishes (set_refs targets ∷ moves) = finishes moves

abbrev swaps_in : List Move → List Event
swaps_in [] = []
swaps_in (begin visits ∷ moves) = swaps_in moves
swaps_in (finish k ∷ moves) = swaps_in moves
swaps_in (publish ∷ moves) = swaps_in moves
swaps_in (set_refs targets ∷ moves) = swap targets ∷ swaps_in moves

serialize-between :
    (moves : List Move) (p : Pending)
    → All IsBetween moves
    → serialize (moves ++ publish ∷ []) (some p)
      ≡ tick p.visits (p.finished ++ finishes moves) ∷ (p.swaps ++ swaps_in moves)
unfolding serialize advance_pending emitted
serialize-between [] p h = rw (append-nil p.finished, append-nil p.swaps) refl
serialize-between (begin visits ∷ moves) p h = absurd h.0
serialize-between (finish k ∷ moves) p h =
    serialize-between moves (record p { finished = p.finished ++ k ∷ [] }) h.1
    ∙ ap (λ l. tick p.visits l ∷ (p.swaps ++ swaps_in moves))
        (append_assoc p.finished (k ∷ []) (finishes moves))
serialize-between (publish ∷ moves) p h = absurd h.0
serialize-between (set_refs targets ∷ moves) p h =
    serialize-between moves (record p { swaps = p.swaps ++ swap targets ∷ [] }) h.1
    ∙ ap (λ l. tick p.visits (p.finished ++ finishes moves) ∷ l)
        (append_assoc p.swaps (swap targets ∷ []) (swaps_in moves))

store-swaps_in :
    (moves : List Move) (c : Collector) → (handle_all (swaps_in moves) c).store ≡ c.store
unfolding handle_all handle
store-swaps_in [] c = refl
store-swaps_in (begin visits ∷ moves) c = store-swaps_in moves c
store-swaps_in (finish k ∷ moves) c = store-swaps_in moves c
store-swaps_in (publish ∷ moves) c = store-swaps_in moves c
store-swaps_in (set_refs targets ∷ moves) c = store-swaps_in moves (set_targets targets c)

-- A cycle whose goroutines have all finished, in the order of some schedule under the limit,
-- publishes the snapshot of the targets that were current when it began, polled one after the
-- other, whatever swaps of the targets fall between its steps.
pub act_all-published :
    (visits : ℕ → Visit) (moves : List Move) (c : Collector) (heap : Heap) {g : Group ℕ}
    → All IsBetween moves
    → Reach c.max_concurrent (launch (indices 0 c.targets)) g
    → IsDone g
    → finishes moves ≡ g.finished
    → load (act_all (begin visits ∷ (moves ++ publish ∷ [])) none (boot c heap)).1.store
      ≡ build_snapshot (map result_of (poll_each visits c.toggles 0 c.targets))
unfolding serialize advance_pending emitted handle_all handle collect_once collect_all load store
act_all-published visits moves c heap {g} h r d e =
    ap load (act_all-Shows (begin visits ∷ (moves ++ publish ∷ [])) c heap).store
    ∙ ap (λ (l : List Event). load (handle_all l c).store)
        (serialize-between moves (record { visits = visits; finished = []; swaps = [] }) h)
    ∙ ap load (store-swaps_in moves (handle (tick visits (finishes moves)) c))
    ∙ ap (λ (l : List ℕ). (collect_all visits l c).0) e
    ∙ ap (λ x. x.0) (collect_all-each visits c r d)
