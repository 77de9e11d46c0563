-- ===== src/Examples/Swaps.antt =====
-- A swap of the targets while a cycle runs.
use pve_exporter.Base.{◌≡◌, refl, map, none, List, [], ◌∷◌, ◌++◌}
use pve_exporter.Pve.Snapshot.{build_snapshot, load}
use pve_exporter.Pve.Collector.{Target}
use pve_exporter.Pve.Collector.Cycle.{result_of, tick, swap, handle_all}
use pve_exporter.Pve.Collector.Cycle.Schedule.{poll_each}
use pve_exporter.Pve.Collector.Shared.{
  Heap, Move, begin, finish, publish, set_refs, act_all, boot, serialize,
}
use pve_exporter.Pve.Collector.Shared.Serial.{Shows, act_all-Shows}
use pve_exporter.Pve.Collector.Shared.Published.{act_all-published}
use pve_exporter.Examples.{cluster, toggles, client, visits}
use pve_exporter.Examples.Cycles.{pair, collector, crossed_schedule, crossed-IsDone}

abbrev fresh : Heap
fresh x = client

abbrev others : List Target
others = record { cfg = cluster "pve3"; client = client } ∷ []

-- The targets change after the second goroutine and before the first.
abbrev moves : List Move
moves = begin visits ∷ finish 1 ∷ set_refs others ∷ finish 0 ∷ publish ∷ []

act_all-Shows_example :
    let after = act_all moves none (boot collector fresh) in
    Shows after.0 after.1 (handle_all (tick visits (1 ∷ 0 ∷ []) ∷ swap others ∷ []) collector)
unfolding serialize
act_all-Shows_example = act_all-Shows moves collector fresh

abbrev between : List Move
between = finish 1 ∷ set_refs others ∷ finish 0 ∷ []

act_all-published_example :
    load (act_all (begin visits ∷ (between ++ publish ∷ [])) none (boot collector fresh)).1.store
    ≡ build_snapshot (map result_of (poll_each visits toggles 0 pair))
act_all-published_example =
    act_all-published visits between collector fresh (tt, (tt, (tt, tt))) crossed_schedule
      crossed-IsDone refl
