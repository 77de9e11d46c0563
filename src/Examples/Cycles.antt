-- ===== src/Examples/Cycles.antt =====
-- Runs of a cycle.
use mathlib.Core.List.{Perm, reverse, reverse_perm}
use pve_exporter.Base.{
  zero, suc, map, ◌++◌, ℕ, String, ◌≡◌, refl, ◌≤◌, ◌*◌, not, some, List, [], ◌∷◌, length, ◌⊎◌, All,
  true, false,
}
use pve_exporter.Base.Int.{pos}
use pve_exporter.Base.Dict.{lookup, contains}
use pve_exporter.Base.Distinct.{IsDistinct}
use pve_exporter.Pve.Snapshot.{
  build_snapshot, samples_for, metric_names, targets, new_snapshot_store, load,
}
use pve_exporter.Pve.Snapshot.Index.{all_samples, named, samples_for-build_snapshot}
use pve_exporter.Pve.Snapshot.Names.{is_empty, metric_names-build_snapshot}
use pve_exporter.Pve.Snapshot.Targets.{targets-build_snapshot}
use pve_exporter.Pve.Group.{Group, launch, Step, start, finish, Reach, here, next, IsDone}
use pve_exporter.Pve.Group.Schedule.{schedule_ends, steps}
use pve_exporter.Pve.Collector.{Target, collect_target}
use pve_exporter.Pve.Collector.Cycle.{
  Collector, indices, result_of, advance, collect_all, run, tick, swap, stopped, Event, handle_all,
  Visit,
}
use pve_exporter.Pve.Collector.Cycle.Schedule.{poll_each, collect_all-each}
use mathlib.Core.List.Perm
use pve_exporter.Pve.Client.{Client, count_error}
use pve_exporter.Pve.Client.Counting.{is_counted}
use pve_exporter.Examples.{down_remote, polls, polled, cluster, client, toggles, visits, clock}
use pve_exporter.Pve.Collector.Tally.{Counts, collect_target-Tally}
use pve_exporter.Pve.Collector.Cycle.Counters.{AreCounted, visits_of, handle_all-AreCounted}
use pve_exporter.Pve.Collector.Cycle.Bags.{SameVisit, SameCycle, collect_all-SameCycle}
use pve_exporter.Pve.Collector.Cycle.Labels.{HasKeys, collect_all-HasKeys}
use pve_exporter.Pve.Collector.Cycle.Runs.{run-swap}

samples_for-build_snapshot_example :
    samples_for (build_snapshot polls) "pve_up" ≡ named "pve_up" (all_samples polls)
samples_for-build_snapshot_example = samples_for-build_snapshot polls "pve_up"

metric_names-build_snapshot_example :
    IsDistinct (metric_names (build_snapshot polls))
    × ((n : String)
        → contains n (metric_names (build_snapshot polls))
          ≡ not (is_empty (named n (all_samples polls))))
metric_names-build_snapshot_example = metric_names-build_snapshot polls

targets-build_snapshot_example :
    lookup "pve2" (targets (build_snapshot polls)) ≡ some (polled "pve2")
targets-build_snapshot_example = targets-build_snapshot polls "pve2"

abbrev just_a : List String
just_a = "a" ∷ []

abbrev just_b : List String
just_b = "b" ∷ []

abbrev two : List String
two = "a" ∷ just_b

-- One node at a time, and the second one finishes last.
one_at_a_time : Reach (pos 1) (launch (two)) (record { waiting = []; running = []; finished = two })
one_at_a_time =
    next
      (next (next (next here (start "a" (just_b) refl refl refl)) (finish [] "a" [] refl refl))
        (start "b" [] refl refl refl))
      (finish [] "b" [] refl refl)

second_running :
    Reach (pos 1) (launch (two)) (record { waiting = just_b; running = just_a; finished = [] })
second_running = next here (start "a" (just_b) refl refl refl)

schedule_ends_example :
    (steps second_running ≤ 2 * length (two))
    × (IsDone {A = String} (record { waiting = just_b; running = just_a; finished = [] })
        ⊎ ((h : Group String) × Step
              (pos 1)
              (record { waiting = just_b; running = just_a; finished = [] })
              h))
schedule_ends_example = schedule_ends second_running

abbrev pub pair : List Target
pair =
    record { cfg = cluster "pve1"; client = client }
    ∷ record { cfg = cluster "pve2"; client = client }
    ∷ []

abbrev pub collector : Collector
collector = record {
  targets = pair;
  store = new_snapshot_store;
  interval = pos 30;
  timeout = pos 25;
  toggles = toggles;
  max_concurrent = pos 2;
}

-- Both run, and the second one finishes first.
abbrev pub crossed : Group ℕ
crossed = record { waiting = []; running = []; finished = 1 ∷ 0 ∷ [] }

pub crossed_schedule : Reach (pos 2) (launch (indices 0 pair)) crossed
unfolding indices
crossed_schedule =
    next
      (next (next (next here (start 0 (1 ∷ []) refl refl refl)) (start 1 [] refl refl refl))
        (finish [] 1 (0 ∷ []) refl refl))
      (finish [] 0 [] refl refl)

pub crossed-IsDone : IsDone crossed
crossed-IsDone = record { none_waiting = refl; none_running = refl }

collect_all-each_example : collect_all visits (1 ∷ 0 ∷ []) collector ≡ (
  build_snapshot (map result_of (poll_each visits toggles 0 pair)),
  record collector { targets = advance pair (poll_each visits toggles 0 pair) },
)
collect_all-each_example = collect_all-each visits collector crossed_schedule crossed-IsDone

run-swap_example :
    (d : Collector) × (run ([] ++ swap pair ∷ tick visits (1 ∷ 0 ∷ []) ∷ []) collector ≡ stopped d)
    × (load d.store ≡ build_snapshot (map result_of (poll_each visits toggles 0 pair)))
    × (d.targets ≡ advance pair (poll_each visits toggles 0 pair))
run-swap_example = run-swap [] pair visits collector refl crossed_schedule crossed-IsDone

collect_all-HasKeys_example :
    All (HasKeys "pve_up") (samples_for (collect_all visits (1 ∷ 0 ∷ []) collector).0 "pve_up")
collect_all-HasKeys_example = collect_all-HasKeys visits (1 ∷ 0 ∷ []) collector "pve_up"

-- The same replies, with the nodes the other way round.
abbrev turned : ℕ → Visit
turned i = record (visits i) { order = λ nodes. reverse nodes }

order_given : (i : ℕ) (nodes : List String) → Perm ((visits i).order nodes) nodes
order_given zero nodes = Perm.refl nodes
order_given (suc i) nodes = Perm.refl nodes

turned-SameVisit : (i : ℕ) → SameVisit (visits i) (turned i)
turned-SameVisit i = record {
  remote = refl;
  clock = refl;
  left = order_given i;
  right = λ nodes. reverse_perm nodes;
}

-- The first one finishes first.
abbrev straight : Group ℕ
straight = record { waiting = []; running = []; finished = 0 ∷ 1 ∷ [] }

straight_schedule : Reach (pos 2) (launch (indices 0 pair)) straight
unfolding indices
straight_schedule =
    next
      (next (next (next here (start 0 (1 ∷ []) refl refl refl)) (start 1 [] refl refl refl))
        (finish (1 ∷ []) 0 [] refl refl))
      (finish [] 1 [] refl refl)

straight-IsDone : IsDone straight
straight-IsDone = record { none_waiting = refl; none_running = refl }

collect_all-SameCycle_example :
    SameCycle
      (collect_all visits (1 ∷ 0 ∷ []) collector)
      (collect_all turned (0 ∷ 1 ∷ []) collector)
collect_all-SameCycle_example =
    collect_all-SameCycle visits turned collector turned-SameVisit crossed_schedule crossed-IsDone
      straight_schedule straight-IsDone

collect_target-Tally_example :
    ((n : ℕ) × Counts down_remote (collect_target down_remote toggles "pve1" clock (λ l. l)) n)
    × (is_counted false (down_remote.http "/cluster/resources") ≡ true
        → (c : Client)
        → (collect_target down_remote toggles "pve1" clock (λ l. l) c).1 ≡ count_error c)
collect_target-Tally_example = collect_target-Tally down_remote toggles "pve1" clock (λ l. l)

abbrev two_ticks : List Event
two_ticks = tick visits (1 ∷ 0 ∷ []) ∷ tick visits (0 ∷ []) ∷ []

handle_all-AreCounted_example :
    AreCounted toggles
      (λ k. visits_of k two_ticks)
      0
      collector.targets
      (handle_all two_ticks collector).targets
handle_all-AreCounted_example = handle_all-AreCounted two_ticks collector (tt, (tt, tt))
