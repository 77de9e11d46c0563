-- ===== src/Examples/Polls.antt =====
-- Runs of one poll.
use pve_exporter.Base.{◌≡◌, false, All, ◌+◌, ◌%◌, ◌^◌, [], List, ◌++◌, refl}
use pve_exporter.Pve.Metrics.{ha_node_states, Sample, SampleSet}
use pve_exporter.Pve.Metrics.Labels.{Conforms}
use pve_exporter.Pve.Client.{fetch}
use pve_exporter.Pve.Client.Counting.{fetch_counts}
use pve_exporter.Pve.Collector.{collect_target}
use pve_exporter.Pve.Collector.Labels.{collect_target-Conforms}
use pve_exporter.Pve.Collector.Degraded.{EndsWithPoll, collect_target-EndsWithPoll}
use pve_exporter.Base.Dict.{contains}
use pve_exporter.Base.Distinct.{IsDistinct}
use pve_exporter.Pve.Snapshot.Index.{named}
use pve_exporter.Pve.Resources.{collect_resources, add_state_enum}
use pve_exporter.Pve.Resources.Values.{cpu, metric_of, values, named-collect_resources}
use pve_exporter.Pve.Resources.OneHot.{OneHot, add_state_enum-OneHot}
use pve_exporter.Examples.{up_remote, down_remote, client, toggles, clock, in_order, rows}

collect_target-Conforms_example :
    All (Conforms "pve1") (collect_target up_remote toggles "pve1" clock in_order client).0.samples
collect_target-Conforms_example =
    collect_target-Conforms up_remote toggles "pve1" clock in_order client

collect_target-EndsWithPoll_example :
    EndsWithPoll "pve1" clock (collect_target down_remote toggles "pve1" clock in_order client)
collect_target-EndsWithPoll_example =
    collect_target-EndsWithPoll down_remote toggles "pve1" clock in_order client

fetch_counts_example :
    (fetch up_remote up_remote.codec.ha_status [] false "/cluster/ha/status/current" client).1
    ≡ record client { request_errors = (client.request_errors + 1) % 2 ^ 64 }
fetch_counts_example =
    fetch_counts up_remote up_remote.codec.ha_status [] false "/cluster/ha/status/current" client

abbrev new_set : SampleSet
new_set = record { cluster = "prod"; out = [] }

named-collect_resources_example :
    named (metric_of cpu) (collect_resources new_set rows).out
    ≡ named (metric_of cpu) new_set.out ++ values cpu new_set.cluster rows
named-collect_resources_example = named-collect_resources cpu rows new_set

ha_node_states-IsDistinct : IsDistinct ha_node_states
unfolding contains
ha_node_states-IsDistinct = (refl, (refl, (refl, (refl, (refl, tt)))))

add_state_enum-OneHot_example :
    (more : List Sample) × ((add_state_enum new_set "pve_ha_node_state" "node/a" "fence"
        ha_node_states).out
      ≡ new_set.out ++ more)
    × OneHot new_set.cluster "pve_ha_node_state" "node/a" "fence" ha_node_states more
add_state_enum-OneHot_example =
    add_state_enum-OneHot "pve_ha_node_state" "node/a" "fence" ha_node_states new_set
      ha_node_states-IsDistinct
