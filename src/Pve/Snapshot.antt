-- ===== src/Pve/Snapshot.antt =====
-- internal/pve/snapshot.go: the indexed view of a cycle, and the store that publishes it.
pub mod Index
pub mod Names
pub mod Targets
pub mod Bags
use pve_exporter.Base.{ℕ, String, Bool, Option, none, some, List, [], ◌∷◌, ◌++◌}
use pve_exporter.Base.Dict.{Dict, lookup, insert}
use pve_exporter.Pve.Metrics.{Sample}

pub record TargetSnapshot : Type 0 where
  pub cluster : String
  pub up : Bool
  pub scrape_error : String
  pub last_scrape : ℕ  -- time.Time, in nanoseconds
  pub samples : List Sample

pub record Snapshot : Type 0 where
  pub per_target : Dict TargetSnapshot
  pub by_name : Dict (List Sample)
  pub names : List String

unfoldable pub empty : Snapshot
empty = record { per_target = []; by_name = []; names = [] }

-- A key that the index lacks reads as the nil slice.
abbrev pub or_nil : Option (List Sample) → List Sample
or_nil none = []
or_nil (some xs) = xs

-- A name that is new to the index goes to the end of the names.
new_name : List String → String → Option (List Sample) → List String
new_name names name none = names ++ name ∷ []
new_name names name (some xs) = names

unfoldable pub index_sample : Snapshot → Sample → Snapshot
unfolding new_name
index_sample s sample = record s {
  names = new_name s.names sample.name (lookup sample.name s.by_name);
  by_name = insert sample.name (or_nil (lookup sample.name s.by_name) ++ sample ∷ []) s.by_name;
}

unfoldable pub index_samples : Snapshot → List Sample → Snapshot
unfolding index_sample
index_samples s [] = s
index_samples s (x ∷ xs) = index_samples (index_sample s x) xs

-- One round of the loop; a nil target is skipped.
unfoldable pub index_target : Snapshot → Option TargetSnapshot → Snapshot
unfolding index_samples
index_target s none = s
index_target s (some t) =
    index_samples (record s { per_target = insert t.cluster t s.per_target }) t.samples

unfoldable pub index_targets : Snapshot → List (Option TargetSnapshot) → Snapshot
unfolding index_target
index_targets s [] = s
index_targets s (t ∷ targets) = index_targets (index_target s t) targets

unfoldable pub build_snapshot : List (Option TargetSnapshot) → Snapshot
unfolding empty index_targets
build_snapshot targets = index_targets empty targets

unfoldable pub metric_names : Snapshot → List String
metric_names s = s.names

unfoldable pub samples_for : Snapshot → String → List Sample
samples_for s name = or_nil (lookup name s.by_name)

unfoldable pub targets : Snapshot → Dict TargetSnapshot
targets s = s.per_target

-- The store is a pointer behind a lock: each operation is one step.
pub record SnapshotStore : Type 0 where
  pub current : Snapshot

unfoldable pub new_snapshot_store : SnapshotStore
unfolding build_snapshot
new_snapshot_store = record { current = build_snapshot [] }

unfoldable pub load : SnapshotStore → Snapshot
load s = s.current

unfoldable pub store : SnapshotStore → Snapshot → SnapshotStore
store s snap = record s { current = snap }
