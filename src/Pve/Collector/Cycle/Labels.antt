-- ===== src/Pve/Collector/Cycle/Labels.antt =====
-- internal/pve/collector.go: the label keys of what a cycle publishes.
use mathlib.Core.Path.{subst}
use pve_exporter.Base.{
  ℕ, zero, suc, String, ◌≡◌, refl, sym, ap, Bool, true, false, none, some, List, [], ◌∷◌, map, All,
  All-append, All-weaken, ◌==◌, eq_iff,
}
use pve_exporter.Models.Config.{CollectorToggles}
use pve_exporter.Pve.Metrics.{Sample}
use pve_exporter.Pve.Metrics.Labels.{Conforms, label_keys, keys}
use pve_exporter.Pve.Snapshot.{samples_for}
use pve_exporter.Pve.Snapshot.Index.{all_samples, named, samples_for-build_snapshot}
use pve_exporter.Pve.Collector.{Target}
use pve_exporter.Pve.Collector.Labels.{collect_target-Conforms}
use pve_exporter.Pve.Collector.Cycle.{
  Collector, Visit, Slot, poll, no_results, set_result, collect_targets, result_of, collect_all,
}

-- A sample that conforms under the name of some target.
record IsLabelled (s : Sample) : Type 0 where
  cluster : String
  conforms : Conforms cluster s

-- The label keys of a metric's sample: "cluster", and those of the reference.
pub record HasKeys (name : String) (s : Sample) : Type 0 where
  pub rest : List String
  pub known : label_keys name ≡ some rest
  pub same : keys s.labels ≡ "cluster" ∷ rest

abbrev SlotIsLabelled : Slot → Type 0
SlotIsLabelled none = Unit
SlotIsLabelled (some (t, c)) = All IsLabelled t.samples

module _ (visits : ℕ → Visit) (toggles : CollectorToggles) where
  poll-SlotIsLabelled : (i : ℕ) (t : Target) → SlotIsLabelled (some (poll visits toggles i t))
  unfolding poll
  poll-SlotIsLabelled i t =
      All-weaken (Conforms t.cfg.name) IsLabelled
        (λ s h. record { cluster = t.cfg.name; conforms = h }) _
        (collect_target-Conforms (visits i).remote toggles t.cfg.name (visits i).clock
          (visits i).order t.client)

  set_result-SlotIsLabelled :
      (i : ℕ) (targets : List Target) (k : ℕ) (slots : List Slot)
      → All SlotIsLabelled slots
      → All SlotIsLabelled (set_result visits toggles i targets k slots)
  unfolding set_result
  set_result-SlotIsLabelled i [] k slots h = h
  set_result-SlotIsLabelled i (t ∷ targets) k [] h = tt
  set_result-SlotIsLabelled i (t ∷ targets) zero (slot ∷ slots) h = (poll-SlotIsLabelled i t, h.1)
  set_result-SlotIsLabelled i (t ∷ targets) (suc k) (slot ∷ slots) h =
      (h.0, set_result-SlotIsLabelled (suc i) targets k slots h.1)

  collect_targets-SlotIsLabelled :
      (targets : List Target) (finished : List ℕ) (slots : List Slot)
      → All SlotIsLabelled slots
      → All SlotIsLabelled (collect_targets visits toggles targets finished slots)
  unfolding collect_targets
  collect_targets-SlotIsLabelled targets [] slots h = h
  collect_targets-SlotIsLabelled targets (k ∷ finished) slots h =
      collect_targets-SlotIsLabelled targets finished _
        (set_result-SlotIsLabelled zero targets k slots h)

no_results-SlotIsLabelled : (targets : List Target) → All SlotIsLabelled (no_results targets)
no_results-SlotIsLabelled [] = tt
no_results-SlotIsLabelled (t ∷ targets) = (tt, no_results-SlotIsLabelled targets)

all_samples-IsLabelled :
    (slots : List Slot)
    → All SlotIsLabelled slots
    → All IsLabelled (all_samples (map result_of slots))
all_samples-IsLabelled [] h = tt
all_samples-IsLabelled (none ∷ slots) h = all_samples-IsLabelled slots h.1
all_samples-IsLabelled (some (t, c) ∷ slots) h =
    All-append IsLabelled t.samples _ h.0 (all_samples-IsLabelled slots h.1)

HasKeys-IsLabelled : (s : Sample) → IsLabelled s → HasKeys s.name s
HasKeys-IsLabelled s h = record {
  rest = keys h.conforms.rest;
  known = h.conforms.known;
  same = ap keys h.conforms.first;
}

HasKeys-cons :
    (name : String) (s : Sample) (samples : List Sample) (same : Bool)
    → (s.name == name) ≡ same
    → IsLabelled s
    → All (HasKeys name) samples
    → All (HasKeys name) (elim same [ true ↦ s ∷ samples | false ↦ samples ])
HasKeys-cons name s samples true e h k =
    (subst (λ n. HasKeys n s) ((eq_iff s.name name).0 e) (HasKeys-IsLabelled s h), k)
HasKeys-cons name s samples false e h k = k

named-HasKeys :
    (name : String) (samples : List Sample)
    → All IsLabelled samples
    → All (HasKeys name) (named name samples)
named-HasKeys name [] h = tt
named-HasKeys name (s ∷ samples) h =
    HasKeys-cons name s (named name samples) _ refl h.0 (named-HasKeys name samples h.1)

-- Whatever the targets reply, in whatever order their goroutines finish and whether all of them do,
-- the snapshot of a cycle has under each metric name only samples with the same label keys:
-- "cluster" first, and behind it those that the reference gives for the name, but for
-- pve_subscription_status, which has "state" in the place of the reference's "status".
pub collect_all-HasKeys :
    (visits : ℕ → Visit) (finished : List ℕ) (c : Collector) (name : String)
    → All (HasKeys name) (samples_for (collect_all visits finished c).0 name)
unfolding collect_all
collect_all-HasKeys visits finished c name =
    subst (All (HasKeys name)) (sym (samples_for-build_snapshot (map result_of slots) name)) (
      named-HasKeys name _ (
        all_samples-IsLabelled slots (
          collect_targets-SlotIsLabelled visits c.toggles c.targets finished _
            (no_results-SlotIsLabelled c.targets))))
  where
    slots : List Slot
    slots = collect_targets visits c.toggles c.targets finished (no_results c.targets)
