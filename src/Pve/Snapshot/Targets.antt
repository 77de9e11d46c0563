-- ===== src/Pve/Snapshot/Targets.antt =====
-- internal/pve/snapshot.go: the per-target view of a snapshot.
use pve_exporter.Base.{
  String, ◌≡◌, refl, ◌∙◌, Option, none, some, List, [], ◌∷◌, ◌==◌, if◌then◌else◌,
}
use pve_exporter.Base.Dict.{lookup, lookup-insert, lookup-nil}
use pve_exporter.Pve.Metrics.{Sample}
use pve_exporter.Pve.Snapshot.{
  TargetSnapshot, Snapshot, empty, index_sample, index_samples, index_target, index_targets,
  build_snapshot, targets,
}

-- The last result under a name, `old` where there is none.
abbrev pub last_of :
    String → Option TargetSnapshot → List (Option TargetSnapshot) → Option TargetSnapshot
last_of name old [] = old
last_of name old (none ∷ ts) = last_of name old ts
last_of name old (some t ∷ ts) = last_of name (if t.cluster == name then some t else old) ts

targets-index_samples : (xs : List Sample) (s : Snapshot) → targets (index_samples s xs) ≡ targets s
unfolding targets index_samples
targets-index_samples [] s = refl
targets-index_samples (x ∷ xs) s =
    targets-index_samples xs (index_sample s x) ∙ unfold index_sample in refl

targets-index_targets :
    (ts : List (Option TargetSnapshot)) (s : Snapshot) (name : String)
    → lookup name (targets (index_targets s ts)) ≡ last_of name (lookup name (targets s)) ts
unfolding index_targets
targets-index_targets [] s name = refl
targets-index_targets (none ∷ ts) s name = unfold index_target in targets-index_targets ts s name
targets-index_targets (some t ∷ ts) s name =
    rw (targets-index_targets ts)
      (unfold index_target in rw targets-index_samples (unfold targets in rw lookup-insert))

-- For every name, the per-target view has the result of the last target with that name, and
-- nothing where no target has it; a nil result is passed over.
pub targets-build_snapshot :
    (ts : List (Option TargetSnapshot)) (name : String)
    → lookup name (targets (build_snapshot ts)) ≡ last_of name none ts
unfolding build_snapshot
targets-build_snapshot ts name =
    targets-index_targets ts empty name ∙ unfold targets empty in rw lookup-nil
