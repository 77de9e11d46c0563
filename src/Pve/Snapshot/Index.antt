-- ===== src/Pve/Snapshot/Index.antt =====
-- internal/pve/snapshot.go: the index by name against the list of all samples.
use pve_exporter.Base.{
  String, ◌≡◌, refl, sym, ◌∙◌, ap, Option, none, some, List, [], ◌∷◌, ◌++◌, append-nil,
  append_assoc, select, select-append, arith, ◌==◌, eq_iff,
}
use pve_exporter.Base.Dict.{lookup, insert, lookup-insert, lookup-nil}
use pve_exporter.Pve.Metrics.{Sample}
use pve_exporter.Pve.Snapshot.{
  TargetSnapshot, Snapshot, empty, or_nil, index_sample, index_samples, index_target, index_targets,
  build_snapshot, samples_for,
}

-- The samples of the targets that were polled, one target after the other.
abbrev pub all_samples : List (Option TargetSnapshot) → List Sample
all_samples [] = []
all_samples (none ∷ targets) = all_samples targets
all_samples (some t ∷ targets) = t.samples ++ all_samples targets

abbrev pub named : String → List Sample → List Sample
named name = select (λ s. s.name == name)

samples_for-index_sample :
    (s : Snapshot) (x : Sample) (name : String)
    → samples_for (index_sample s x) name ≡ samples_for s name ++ named name (x ∷ [])
unfolding samples_for index_sample
samples_for-index_sample s x name = ground (
  arith,
  lookup-insert x.name name (or_nil (lookup x.name s.by_name) ++ x ∷ []) s.by_name,
  eq_iff x.name name,
  append-nil (or_nil (lookup name s.by_name)),
)

samples_for-index_samples :
    (xs : List Sample) (s : Snapshot) (name : String)
    → samples_for (index_samples s xs) name ≡ samples_for s name ++ named name xs
unfolding index_samples
samples_for-index_samples [] s name = rw append-nil
samples_for-index_samples (x ∷ xs) s name =
    rw (samples_for-index_samples xs, samples_for-index_sample)
      (append_assoc (samples_for s name) (named name (x ∷ [])) (named name xs)
        ∙ ap (λ l. samples_for s name ++ l) (sym (select-append (λ s. s.name == name) (x ∷ []) xs)))

samples_for-index_target :
    (t : TargetSnapshot) (s : Snapshot) (name : String)
    → samples_for (index_target s (some t)) name ≡ samples_for s name ++ named name t.samples
unfolding index_target
samples_for-index_target t s name =
    samples_for-index_samples t.samples (record s { per_target = insert t.cluster t s.per_target })
      name
    ∙ unfold samples_for in refl

samples_for-index_targets :
    (ts : List (Option TargetSnapshot)) (s : Snapshot) (name : String)
    → samples_for (index_targets s ts) name ≡ samples_for s name ++ named name (all_samples ts)
unfolding index_targets
samples_for-index_targets [] s name = rw append-nil
samples_for-index_targets (none ∷ ts) s name =
    unfold index_target in samples_for-index_targets ts s name
samples_for-index_targets (some t ∷ ts) s name =
    rw (samples_for-index_targets ts, samples_for-index_target)
      (append_assoc (samples_for s name) (named name t.samples) (named name (all_samples ts))
        ∙ ap (λ l. samples_for s name ++ l)
            (sym (select-append (λ s. s.name == name) t.samples (all_samples ts))))

pub samples_for-empty : (name : String) → samples_for empty name ≡ []
unfolding samples_for empty
samples_for-empty name = ap or_nil (lookup-nil name)

-- For every metric name, the snapshot returns exactly the samples of the cycle that have the name,
-- in the order of the targets and within a target in the order of its samples.
pub samples_for-build_snapshot :
    (ts : List (Option TargetSnapshot)) (name : String)
    → samples_for (build_snapshot ts) name ≡ named name (all_samples ts)
unfolding build_snapshot
samples_for-build_snapshot ts name =
    samples_for-index_targets ts empty name
    ∙ ap (λ l. l ++ named name (all_samples ts)) (samples_for-empty name)
