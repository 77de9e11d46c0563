-- ===== src/Pve/Prometheus/Series/Gather.antt =====
-- internal/pve/prometheus.go: what one scrape emits of a cycle.
use mathlib.Core.Path.{subst}
use pve_exporter.Base.{
  String, ◌≡◌, refl, sym, ap, ◌∙◌, Bool, true, false, not, Option, none, some, List, [], ◌∷◌, ◌++◌,
  append-nil, select-append, arith, ◌==◌, eq_iff, All, Bool-cases, if◌then◌else◌, inl, inr,
}
use pve_exporter.Base.Dict.{contains}
use pve_exporter.Base.Distinct.{IsDistinct}
use pve_exporter.Base.Float.{Float64}
use pve_exporter.Pve.Metrics.{Sample}
use pve_exporter.Pve.Snapshot.{SnapshotStore, TargetSnapshot, load, build_snapshot, metric_names}
use pve_exporter.Pve.Snapshot.Index.{all_samples, named, samples_for-build_snapshot}
use pve_exporter.Pve.Snapshot.Names.{is_empty, metric_names-build_snapshot}
use pve_exporter.Pve.Prometheus.{
  Desc, ValueType, signature, metric_of, emit, collect_names, collect,
}
use pve_exporter.Pve.Prometheus.Series.{
  AreFirst, kept, kept-AreFirst, emit_all, collect_samples-kept,
}

abbrev HasName : String → Sample → Type 0
HasName name s = s.name ≡ name

select-cases :
    (name : String) (s : Sample) (samples : List Sample) (same : Bool)
    → (s.name == name) ≡ same
    → All (HasName name) samples
    → All (HasName name) (elim same [ true ↦ s ∷ samples | false ↦ samples ])
select-cases name s samples true e h = ((eq_iff s.name name).0 e, h)
select-cases name s samples false e h = h

named-HasName : (name : String) (samples : List Sample) → All (HasName name) (named name samples)
named-HasName name [] = tt
named-HasName name (s ∷ samples) =
    select-cases name s (named name samples) _ refl (named-HasName name samples)

kept-All :
    (P : Sample → Type 0) (samples : List Sample) (seen : List String)
    → All P samples
    → All P (kept seen samples)
unfolding kept
kept-All P [] seen h = tt
kept-All P (s ∷ samples) seen h = elim (Bool-cases (contains (signature s) seen)) [
  | inl e ↦ rw e (kept-All P samples seen h.1)
  | inr e ↦ rw e (h.0, kept-All P samples (signature s ∷ seen) h.1)
]

named-same :
    (name : String) (samples : List Sample)
    → All (HasName name) samples
    → named name samples ≡ samples
named-same name [] h = refl
named-same name (s ∷ samples) h =
    ground (arith, (eq_iff s.name name).1 h.0, named-same name samples h.1)

named-other :
    (name other : String) (samples : List Sample)
    → (name == other) ≡ false
    → All (HasName name) samples
    → named other samples ≡ []
named-other name other [] e h = refl
named-other name other (s ∷ samples) e h =
    ground (arith, ap (λ n. n == other) h.0, e, named-other name other samples e h.1)

-- A name without samples contributes none.
kept-if :
    (samples : List Sample) (b : Bool)
    → b ≡ not (is_empty samples)
    → (if b then kept [] samples else []) ≡ kept [] samples
unfolding kept
kept-if [] true h = refl
kept-if [] false h = refl
kept-if (s ∷ samples) true h = refl
kept-if (s ∷ samples) false h = ground (arith, h)

-- One pass over the names.
module _ (samples : List Sample) where
  gather : List String → List Sample
  gather [] = []
  gather (name ∷ names) = kept [] (named name samples) ++ gather names

  -- What one name contributes under another.
  named-kept :
      (name n : String)
      → named n (kept [] (named name samples))
        ≡ (if name == n then kept [] (named n samples) else [])
  named-kept name n = elim (Bool-cases (name == n)) [
    | inl e ↦ rw e (
        subst (λ m. named m (kept [] (named name samples)) ≡ kept [] (named m samples))
          ((eq_iff name n).0 e) (named-same name _ own))
    | inr e ↦ rw e (named-other name n _ e own)
  ]
    where
      own : All (HasName name) (kept [] (named name samples))
      own = kept-All (HasName name) _ [] (named-HasName name samples)

  gather-named :
      (names : List String) (n : String)
      → IsDistinct names
      → named n (gather names) ≡ (if contains n names then kept [] (named n samples) else [])
  unfolding gather contains
  gather-named [] n d = refl
  gather-named (name ∷ names) n d =
      select-append (λ s. s.name == n) (kept [] (named name samples)) (gather names)
      ∙ ground (
        arith,
        d.0,
        eq_iff name n,
        named-kept name n,
        gather-named names n d.1,
        append-nil (kept [] (named n samples)),
      )

module _ {M : Type 0} (new_const_metric : Desc → ValueType → Float64 → List String → Option M) where
  emit_all-append :
      (xs ys : List Sample)
      → emit_all new_const_metric (xs ++ ys)
        ≡ emit_all new_const_metric xs ++ emit_all new_const_metric ys
  emit_all-append [] ys = refl
  emit_all-append (x ∷ xs) ys =
      ap (emit (metric_of new_const_metric x)) (emit_all-append xs ys)
      ∙ sym (emit-append (metric_of new_const_metric x) (emit_all new_const_metric xs) _)
    where
      emit-append : (m : Option M) (ms ns : List M) → emit m ms ++ ns ≡ emit m (ms ++ ns)
      emit-append none ms ns = refl
      emit-append (some m) ms ns = refl

  collect_names-gather :
      (ts : List (Option TargetSnapshot)) (names : List String)
      → collect_names new_const_metric (build_snapshot ts) names
        ≡ emit_all new_const_metric (gather (all_samples ts) names)
  unfolding collect_names gather
  collect_names-gather ts [] = refl
  collect_names-gather ts (name ∷ names) =
      rw
        (
          samples_for-build_snapshot ts name,
          collect_samples-kept new_const_metric (named name (all_samples ts)) [],
          collect_names-gather ts names,
        )
        (sym
          (emit_all-append (kept [] (named name (all_samples ts))) (gather (all_samples ts) names)))

  -- What a scrape emits of the snapshot of a cycle comes from some of its samples, and for each
  -- metric name: no two of these have one signature, so that no series comes twice; every signature
  -- that a sample of the cycle has under the name is among theirs; and each is the first sample of
  -- the name with its signature.
  pub collect-IsDistinct :
      (ts : List (Option TargetSnapshot)) (store : SnapshotStore)
      → load store ≡ build_snapshot ts
      → (ks : List Sample) × (collect new_const_metric store ≡ emit_all new_const_metric ks)
        × ((n : String) → AreFirst (named n (all_samples ts)) (named n ks))
  unfolding collect
  collect-IsDistinct ts store at = (
    gather (all_samples ts) names,
    rw at (collect_names-gather ts names),
    λ n.
        subst (AreFirst (named n (all_samples ts))) (sym (gathered n))
          (kept-AreFirst (named n (all_samples ts))),
  )
    where
      names : List String
      names = metric_names (build_snapshot ts)

      gathered :
          (n : String)
          → named n (gather (all_samples ts) names) ≡ kept [] (named n (all_samples ts))
      gathered n =
          gather-named (all_samples ts) names n (metric_names-build_snapshot ts).0
          ∙ kept-if (named n (all_samples ts)) (contains n names)
              ((metric_names-build_snapshot ts).1 n)
