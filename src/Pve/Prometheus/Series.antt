-- ===== src/Pve/Prometheus/Series.antt =====
-- internal/pve/prometheus.go: the guard against duplicate series.
pub mod Gather
use pve_exporter.Base.{
  String, ◌≡◌, refl, ◌∙◌, false, not, ◌&&◌, Option, none, some, List, [], ◌∷◌, map, arith, ◌==◌,
  eq_iff, eq_refl, All, All-weaken, Bool-cases, if◌then◌else◌, inl, inr,
}
use pve_exporter.Base.Dict.{contains}
use pve_exporter.Base.Distinct.{IsDistinct}
use pve_exporter.Base.Float.{Float64}
use pve_exporter.Pve.Metrics.{Sample}
use pve_exporter.Pve.Prometheus.{Desc, ValueType, signature, metric_of, emit, collect_samples}

abbrev pub signatures : List Sample → List String
signatures = map signature

-- The first sample with a signature.
abbrev pub first_with : String → List Sample → Option Sample
first_with sig [] = none
first_with sig (s ∷ samples) = if signature s == sig then some s else first_with sig samples

abbrev pub IsFirst : List Sample → Sample → Type 0
IsFirst samples s = first_with (signature s) samples ≡ some s

kept : List String → List Sample → List Sample
kept seen [] = []
kept seen (s ∷ samples) =
    let skipped = kept seen samples in
    let rest = kept (signature s ∷ seen) samples in
    if contains (signature s) seen then skipped else s ∷ rest

-- What `kept` takes from a list.
abbrev IsFresh : List String → List Sample → Sample → Type 0
IsFresh seen samples k = (contains (signature k) seen ≡ false) × IsFirst samples k

kept-contains :
    (samples : List Sample) (seen : List String) (x : String)
    → contains x (signatures (kept seen samples))
      ≡ (contains x (signatures samples) && not (contains x seen))
unfolding kept contains
kept-contains [] seen x = refl
kept-contains (s ∷ samples) seen x = ground (
  arith,
  kept-contains samples seen x,
  kept-contains samples (signature s ∷ seen) x,
  eq_iff (signature s) x,
)

kept-IsDistinct :
    (samples : List Sample) (seen : List String) → IsDistinct (signatures (kept seen samples))
unfolding kept
kept-IsDistinct [] seen = tt
kept-IsDistinct (s ∷ samples) seen = elim (Bool-cases (contains (signature s) seen)) [
  | inl e ↦ rw e (kept-IsDistinct samples seen)
  | inr e ↦ rw e (
    kept-contains samples (signature s ∷ seen) (signature s)
        ∙ unfold contains in ground (arith, eq_refl (signature s)),
    kept-IsDistinct samples (signature s ∷ seen),
  )
]

kept-IsFresh :
    (samples : List Sample) (seen : List String) → All (IsFresh seen samples) (kept seen samples)
unfolding kept contains
kept-IsFresh [] seen = tt
kept-IsFresh (s ∷ samples) seen = elim (Bool-cases (contains (signature s) seen)) [
  | inl e ↦ rw e (
      All-weaken (IsFresh seen samples) (IsFresh seen (s ∷ samples))
        (λ k h. (h.0, ground (arith, e, h.0, h.1, eq_iff (signature s) (signature k)))) _
        (kept-IsFresh samples seen))
  | inr e ↦ rw e (
    (e, rw eq_refl refl),
    All-weaken (IsFresh (signature s ∷ seen) samples) (IsFresh seen (s ∷ samples))
        (λ k h. (ground (arith, h.0), ground (arith, h.0, h.1))) _
        (kept-IsFresh samples (signature s ∷ seen)),
  )
]

-- No two of `ks` have one signature, every signature of the samples is among theirs, and each of
-- them is the first of the samples with its signature.
abbrev pub AreFirst : List Sample → List Sample → Type 0
AreFirst samples ks =
    IsDistinct (signatures ks)
    × ((sig : String) → contains sig (signatures ks) ≡ contains sig (signatures samples))
    × All (IsFirst samples) ks

kept-AreFirst : (samples : List Sample) → AreFirst samples (kept [] samples)
kept-AreFirst samples = (
  kept-IsDistinct samples [],
  λ sig. kept-contains samples [] sig ∙ unfold contains in ground arith,
  All-weaken (IsFresh [] samples) (IsFirst samples) (λ k h. h.1) _ (kept-IsFresh samples []),
)

module _ {M : Type 0} (new_const_metric : Desc → ValueType → Float64 → List String → Option M) where
  abbrev pub emit_all : List Sample → List M
  emit_all [] = []
  emit_all (s ∷ samples) = emit (metric_of new_const_metric s) (emit_all samples)

  collect_samples-kept :
      (samples : List Sample) (seen : List String)
      → collect_samples new_const_metric seen samples ≡ emit_all (kept seen samples)
  unfolding collect_samples kept
  collect_samples-kept [] seen = refl
  collect_samples-kept (s ∷ samples) seen =
      ground (
        arith,
        collect_samples-kept samples seen,
        collect_samples-kept samples (signature s ∷ seen),
      )

  -- What is emitted for one name comes from some of its samples: no two of these have one
  -- signature, every signature of the samples is among theirs, and each is the first sample with
  -- its signature.
  pub collect_samples-IsDistinct :
      (samples : List Sample)
      → (ks : List Sample) × (collect_samples new_const_metric [] samples ≡ emit_all ks)
        × AreFirst samples ks
  collect_samples-IsDistinct samples =
      (kept [] samples, collect_samples-kept samples [], kept-AreFirst samples)
