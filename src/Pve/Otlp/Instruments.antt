-- ===== src/Pve/Otlp/Instruments.antt =====
-- internal/pve/otlp.go: the instruments and what a push reads.
use pve_exporter.Base.{
  String, ◌≡◌, refl, sym, ap, ◌∙◌, true, false, ◌||◌, Option, none, List, [], ◌∷◌, map, arith,
  eq_iff, Bool-cases, Option-cases, inl, inr,
}
use pve_exporter.Base.Dict.{contains}
use pve_exporter.Base.Distinct.{IsDistinct, IsDistinct-append, contains-append, contains-singleton}
use pve_exporter.Pve.Snapshot.{TargetSnapshot, SnapshotStore, build_snapshot, load, metric_names}
use pve_exporter.Pve.Snapshot.Index.{all_samples, named, samples_for-build_snapshot}
use pve_exporter.Pve.Snapshot.Names.{is_empty, metric_names-build_snapshot}
use pve_exporter.Pve.Otlp.{
  OtlpExporter, register, observe, observations, ensure_names, ensure_instruments,
}

-- The meter has exactly the instruments of the registered names, each once.
pub record IsConsistent (e : OtlpExporter) : Type 0 where
  pub distinct : IsDistinct e.instruments
  pub same : (n : String) → contains n e.registered ≡ contains n e.instruments

register-IsConsistent :
    (name : String) (e : OtlpExporter)
    → contains name e.registered ≡ false
    → IsConsistent e
    → IsConsistent (register name e)
unfolding register
register-IsConsistent name e new h = record {
  distinct = IsDistinct-append e.instruments name h.distinct (sym (h.same name) ∙ new);
  same = λ n.
      unfold contains in
      ground
        (arith, h.same n, contains-append n e.instruments (name ∷ []), contains-singleton n name);
}

is_empty-nil {ℓ} : {A : Type ℓ} (xs : List A) → is_empty xs ≡ true → xs ≡ []
is_empty-nil [] h = refl
is_empty-nil (x ∷ xs) h = ground arith

module _ {E : Type 0} (gauge : String → Option E) where
  ensure_names-IsConsistent :
      (names : List String) (e : OtlpExporter)
      → IsConsistent e
      → IsConsistent (ensure_names gauge names e).0
  unfolding ensure_names
  ensure_names-IsConsistent [] e h = h
  ensure_names-IsConsistent (name ∷ names) e h = elim (Bool-cases (contains name e.registered)) [
    | inl t ↦ rw t (ensure_names-IsConsistent names e h)
    | inr f ↦ elim (Option-cases (gauge name)) [
      | inl taken ↦
          rw (f, taken)
            (ensure_names-IsConsistent names (register name e) (register-IsConsistent name e f h))
      | inr (failure, q) ↦ rw (f, q) h
    ]
  ]

  -- Whether the registration succeeds or stops at an error, the meter has exactly the instruments
  -- of the registered names afterwards, each once, if it had before.
  pub ensure_instruments-IsConsistent :
      (store : SnapshotStore) (e : OtlpExporter)
      → IsConsistent e
      → IsConsistent (ensure_instruments gauge store e).0
  unfolding ensure_instruments
  ensure_instruments-IsConsistent store e h = ensure_names-IsConsistent _ e h

  ensure_names-contains :
      (names : List String) (e : OtlpExporter) (n : String)
      → (ensure_names gauge names e).1 ≡ none
      → contains n (ensure_names gauge names e).0.registered
        ≡ (contains n e.registered || contains n names)
  unfolding ensure_names contains register
  ensure_names-contains [] e n ok = ground arith
  ensure_names-contains (name ∷ names) e n ok = ground (
    arith,
    ok,
    ensure_names-contains names e n,
    ensure_names-contains names (register name e) n,
    eq_iff name n,
  )

  -- After a registration without an error on the snapshot of some results, a push on that snapshot
  -- observes under each name all samples of that name, of all targets that were polled, in order.
  pub observations-all :
      (ts : List (Option TargetSnapshot)) (store : SnapshotStore) (e : OtlpExporter) (n : String)
      → IsConsistent e
      → load store ≡ build_snapshot ts
      → (ensure_instruments gauge store e).1 ≡ none
      → observations (ensure_instruments gauge store e).0 store n
        ≡ map observe (named n (all_samples ts))
  unfolding observations ensure_instruments
  observations-all ts store e n h at ok = elim (Bool-cases (contains n after.instruments)) [
    | inl t ↦ rw (t, at) (ap (map observe) (samples_for-build_snapshot ts n))
    | inr f ↦ rw f (sym (ap (map observe) (is_empty-nil (named n (all_samples ts)) (unnamed f))))
  ]
    where
      after : OtlpExporter
      after = (ensure_names gauge (metric_names (load store)) e).0

      unnamed : contains n after.instruments ≡ false → is_empty (named n (all_samples ts)) ≡ true
      unnamed f = ground (
        arith,
        f,
        (ensure_names-IsConsistent (metric_names (load store)) e h).same n,
        ensure_names-contains (metric_names (load store)) e n ok,
        (metric_names-build_snapshot ts).1 n,
        ap (λ s. contains n (metric_names s)) at,
      )
