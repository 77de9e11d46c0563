-- ===== src/Pve/Snapshot/Names.antt =====
-- internal/pve/snapshot.go: the names of a snapshot.
use pve_exporter.Base.{
  String, ◌≡◌, refl, ◌∙◌, ap, Bool, true, false, not, Option, none, some, List, [], ◌∷◌, ◌++◌,
  arith, ◌==◌, eq_iff, if◌then◌else◌,
}
use pve_exporter.Base.Dict.{lookup, insert, lookup-insert, contains}
use pve_exporter.Base.Distinct.{IsDistinct, contains-append, contains-singleton, IsDistinct-append}
use pve_exporter.Pve.Metrics.{Sample}
use pve_exporter.Pve.Snapshot.Index.{all_samples, named, samples_for-build_snapshot}
use pve_exporter.Pve.Snapshot.{
  TargetSnapshot, Snapshot, empty, or_nil, new_name, index_sample, index_samples, index_target,
  index_targets, build_snapshot, samples_for, metric_names,
}

abbrev pub is_some {ℓ} : {A : Type ℓ} → Option A → Bool
is_some none = false
is_some (some a) = true

abbrev pub is_empty {ℓ} : {A : Type ℓ} → List A → Bool
is_empty [] = true
is_empty (x ∷ xs) = false

-- What the loop of `BuildSnapshot` keeps: the names are the keys of the index, and no key of the
-- index is without samples.
record IsIndexed (s : Snapshot) : Type 0 where
  distinct : IsDistinct s.names
  known : (n : String) → contains n s.names ≡ is_some (lookup n s.by_name)
  filled :
      (n : String) → is_some (lookup n s.by_name) ≡ not (is_empty (or_nil (lookup n s.by_name)))

is_empty-snoc {ℓ} : {A : Type ℓ} (xs : List A) (x : A) → is_empty (xs ++ x ∷ []) ≡ false
is_empty-snoc [] x = refl
is_empty-snoc (y ∷ xs) x = refl

module _ (s : Snapshot) (x : Sample) (h : IsIndexed s) where
  abbrev old : Option (List Sample)
  old = lookup x.name s.by_name

  names-IsDistinct : (o : Option (List Sample)) → old ≡ o → IsDistinct (new_name s.names x.name o)
  unfolding new_name
  names-IsDistinct none e =
      IsDistinct-append s.names x.name h.distinct (h.known x.name ∙ ap is_some e)
  names-IsDistinct (some l) e = h.distinct

  names_known :
      (o : Option (List Sample)) (n : String)
      → old ≡ o
      → contains n (new_name s.names x.name o) ≡ (if x.name == n then true else contains n s.names)
  unfolding new_name
  names_known none n e =
      ground (arith, contains-append n s.names (x.name ∷ []), contains-singleton n x.name)
  names_known (some l) n e = ground (arith, eq_iff x.name n, h.known x.name)

  index_sample-IsIndexed : IsIndexed (index_sample s x)
  unfolding index_sample
  index_sample-IsIndexed = record {
    distinct = names-IsDistinct old refl;
    known = λ n. names_known old n refl ∙ rw lookup-insert (ground (arith, h.known n));
    filled = λ n. rw lookup-insert (ground (arith, h.filled n, is_empty-snoc (or_nil old) x));
  }

index_samples-IsIndexed :
    (xs : List Sample) (s : Snapshot) → IsIndexed s → IsIndexed (index_samples s xs)
unfolding index_samples
index_samples-IsIndexed [] s h = h
index_samples-IsIndexed (x ∷ xs) s h =
    index_samples-IsIndexed xs (index_sample s x) (index_sample-IsIndexed s x h)

index_target-IsIndexed :
    (t : Option TargetSnapshot) (s : Snapshot) → IsIndexed s → IsIndexed (index_target s t)
unfolding index_target
index_target-IsIndexed none s h = h
index_target-IsIndexed (some t) s h =
    index_samples-IsIndexed t.samples (record s { per_target = insert t.cluster t s.per_target })
      (record { distinct = h.distinct; known = h.known; filled = h.filled })

index_targets-IsIndexed :
    (ts : List (Option TargetSnapshot)) (s : Snapshot)
    → IsIndexed s
    → IsIndexed (index_targets s ts)
unfolding index_targets
index_targets-IsIndexed [] s h = h
index_targets-IsIndexed (t ∷ ts) s h =
    index_targets-IsIndexed ts (index_target s t) (index_target-IsIndexed t s h)

empty-IsIndexed : IsIndexed empty
unfolding empty contains lookup
empty-IsIndexed = record { distinct = tt; known = λ n. refl; filled = λ n. refl }

-- The names of a snapshot have no repetition, and a name is among them exactly if some sample of
-- the cycle has it.
pub metric_names-build_snapshot :
    (ts : List (Option TargetSnapshot))
    → IsDistinct (metric_names (build_snapshot ts))
      × ((n : String)
          → contains n (metric_names (build_snapshot ts))
            ≡ not (is_empty (named n (all_samples ts))))
unfolding metric_names
metric_names-build_snapshot ts =
    (h.distinct, λ n. h.known n ∙ h.filled n ∙ ap (λ l. not (is_empty l)) (by_index n))
  where
    h : IsIndexed (build_snapshot ts)
    h = unfold build_snapshot in index_targets-IsIndexed ts empty empty-IsIndexed

    by_index :
        (n : String) → or_nil (lookup n (build_snapshot ts).by_name) ≡ named n (all_samples ts)
    by_index n = unfold samples_for in samples_for-build_snapshot ts n
