-- ===== src/Server/Dump.antt =====
-- main.go: the dump of a snapshot, for a single cycle with debug logging.
-- The verbs %q and %g of `fmt` are parameters.
pub mod Sorted
use Prim.Native.Nat.{lt, eq, gt}
use Prim.Native.String.{compare}
use mathlib.Core.List.{map-append, Perm, perm_middle}
use mathlib.Core.List.Perm
use mathlib.Core.Path.{subst}
use pve_exporter.Base.{
  String, ◌<>◌, ◌≡◌, refl, sym, ap, ◌∙◌, Bool, true, false, not, Option, List, [], ◌∷◌, ◌++◌, map,
  All, All-weaken, arith, ◌==◌, eq_iff, eq_refl, Bool-cases, inl, inr, if◌then◌else◌,
}
use pve_exporter.Base.Dict.{contains}
use pve_exporter.Base.Distinct.{IsDistinct}
use pve_exporter.Base.Float.{Float64}
use pve_exporter.Base.Text.{join}
use pve_exporter.Pve.Metrics.{Sample}
use pve_exporter.Pve.Snapshot.{Snapshot, TargetSnapshot, build_snapshot, metric_names, samples_for}
use pve_exporter.Pve.Snapshot.Index.{all_samples, named, samples_for-build_snapshot}
use pve_exporter.Pve.Snapshot.Names.{is_empty, metric_names-build_snapshot}

-- a <= b, for the bytes of the texts
abbrev before : String → String → Bool
before a b = elim (compare a b) [ lt ↦ true | eq ↦ true | gt ↦ false ]

insert_line : String → List String → List String
insert_line l [] = l ∷ []
insert_line l (m ∷ ms) = let rest = insert_line l ms in if before l m then l ∷ m ∷ ms else m ∷ rest

-- sort.Strings
sort : List String → List String
unfolding insert_line
sort [] = []
sort (l ∷ ls) = insert_line l (sort ls)

-- The samples of a list, gathered under these names.
regroup : List String → List Sample → List Sample
regroup [] samples = []
regroup (name ∷ names) samples = named name samples ++ regroup names samples

regroup-nil : (names : List String) → regroup names [] ≡ []
unfolding regroup
regroup-nil [] = refl
regroup-nil (name ∷ names) = regroup-nil names

-- A sample under none of the names.
regroup-absent :
    (names : List String) (x : Sample) (xs : List Sample)
    → contains x.name names ≡ false
    → regroup names (x ∷ xs) ≡ regroup names xs
unfolding regroup contains
regroup-absent [] x xs h = refl
regroup-absent (name ∷ names) x xs h =
    ground (arith, h, eq_iff x.name name, eq_iff name x.name, regroup-absent names x xs)

-- A sample before the others, under the first of the names or under a later one.
cons-cases :
    (name : String) (names : List String) (x : Sample) (xs : List Sample) (same : Bool)
    → (x.name == name) ≡ same
    → (same ≡ true → regroup names (x ∷ xs) ≡ regroup names xs)
    → (same ≡ false → Perm (regroup names (x ∷ xs)) (x ∷ regroup names xs))
    → Perm
        (elim same [ true ↦ x ∷ named name xs | false ↦ named name xs ] ++ regroup names (x ∷ xs))
        (x ∷ (named name xs ++ regroup names xs))
cons-cases name names x xs true e here later =
    subst (λ l. Perm (x ∷ (named name xs ++ l)) (x ∷ (named name xs ++ regroup names xs)))
      (sym (here refl)) (Perm.refl _)
cons-cases name names x xs false e here later =
    Perm.trans (Perm.append_left (named name xs) (later refl))
      (perm_middle (named name xs) (regroup names xs))

regroup-cons :
    (names : List String) (x : Sample) (xs : List Sample)
    → IsDistinct names
    → contains x.name names ≡ true
    → Perm (regroup names (x ∷ xs)) (x ∷ regroup names xs)
unfolding regroup contains
regroup-cons [] x xs d h = ground (arith, h)
regroup-cons (name ∷ names) x xs d h =
    cons-cases name names x xs _ refl
      (λ e. regroup-absent names x xs (ap (λ n. contains n names) ((eq_iff x.name name).0 e) ∙ d.0))
      (λ e.
        regroup-cons names x xs d.1 (ground (arith, h, e, eq_iff x.name name, eq_iff name x.name)))

regroup-perm :
    (names : List String) (samples : List Sample)
    → IsDistinct names
    → All (λ s. contains s.name names ≡ true) samples
    → Perm (regroup names samples) samples
regroup-perm names [] d h = subst (λ l. Perm l []) (sym (regroup-nil names)) (Perm.refl [])
regroup-perm names (x ∷ xs) d h =
    Perm.trans (regroup-cons names x xs d h.0) (Perm.cons x (regroup-perm names xs d h.1))

-- No sample is without samples of its name.
named_nonempty :
    (samples : List Sample) → All (λ s. is_empty (named s.name samples) ≡ false) samples
named_nonempty [] = tt
named_nonempty (x ∷ xs) = (
  ground (arith, eq_refl x.name),
  All-weaken (λ s. is_empty (named s.name xs) ≡ false)
      (λ s. is_empty (named s.name (x ∷ xs)) ≡ false) (λ s h. ground (arith, h)) _
      (named_nonempty xs),
)

insert_line-perm : (l : String) (ls : List String) → Perm (insert_line l ls) (l ∷ ls)
unfolding insert_line
insert_line-perm l [] = Perm.refl _
insert_line-perm l (m ∷ ms) = elim (Bool-cases (before l m)) [
  | inl e ↦ rw e (Perm.refl _)
  | inr e ↦ rw e (Perm.trans (Perm.cons m (insert_line-perm l ms)) (Perm.swap l m ms))
]

sort-perm : (ls : List String) → Perm (sort ls) ls
unfolding sort
sort-perm [] = Perm.refl _
sort-perm (l ∷ ls) = Perm.trans (insert_line-perm l (sort ls)) (Perm.cons l (sort-perm ls))

module _ (quote : String → String) (format : Float64 → String) where
  abbrev pub line : Sample → String
  line s =
      s.name
      <> ("{"
          <> (join "," (map (λ l. l.name <> ("=" <> quote l.value)) s.labels)
              <> ("} " <> format s.value)))

  lines : Snapshot → List String → List String
  lines snap [] = []
  lines snap (name ∷ names) = map line (samples_for snap name) ++ lines snap names

  -- `dumpSamples`: the lines in the order in which they are printed
  unfoldable pub dump_samples : Snapshot → List String
  unfolding sort lines
  dump_samples snap = sort (lines snap (metric_names snap))

  lines-regroup :
      (ts : List (Option TargetSnapshot)) (names : List String)
      → lines (build_snapshot ts) names ≡ map line (regroup names (all_samples ts))
  unfolding lines regroup
  lines-regroup ts [] = refl
  lines-regroup ts (name ∷ names) =
      rw (samples_for-build_snapshot ts name, lines-regroup ts names)
        (sym (map-append line (named name (all_samples ts)) (regroup names (all_samples ts))))

  -- The dump of the snapshot of a cycle has one line for each sample of each target that was
  -- polled, and no other line.
  pub dump_samples-perm :
      (ts : List (Option TargetSnapshot))
      → Perm (dump_samples (build_snapshot ts)) (map line (all_samples ts))
  unfolding dump_samples
  dump_samples-perm ts = Perm.trans (sort-perm _) (
      subst (λ l. Perm l (map line (all_samples ts))) (sym (lines-regroup ts names))
        (Perm.map line (
          regroup-perm names (all_samples ts) (metric_names-build_snapshot ts).0 (
            All-weaken (λ s. is_empty (named s.name (all_samples ts)) ≡ false)
              (λ s. contains s.name names ≡ true)
              (λ s h. (metric_names-build_snapshot ts).1 s.name ∙ ap not h) _
              (named_nonempty (all_samples ts))))))
    where
      names : List String
      names = metric_names (build_snapshot ts)
