-- ===== src/Pve/Collector/Cycle/Schedule.antt =====
-- internal/pve/collector.go: the goroutines of a cycle against their polls in order.
use mathlib.Core.Logic.{∥∥₁_elim}
use mathlib.Core.List.{Perm, Permᴰ}
use pve_exporter.Base.{
  ℕ, zero, suc, ◌+◌, ◌≤◌, ◌<◌, ◌≡◌, refl, sym, ap, ◌∙◌, Bool, true, false, ◌||◌, ◌&&◌, none, some,
  List, [], ◌∷◌, map, arith, length, eqb, leb, ltb, if◌then◌else◌,
}
use pve_exporter.Models.Config.{CollectorToggles}
use pve_exporter.Pve.Group.{Group, launch, Reach, IsDone}
use pve_exporter.Pve.Group.Schedule.{finished-perm}
use pve_exporter.Pve.Snapshot.{build_snapshot}
use pve_exporter.Pve.Collector.{Target}
use pve_exporter.Pve.Collector.Cycle.{
  Collector, Visit, Slot, poll, indices, no_results, set_result, collect_targets, result_of,
  advance, collect_all,
}

-- One target after the other.
abbrev pub poll_each : (ℕ → Visit) → CollectorToggles → ℕ → List Target → List Slot
poll_each visits toggles i [] = []
poll_each visits toggles i (t ∷ targets) =
    some (poll visits toggles i t) ∷ poll_each visits toggles (suc i) targets

pub has : ℕ → List ℕ → Bool
has k [] = false
has k (x ∷ xs) = eqb x k || has k xs

has-indices :
    (targets : List Target) (i k : ℕ)
    → has k (indices i targets) ≡ (leb i k && ltb k (i + length targets))
unfolding has indices
has-indices [] i k = ground arith
has-indices (t ∷ targets) i k = ground (arith, has-indices targets (suc i) k)

has-Permᴰ : {xs ys : List ℕ} → Permᴰ xs ys → (k : ℕ) → has k xs ≡ has k ys
unfolding has
has-Permᴰ Permᴰ.nil k = refl
has-Permᴰ (Permᴰ.cons e p) k = ground (arith, e, has-Permᴰ p k)
has-Permᴰ (Permᴰ.swap e e') k = ground (arith, e, e')
has-Permᴰ (Permᴰ.trans p q) k = has-Permᴰ p k ∙ has-Permᴰ q k

module _ (visits : ℕ → Visit) (toggles : CollectorToggles) where
  abbrev pub slot_if : Bool → ℕ → Target → Slot
  slot_if b i t = if b then some (poll visits toggles i t) else none

  -- The slots where a set of indices has finished.
  unfoldable pub partial : (ℕ → Bool) → ℕ → List Target → List Slot
  partial m i [] = []
  partial m i (t ∷ targets) = slot_if (m i) i t ∷ partial m (suc i) targets

  partial-agree :
      (m n : ℕ → Bool) (targets : List Target) (i : ℕ)
      → ((k : ℕ) → i ≤ k → m k ≡ n k)
      → partial m i targets ≡ partial n i targets
  unfolding partial
  partial-agree m n [] i h = refl
  partial-agree m n (t ∷ targets) i h = rw (h i (omega arith)) (
      ap (λ l. slot_if (n i) i t ∷ l)
        (partial-agree m n targets (suc i) (λ k le. h k (omega arith))))

  set_result-partial :
      (m : ℕ → Bool) (targets : List Target) (i k : ℕ)
      → set_result visits toggles i targets k (partial m i targets)
        ≡ partial (λ x. eqb x (i + k) || m x) i targets
  unfolding partial set_result
  set_result-partial m [] i k = refl
  set_result-partial m (t ∷ targets) i zero =
      let now : (eqb i (i + 0) || m i) ≡ true = ground arith in
      rw now (
        ap (λ l. some (poll visits toggles i t) ∷ l)
          (partial-agree _ _ targets (suc i) (λ x le. ground arith)))
  set_result-partial m (t ∷ targets) i (suc k) =
      let other : (eqb i (i + suc k) || m i) ≡ m i = ground arith in
      rw (other, set_result-partial m targets (suc i) k)
        (ap (λ l. slot_if (m i) i t ∷ l) (partial-agree _ _ targets (suc i) (λ x le. ground arith)))

  pub collect_targets-partial :
      (targets : List Target) (finished : List ℕ) (m : ℕ → Bool)
      → collect_targets visits toggles targets finished (partial m 0 targets)
        ≡ partial (λ x. has x finished || m x) 0 targets
  unfolding collect_targets has
  collect_targets-partial targets [] m = refl
  collect_targets-partial targets (k ∷ finished) m =
      ap (collect_targets visits toggles targets finished) (set_result-partial m targets 0 k)
      ∙ (collect_targets-partial targets finished _
          ∙ partial-agree _ _ targets 0 (λ x le. ground arith))

  pub no_results-partial :
      (targets : List Target) (i : ℕ) → partial (λ k. false) i targets ≡ no_results targets
  unfolding partial
  no_results-partial [] i = refl
  no_results-partial (t ∷ targets) i = ap (λ l. none ∷ l) (no_results-partial targets (suc i))

  poll_each-partial :
      (m : ℕ → Bool) (targets : List Target) (i : ℕ)
      → ((k : ℕ) → i ≤ k → k < i + length targets → m k ≡ true)
      → partial m i targets ≡ poll_each visits toggles i targets
  unfolding partial
  poll_each-partial m [] i h = refl
  poll_each-partial m (t ∷ targets) i h = rw (h i (omega arith) (omega arith)) (
      ap (λ l. some (poll visits toggles i t) ∷ l)
        (poll_each-partial m targets (suc i) (λ k le lt. h k (omega arith) (omega arith))))

has-Perm : {xs ys : List ℕ} → Perm xs ys → (k : ℕ) → has k xs ≡ has k ys
has-Perm p k = ∥∥₁_elim p (hlevel) (λ d. has-Permᴰ d k)

-- However the goroutines of a cycle are scheduled under the limit, when all are done the snapshot
-- is that of the targets polled one after the other, in their order and each once, and every
-- target's client is as its poll leaves it.
pub collect_all-each :
    (visits : ℕ → Visit) (c : Collector) {g : Group ℕ}
    → Reach c.max_concurrent (launch (indices 0 c.targets)) g
    → IsDone g
    → let slots = poll_each visits c.toggles 0 c.targets in
      collect_all visits g.finished c
      ≡ (build_snapshot (map result_of slots), record c { targets = advance c.targets slots })
unfolding collect_all
collect_all-each visits c {g} r d =
    ap
      (λ (l : List Slot).
        (build_snapshot (map result_of l), record c { targets = advance c.targets l }))
      (ap (collect_targets visits c.toggles c.targets g.finished)
          (sym (no_results-partial visits c.toggles c.targets 0))
        ∙ collect_targets-partial visits c.toggles c.targets g.finished _
        ∙ poll_each-partial visits c.toggles _ c.targets 0 all_finished)
  where
    all_finished : (k : ℕ) → 0 ≤ k → k < 0 + length c.targets → (has k g.finished || false) ≡ true
    all_finished k le lt = ground (arith, has-Perm (finished-perm r d) k, has-indices c.targets 0 k)
