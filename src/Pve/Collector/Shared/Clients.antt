-- ===== src/Pve/Collector/Shared/Clients.antt =====
-- internal/pve/collector.go: the clients that the goroutines of a cycle change.
use mathlib.Core.Path.{subst}
use pve_exporter.Base.{
  ℕ, zero, suc, ◌+◌, ◌≤◌, ◌<◌, ◌≡◌, true, false, refl, sym, ap, ◌∙◌, ◌⊎◌, inl, inr, Option, none,
  some, List, [], ◌∷◌, map, arith, length, eqb,
}
use pve_exporter.Models.Config.{CollectorToggles}
use pve_exporter.Pve.Client.{Client}
use pve_exporter.Pve.Snapshot.{TargetSnapshot}
use pve_exporter.Pve.Collector.{Target}
use pve_exporter.Pve.Collector.Cycle.{Visit, Slot, poll, no_results, set_result, result_of, advance}
use pve_exporter.Pve.Collector.Shared.{Ref, Heap, update, deref, allocate, nothing_yet, poll_ref}

-- The addresses of the clients follow each other from `a` on.
pub data IsPlaced : ℕ → List Ref → Type 0 where
  no_refs : (a : ℕ) → IsPlaced a []
  ref :
      {a : ℕ} {r : Ref} {refs : List Ref}
      → r.address ≡ a
      → IsPlaced (suc a) refs
      → IsPlaced a (r ∷ refs)

abbrev with_client : Ref → Client → Target
with_client r c = record { cfg = r.cfg; client = c }

update_same : (a : ℕ) (c : Client) (heap : Heap) → update a c heap a ≡ c
update_same a c heap = let same : eqb a a ≡ true = ground arith in rw same refl

update_other : (a x : ℕ) (c : Client) (heap : Heap) → (x < a) ⊎ (a < x) → update a c heap x ≡ heap x
update_other a x c heap h = let other : eqb x a ≡ false = ground (arith, h) in rw other refl

-- The heaps agree on the clients of these targets.
pub deref-agree :
    (g h : Heap) {a : ℕ} (refs : List Ref)
    → IsPlaced a refs
    → ((x : ℕ) → a ≤ x → x < a + length refs → g x ≡ h x)
    → map (deref g) refs ≡ map (deref h) refs
deref-agree g h [] p agree = refl
deref-agree g h (r ∷ refs) (ref e p) agree =
    ap (λ c. record { cfg = r.cfg; client = c } ∷ map (deref g) refs)
      (agree r.address (omega (arith, e)) (omega (arith, e)))
    ∙ ap (λ l. deref h r ∷ l)
        (deref-agree g h refs p (λ x low high. agree x (omega arith) (omega arith)))

deref_at :
    (g h : Heap) (r : Ref) (t : Target) → g r.address ≡ h r.address → deref g r ≡ t → deref h r ≡ t
deref_at g h r t e same = ap (λ (c : Client). with_client r c) (sym e) ∙ same

cons_both :
    {t u : Target} {targets others : List Target}
    → t ≡ u
    → targets ≡ others
    → ◌≡◌ {A = List Target} (t ∷ targets) (u ∷ others)
cons_both e es i = e i ∷ es i

pub allocate-IsPlaced :
    (a : ℕ) (targets : List Target) (heap : Heap) → IsPlaced a (allocate a targets heap).0
unfolding allocate
allocate-IsPlaced a [] heap = no_refs a
allocate-IsPlaced a (t ∷ targets) heap = ref refl (allocate-IsPlaced (suc a) targets heap)

pub length-allocate :
    (a : ℕ) (targets : List Target) (heap : Heap)
    → length (allocate a targets heap).0 ≡ length targets
unfolding allocate
length-allocate a [] heap = refl
length-allocate a (t ∷ targets) heap = ap suc (length-allocate (suc a) targets heap)

-- An allocation keeps the clients before its addresses.
pub allocate-before :
    (a : ℕ) (targets : List Target) (heap : Heap) (x : ℕ)
    → x < a
    → (allocate a targets heap).1 x ≡ heap x
unfolding allocate
allocate-before a [] heap x h = refl
allocate-before a (t ∷ targets) heap x h =
    update_other a x t.client (allocate (suc a) targets heap).1 (inl h)
    ∙ allocate-before (suc a) targets heap x (omega arith)

pub allocate-deref :
    (a : ℕ) (targets : List Target) (heap : Heap)
    → let new = allocate a targets heap in map (deref new.1) new.0 ≡ targets
unfolding allocate
allocate-deref a [] heap = refl
allocate-deref a (t ∷ targets) heap =
    ap (λ c. record { cfg = t.cfg; client = c } ∷ map (deref new) (allocate (suc a) targets heap).0)
      (update_same a t.client (allocate (suc a) targets heap).1)
    ∙ ap (λ l. t ∷ l)
        (deref-agree new (allocate (suc a) targets heap).1 _
            (allocate-IsPlaced (suc a) targets heap)
            (λ x low high.
              update_other a x t.client (allocate (suc a) targets heap).1 (inr (omega arith)))
          ∙ allocate-deref (suc a) targets heap)
  where
    new : Heap
    new = (allocate a (t ∷ targets) heap).1

module _ (visits : ℕ → Visit) (toggles : CollectorToggles) where
  -- A poll keeps the clients at other addresses than those of its targets.
  pub poll_ref_elsewhere :
      (heap : Heap) {a : ℕ} (i : ℕ) (refs : List Ref) (k : ℕ)
      (results : List (Option TargetSnapshot))
      → IsPlaced a refs
      → (x : ℕ) → (x < a) ⊎ (a + length refs ≤ x)
      → (poll_ref visits toggles heap i refs k results).0 x ≡ heap x
  unfolding poll_ref
  poll_ref_elsewhere heap i [] k results p x h = refl
  poll_ref_elsewhere heap i (r ∷ refs) k [] p x h = refl
  poll_ref_elsewhere heap i (r ∷ refs) zero (some t ∷ results) p x h = refl
  poll_ref_elsewhere heap i (r ∷ refs) zero (none ∷ results) (ref e p) x h =
      update_other r.address x _ heap (ground (arith, e, h))
  poll_ref_elsewhere heap i (r ∷ refs) (suc k) (y ∷ results) (ref e p) x h =
      poll_ref_elsewhere heap (suc i) refs k results p x (ground (arith, h))

  -- The results so far and the clients are those of the slots: a target whose slot is empty is as
  -- the cycle has found it, and any other is as its poll has left it.
  pub data Matches
      : ℕ → Heap → List Ref → List Target → List Slot → List (Option TargetSnapshot) → Type 0 where
    ended : {i : ℕ} {heap : Heap} → Matches i heap [] [] [] []
    waits :
        {i : ℕ} {heap : Heap} {r : Ref} {refs : List Ref} {t : Target} {targets : List Target}
        {slots : List Slot} {results : List (Option TargetSnapshot)}
        → deref heap r ≡ t
        → Matches (suc i) heap refs targets slots results
        → Matches i heap (r ∷ refs) (t ∷ targets) (none ∷ slots) (none ∷ results)
    polled :
        {i : ℕ} {heap : Heap} {r : Ref} {refs : List Ref} {t : Target} {targets : List Target}
        {slots : List Slot} {results : List (Option TargetSnapshot)}
        → deref heap r ≡ record t { client = (poll visits toggles i t).1 }
        → Matches (suc i) heap refs targets slots results
        → Matches i heap
            (r ∷ refs)
            (t ∷ targets)
            (some (poll visits toggles i t) ∷ slots)
            (some (poll visits toggles i t).0 ∷ results)

  pub Matches-begin :
      (i : ℕ) (heap : Heap) (refs : List Ref)
      → Matches i heap refs
          (map (deref heap) refs)
          (no_results (map (deref heap) refs))
          (nothing_yet refs)
  Matches-begin i heap [] = ended
  Matches-begin i heap (r ∷ refs) = waits refl (Matches-begin (suc i) heap refs)

  pub Matches-agree :
      {i : ℕ} (g h : Heap) {a : ℕ} {refs : List Ref} {targets : List Target} {slots : List Slot}
      {results : List (Option TargetSnapshot)}
      → IsPlaced a refs
      → ((x : ℕ) → a ≤ x → x < a + length refs → g x ≡ h x)
      → Matches i g refs targets slots results
      → Matches i h refs targets slots results
  Matches-agree g h p agree ended = ended
  Matches-agree g h (ref {r = r} e p) agree (waits same m) =
      waits (deref_at g h r _ (agree r.address (omega (arith, e)) (omega (arith, e))) same)
        (Matches-agree g h p (λ x low high. agree x (omega arith) (omega arith)) m)
  Matches-agree g h (ref {r = r} e p) agree (polled same m) =
      polled (deref_at g h r _ (agree r.address (omega (arith, e)) (omega (arith, e))) same)
        (Matches-agree g h p (λ x low high. agree x (omega arith) (omega arith)) m)

  -- A target that waits is polled at its address.
  poll-polled :
      {i : ℕ} {heap : Heap} {a : ℕ} {r : Ref} {refs : List Ref} {t : Target} {targets : List Target}
      {slots : List Slot} {results : List (Option TargetSnapshot)}
      → r.address ≡ a
      → IsPlaced (suc a) refs
      → deref heap r ≡ t
      → Matches (suc i) heap refs targets slots results
      → let p = poll visits toggles i (deref heap r) in
        Matches i
          (update r.address p.1 heap)
          (r ∷ refs)
          (t ∷ targets)
          (some (poll visits toggles i t) ∷ slots)
          (some p.0 ∷ results)
  poll-polled {i} {heap} {r = r} {refs} {targets = targets} {slots} {results} e p same m =
      let after = poll visits toggles i (deref heap r) in
      let changed = update r.address after.1 heap in
      subst
        (λ (u : Target).
          Matches i changed (r ∷ refs) (u ∷ targets) (some (poll visits toggles i u) ∷ slots)
            (some after.0 ∷ results))
        same
        (polled (ap (λ (c : Client). with_client r c) (update_same r.address after.1 heap)) (
          Matches-agree heap changed p
            (λ x low high. sym (update_other r.address x after.1 heap (inr (omega (arith, e))))) m))

  -- The poll of a later target keeps the client of this one.
  poll_later :
      (heap : Heap) (i k : ℕ) (results : List (Option TargetSnapshot)) {a : ℕ} (r : Ref)
      {refs : List Ref} {t : Target}
      → r.address ≡ a
      → IsPlaced (suc a) refs
      → deref heap r ≡ t
      → deref (poll_ref visits toggles heap i refs k results).0 r ≡ t
  poll_later heap i k results r {refs} {t} e p same =
      let after = (poll_ref visits toggles heap i refs k results).0 in
      let kept = poll_ref_elsewhere heap i refs k results p r.address (inl (omega (arith, e))) in
      deref_at heap after r t (sym kept) same

  -- The goroutine of a target does in the heap what it does in the slots.
  pub poll_ref-Matches :
      {i : ℕ} {heap : Heap} {a : ℕ} {refs : List Ref} {targets : List Target} {slots : List Slot}
      {results : List (Option TargetSnapshot)} (k : ℕ)
      → IsPlaced a refs
      → Matches i heap refs targets slots results
      → let after = poll_ref visits toggles heap i refs k results in
        Matches i after.0 refs targets (set_result visits toggles i targets k slots) after.1
  unfolding poll_ref set_result
  poll_ref-Matches k p ended = ended
  poll_ref-Matches zero (ref e p) (waits same m) = poll-polled e p same m
  poll_ref-Matches zero (ref e p) (polled same m) = polled same m
  poll_ref-Matches {i} {heap} (suc k) (ref {r = r} e p) (waits {results = results} same m) =
      waits (poll_later heap (suc i) k results r e p same) (poll_ref-Matches k p m)
  poll_ref-Matches {i} {heap} (suc k) (ref {r = r} e p) (polled {results = results} same m) =
      polled (poll_later heap (suc i) k results r e p same) (poll_ref-Matches k p m)

  pub results-Matches :
      {i : ℕ} {heap : Heap} {refs : List Ref} {targets : List Target} {slots : List Slot}
      {results : List (Option TargetSnapshot)}
      → Matches i heap refs targets slots results
      → results ≡ map result_of slots
  results-Matches ended = refl
  results-Matches (waits same m) = ap (λ l. none ∷ l) (results-Matches m)
  results-Matches (polled {i} {t = t} same m) =
      ap (λ l. some (poll visits toggles i t).0 ∷ l) (results-Matches m)

  pub targets-Matches :
      {i : ℕ} {heap : Heap} {refs : List Ref} {targets : List Target} {slots : List Slot}
      {results : List (Option TargetSnapshot)}
      → Matches i heap refs targets slots results
      → map (deref heap) refs ≡ advance targets slots
  unfolding advance
  targets-Matches ended = refl
  targets-Matches (waits same m) = cons_both same (targets-Matches m)
  targets-Matches (polled same m) = cons_both same (targets-Matches m)
