-- ===== src/Pve/Collector/Cycle/Counters.antt =====
-- internal/pve/collector.go: the error counters over the cycles of the loop.
use mathlib.Core.Path.{subst}
use pve_exporter.Base.{
  String, ℕ, suc, ◌+◌, ◌≡◌, refl, sym, ap, ◌∙◌, Bool, true, false, ◌||◌, List, [], ◌∷◌, ◌++◌, All,
  arith, if◌then◌else◌,
}
use pve_exporter.Models.Config.{CollectorToggles}
use pve_exporter.Pve.Client.Independent.{count_errors, count_errors_add}
use pve_exporter.Pve.Collector.{Target, collect_target}
use pve_exporter.Pve.Collector.Tally.{Counts, collect_target-Counts}
use pve_exporter.Pve.Collector.Cycle.{
  Collector, Visit, Slot, poll, collect_targets, advance, collect_all, collect_once, Event, tick,
  swap, handle, handle_all,
}
use pve_exporter.Pve.Collector.Cycle.Schedule.{
  has, slot_if, partial, collect_targets-partial, no_results-partial,
}

-- The visits whose goroutine for the `k`-th target has finished.
abbrev pub finished_visit : Bool → Visit → List Visit
finished_visit b v = if b then v ∷ [] else []

abbrev pub visits_of : ℕ → List Event → List Visit
visits_of k [] = []
visits_of k (tick visits finished ∷ events) =
    finished_visit (has k finished) (visits k) ++ visits_of k events
visits_of k (swap others ∷ events) = visits_of k events

module _ (toggles : CollectorToggles) where
  -- The polls of a target count this many errors together. The number is the same for every client,
  -- and a poll counts none if no reply counts.
  pub data Finds (name : String) : List Visit → ℕ → Type 0 where
    no_visit : Finds name [] 0
    visit :
        {v : Visit} {visits : List Visit} {m n : ℕ}
        → Counts v.remote (collect_target v.remote toggles name v.clock v.order) m
        → Finds name visits n
        → Finds name (v ∷ visits) (m + n)

  -- The same target, and its client has counted the errors of these polls, each by adding one.
  pub record IsCounted (visits : List Visit) (t u : Target) : Type 0 where
    pub same : u.cfg ≡ t.cfg
    pub errors : ℕ
    pub finds : Finds t.cfg.name visits errors
    pub counted : u.client ≡ count_errors errors t.client

  -- The targets from the `i`-th on.
  pub data AreCounted (visits : ℕ → List Visit) : ℕ → List Target → List Target → Type 0 where
    no_targets : {i : ℕ} → AreCounted visits i [] []
    target :
        {i : ℕ} {t u : Target} {ts us : List Target}
        → IsCounted (visits i) t u
        → AreCounted visits (suc i) ts us
        → AreCounted visits i (t ∷ ts) (u ∷ us)

  unchanged : (t : Target) → IsCounted [] t t
  unchanged t = record { same = refl; errors = 0; finds = no_visit; counted = refl }

  AreCounted-refl : (i : ℕ) (ts : List Target) → AreCounted (λ k. []) i ts ts
  AreCounted-refl i [] = no_targets
  AreCounted-refl i (t ∷ ts) = target (unchanged t) (AreCounted-refl (suc i) ts)

  Finds-append :
      (name : String) {vs ws : List Visit} {m n : ℕ}
      → Finds name vs m
      → Finds name ws n
      → Finds name (vs ++ ws) (m + n)
  Finds-append name {ws = ws} {n = n} no_visit k = subst (Finds name ws) (omega arith) k
  Finds-append name {vs = v ∷ vs} {ws} {n = n} (visit h hs) k =
      subst (Finds name (v ∷ (vs ++ ws))) (omega arith) (visit h (Finds-append name hs k))

  IsCounted-trans :
      {vs ws : List Visit} (t u v : Target)
      → IsCounted vs t u
      → IsCounted ws u v
      → IsCounted (vs ++ ws) t v
  IsCounted-trans {vs} {ws} t u v h k = record {
    same = k.same ∙ h.same;
    errors = h.errors + k.errors;
    finds = Finds-append t.cfg.name h.finds (subst (λ c. Finds c.name ws k.errors) h.same k.finds);
    counted =
        k.counted
        ∙ ap (count_errors k.errors) h.counted
        ∙ sym (count_errors_add h.errors k.errors t.client);
  }

  AreCounted-trans :
      {v w : ℕ → List Visit} {i : ℕ} {ts us vs : List Target}
      → AreCounted v i ts us
      → AreCounted w i us vs
      → AreCounted (λ k. v k ++ w k) i ts vs
  AreCounted-trans no_targets no_targets = no_targets
  AreCounted-trans (target {t = t} {u} h hs) (target {u = v} k ks) =
      target (IsCounted-trans t u v h k) (AreCounted-trans hs ks)

  module _ (visits : ℕ → Visit) where
    advance_slot :
        (m : ℕ → Bool) (b : Bool) (i : ℕ) (t : Target) (ts : List Target) (slots : List Slot)
        → m i ≡ b
        → AreCounted (λ k. finished_visit (m k) (visits k)) (suc i) ts (advance ts slots)
        → AreCounted
            (λ k. finished_visit (m k) (visits k))
            i
            (t ∷ ts)
            (advance (t ∷ ts) (slot_if visits toggles b i t ∷ slots))
    unfolding advance poll
    advance_slot m true i t ts slots e h =
        let (n, k) =
          collect_target-Counts (visits i).remote toggles t.cfg.name (visits i).clock
            (visits i).order in
        let whole : n ≡ n + 0 = omega arith in
        target
          (record {
            same = refl;
            errors = n + 0;
            finds =
                subst (λ b. Finds t.cfg.name (finished_visit b (visits i)) (n + 0)) (sym e)
                  (visit k no_visit);
            counted = k.at t.client ∙ ap (λ x. count_errors x t.client) whole;
          })
          h
    advance_slot m false i t ts slots e h =
        target (subst (λ b. IsCounted (finished_visit b (visits i)) t t) (sym e) (unchanged t)) h

    advance-partial :
        (m : ℕ → Bool) (i : ℕ) (ts : List Target)
        → AreCounted
            (λ k. finished_visit (m k) (visits k))
            i
            ts
            (advance ts (partial visits toggles m i ts))
    unfolding partial advance
    advance-partial m i [] = no_targets
    advance-partial m i (t ∷ ts) =
        advance_slot m (m i) i t ts (partial visits toggles m (suc i) ts) refl
          (advance-partial m (suc i) ts)

    AreCounted-agree :
        (m n : ℕ → Bool) {i : ℕ} {ts us : List Target}
        → ((k : ℕ) → m k ≡ n k)
        → AreCounted (λ k. finished_visit (m k) (visits k)) i ts us
        → AreCounted (λ k. finished_visit (n k) (visits k)) i ts us
    AreCounted-agree m n e no_targets = no_targets
    AreCounted-agree m n e (target {i} {t} {u} h hs) =
        target (subst (λ b. IsCounted (finished_visit b (visits i)) t u) (e i) h)
          (AreCounted-agree m n e hs)

collect_all-AreCounted :
    (visits : ℕ → Visit) (finished : List ℕ) (c : Collector)
    → AreCounted c.toggles
        (λ k. finished_visit (has k finished) (visits k))
        0
        c.targets
        (collect_all visits finished c).1.targets
unfolding collect_all
collect_all-AreCounted visits finished c =
    AreCounted-agree c.toggles visits (λ x. has x finished || false) (λ x. has x finished)
      (λ x. ground arith)
      (subst
        (λ (slots : List Slot).
          AreCounted c.toggles (λ k. finished_visit (has k finished || false) (visits k)) 0
            c.targets (advance c.targets slots))
        (sym (collect_targets-partial visits c.toggles c.targets finished (λ k. false))
          ∙ ap (collect_targets visits c.toggles c.targets finished)
              (no_results-partial visits c.toggles c.targets 0))
        (advance-partial c.toggles visits (λ x. has x finished || false) 0 c.targets))

abbrev pub IsTick : Event → Type 0
IsTick (tick visits finished) = Unit
IsTick (swap others) = ⊥

-- Over any cycles of the loop between two swaps of the targets, there are the same targets, and each
-- client has counted on exactly the errors of the polls of its target that have finished, one by
-- one. How many errors a poll counts does not depend on the client, and it is none if no reply
-- counts.
pub handle_all-AreCounted :
    (events : List Event) (c : Collector)
    → All IsTick events
    → AreCounted c.toggles (λ k. visits_of k events) 0 c.targets (handle_all events c).targets
unfolding handle_all handle collect_once
handle_all-AreCounted [] c h = AreCounted-refl c.toggles 0 c.targets
handle_all-AreCounted (tick visits finished ∷ events) c h =
    AreCounted-trans c.toggles (collect_all-AreCounted visits finished c)
      (handle_all-AreCounted events _ h.1)
handle_all-AreCounted (swap others ∷ events) c h = absurd h.0
