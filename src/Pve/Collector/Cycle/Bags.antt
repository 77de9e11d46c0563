-- ===== src/Pve/Collector/Cycle/Bags.antt =====
-- internal/pve/collector.go: cycles with different schedules, up to the order of the samples.
use mathlib.Core.Path.{subst, ap₂}
use mathlib.Core.List.{Perm}
use mathlib.Core.List.Perm
use pve_exporter.Base.{
  ℕ, suc, String, ◌≡◌, refl, sym, ap, ◌∙◌, Bool, true, false, List, [], ◌∷◌, map, Option, ◌==◌,
  none, some, if◌then◌else◌,
}
use pve_exporter.Models.Config.{CollectorToggles}
use pve_exporter.Pve.Client.{Client}
use pve_exporter.Pve.Group.{Group, launch, Reach, IsDone}
use pve_exporter.Pve.Snapshot.{TargetSnapshot, Snapshot, build_snapshot, targets, metric_names}
use pve_exporter.Base.Dict.{lookup, contains}
use pve_exporter.Pve.Snapshot.Targets.{last_of, targets-build_snapshot}
use pve_exporter.Pve.Snapshot.Bags.{contents, contents-build_snapshot, names-build_snapshot}
use pve_exporter.Pve.Snapshot.Index.{all_samples}
use pve_exporter.Pve.Collector.{Target, collect_target}
use pve_exporter.Pve.Collector.Order.{SamePoll, collect_target-SamePoll}
use pve_exporter.Pve.Collector.Cycle.{
  Collector, Visit, poll, indices, result_of, advance, collect_all,
}
use pve_exporter.Pve.Collector.Cycle.Schedule.{poll_each, collect_all-each}

-- Two polls of a target that find the same replies at the same time, with their nodes in any order.
pub record SameVisit (v w : Visit) : Type 0 where
  pub remote : v.remote ≡ w.remote
  pub clock : v.clock ≡ w.clock
  pub left : (nodes : List String) → Perm (v.order nodes) nodes
  pub right : (nodes : List String) → Perm (w.order nodes) nodes

-- The state of a target, without its samples.
abbrev pub state_of : Option TargetSnapshot → Option TargetSnapshot
state_of none = none
state_of (some t) = some (record t { samples = [] })

-- The same samples under each name, in some order, the same names, the same states of the targets,
-- and the same collector afterwards.
pub record SameCycle (x y : Snapshot × Collector) : Type 0 where
  pub samples : (name : String) → contents x.0 name ≡ contents y.0 name
  pub names : (name : String) → contains name (metric_names x.0) ≡ contains name (metric_names y.0)
  pub states :
      (name : String) → state_of (lookup name (targets x.0)) ≡ state_of (lookup name (targets y.0))
  pub collector : x.1 ≡ y.1

SamePoll-both : (x y z : TargetSnapshot × Client) → SamePoll x z → SamePoll y z → SamePoll x y
SamePoll-both x y z h k = record {
  cluster = h.cluster ∙ sym k.cluster;
  up = h.up ∙ sym k.up;
  scrape_error = h.scrape_error ∙ sym k.scrape_error;
  last_scrape = h.last_scrape ∙ sym k.last_scrape;
  samples = Perm.trans h.samples (Perm.symm k.samples);
  client = h.client ∙ sym k.client;
}

state_of-SamePoll :
    (x y : TargetSnapshot × Client) → SamePoll x y → state_of (some x.0) ≡ state_of (some y.0)
state_of-SamePoll x y h i = some (record {
  cluster = h.cluster i;
  up = h.up i;
  scrape_error = h.scrape_error i;
  last_scrape = h.last_scrape i;
  samples = [];
})

state_of-if :
    (b : Bool) (t u old older : Option TargetSnapshot)
    → state_of t ≡ state_of u
    → state_of old ≡ state_of older
    → state_of (if b then t else old) ≡ state_of (if b then u else older)
state_of-if true t u old older h k = h
state_of-if false t u old older h k = k

poll-SamePoll :
    (visits others : ℕ → Visit) (toggles : CollectorToggles)
    → ((i : ℕ) → SameVisit (visits i) (others i))
    → (i : ℕ) (t : Target) → SamePoll (poll visits toggles i t) (poll others toggles i t)
unfolding poll
poll-SamePoll visits others toggles h i t =
    SamePoll-both _ _ _
      (collect_target-SamePoll v.remote toggles t.cfg.name v.clock v.order (h i).left t.client)
      (subst (SamePoll (collect_target w.remote toggles t.cfg.name w.clock w.order t.client))
        (sym (
          ap₂ (λ r k. collect_target r toggles t.cfg.name k (λ nodes. nodes) t.client) (h i).remote
            (h i).clock))
        (collect_target-SamePoll w.remote toggles t.cfg.name w.clock w.order (h i).right t.client))
  where
    v : Visit
    v = visits i

    w : Visit
    w = others i

module _ (visits others : ℕ → Visit) (toggles : CollectorToggles)
    (h : (i : ℕ) → SameVisit (visits i) (others i)) where
  poll_each-Perm :
      (i : ℕ) (targets : List Target)
      → Perm
          (all_samples (map result_of (poll_each visits toggles i targets)))
          (all_samples (map result_of (poll_each others toggles i targets)))
  poll_each-Perm i [] = Perm.refl []
  poll_each-Perm i (t ∷ targets) =
      Perm.trans (Perm.append_right _ (poll-SamePoll visits others toggles h i t).samples)
        (Perm.append_left _ (poll_each-Perm (suc i) targets))

  advance-poll_each :
      (i : ℕ) (targets : List Target)
      → advance targets (poll_each visits toggles i targets)
        ≡ advance targets (poll_each others toggles i targets)
  unfolding advance
  advance-poll_each i [] = refl
  advance-poll_each i (t ∷ targets) =
      ap₂ (λ (c : Client) (l : List Target). record t { client = c } ∷ l)
        (poll-SamePoll visits others toggles h i t).client (advance-poll_each (suc i) targets)

module _ (visits others : ℕ → Visit) (toggles : CollectorToggles)
    (h : (i : ℕ) → SameVisit (visits i) (others i)) (name : String) where
  last_of-poll_each :
      (old older : Option TargetSnapshot) (i : ℕ) (rest : List Target)
      → state_of old ≡ state_of older
      → state_of (last_of name old (map result_of (poll_each visits toggles i rest)))
        ≡ state_of (last_of name older (map result_of (poll_each others toggles i rest)))
  last_of-poll_each old older i [] same = same
  last_of-poll_each old older i (t ∷ rest) same =
      let p = poll visits toggles i t in
      let q = poll others toggles i t in
      let k = poll-SamePoll visits others toggles h i t in
      last_of-poll_each (if p.0.cluster == name then some p.0 else old)
        (if q.0.cluster == name then some q.0 else older) (suc i) rest
        (state_of-if (p.0.cluster == name) (some p.0) (some q.0) old older (state_of-SamePoll p q k)
            same
          ∙ ap (λ c. state_of (if c == name then some q.0 else older)) k.cluster)

  states-poll_each :
      (ts : List Target)
      → state_of
          (lookup name (targets (build_snapshot (map result_of (poll_each visits toggles 0 ts)))))
        ≡ state_of
            (lookup name (targets (build_snapshot (map result_of (poll_each others toggles 0 ts)))))
  states-poll_each ts =
      ap state_of (targets-build_snapshot _ name)
      ∙ last_of-poll_each none none 0 ts refl
      ∙ sym (ap state_of (targets-build_snapshot _ name))

-- Two cycles of a collector that find the same replies at the same times, with the goroutines of
-- the targets under any two schedules and those of the nodes in any two orders, have the same
-- samples under each name, in some order, the same names and the same states of the targets, and
-- leave the same collector behind.
pub collect_all-SameCycle :
    (visits others : ℕ → Visit) (c : Collector) {g k : Group ℕ}
    → ((i : ℕ) → SameVisit (visits i) (others i))
    → Reach c.max_concurrent (launch (indices 0 c.targets)) g
    → IsDone g
    → Reach c.max_concurrent (launch (indices 0 c.targets)) k
    → IsDone k
    → SameCycle (collect_all visits g.finished c) (collect_all others k.finished c)
collect_all-SameCycle visits others c {g} {k} h r d r' d' =
    rw (collect_all-each visits c r d, collect_all-each others c r' d')
      (record {
        samples = λ name.
            contents-build_snapshot _ _ name (poll_each-Perm visits others c.toggles h 0 c.targets);
        names = λ name.
            names-build_snapshot _ _ name (poll_each-Perm visits others c.toggles h 0 c.targets);
        states = λ name. states-poll_each visits others c.toggles h name c.targets;
        collector =
            ap (λ (l : List Target). record c { targets = l })
              (advance-poll_each visits others c.toggles h 0 c.targets);
      })
