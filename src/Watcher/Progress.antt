-- ===== src/Watcher/Progress.antt =====
-- internal/config/watcher.go and main.go: from a load of the configuration to the snapshot, over the
-- steps of the reloads and the ticks of the loop.
use mathlib.Core.Path.{subst}
use pve_exporter.Base.{
  ℕ, zero, suc, ◌+◌, ◌-◌, ◌≤◌, String, ◌≡◌, refl, sym, ap, ◌∙◌, Bool, true, false, Option, List,
  inl, inr, arith, if◌then◌else◌,
}
use pve_exporter.Base.Int.{ℤ}
use pve_exporter.Base.Fallible.{Fallible}
use pve_exporter.Models.Config.{ClusterConfig, Configuration}
use pve_exporter.Models.SafeConfig.{LoadError}
use pve_exporter.Pve.Snapshot.{load, store}
use pve_exporter.Pve.Collector.Cycle.{Collector, Visit, collect_all, collect_once}
use pve_exporter.Server.Reload.{configs, configs-collect_once}
use pve_exporter.Server.Overlap.{
  Phase, idle, changed, built, Goroutine, file_watch, hang_up, Shared, phase, step, step_from,
}
use pve_exporter.Watcher.{Watcher}
use pve_exporter.Watcher.Schedule.{Step, tick, proceed, is_idle, turn, turn-keeps, states}
use pve_exporter.Watcher.InForce.{
  IsInForce, remaining, IsDue, Loads, step_from-IsInForce, step_from-IsDue, step_from-nearer,
}

-- The store holds what a cycle over these clusters collected.
pub record IsPublished (clusters : List ClusterConfig) (c : Collector) : Type 0 where
  pub collector : Collector
  pub visits : ℕ → Visit
  pub finished : List ℕ
  pub targets : configs collector.targets ≡ clusters
  pub holds : load c.store ≡ (collect_all visits finished collector).0

-- The configuration is in force, the targets are its clusters, and the store has a snapshot of them.
abbrev pub IsServed : {E : Type 0} → Configuration → Shared E → Type 0
IsServed cfg s =
    (s.safe_cfg.config ≡ cfg)
    × (configs s.collector.targets ≡ cfg.clusters)
    × IsPublished cfg.clusters s.collector

-- What holds at a step and is kept from there on holds at all later steps.
pub from {ℓ} :
    (P : ℕ → Type ℓ) (m : ℕ) → P m → ((k : ℕ) → m ≤ k → P k → P (suc k)) → (k : ℕ) → m ≤ k → P k
from P m h keeps k q = subst P (omega arith) (go (k - m))
  where
    go : (d : ℕ) → P (d + m)
    go zero = subst P (omega arith) h
    go (suc d) = subst P (omega arith) (keeps (d + m) (omega arith) (go d))

module _ (decode : String → Option Configuration) (parse_duration : String → Option ℤ)
    (create write : ℕ) (path : String) where
  module _ {E : Type 0} (schedule : ℕ → Step) (files : ℕ → String → Option String)
      (start : Watcher (LoadError E) (Shared E)) where
    abbrev resolver : Option (Configuration → Fallible E Configuration)
    resolver = start.state.safe_cfg.resolver

    abbrev pub state_at : ℕ → Watcher (LoadError E) (Shared E)
    state_at = states decode parse_duration create write path schedule files start

    module _ (cfg : Configuration)
        (loads : (k : ℕ) → Loads decode parse_duration path resolver cfg (files k)) where
      abbrev pub InForce : Shared E → Type 0
      InForce = IsInForce decode parse_duration path resolver cfg

      -- `cfg` is in force, and the targets follow in at most `n` steps of the file watch.
      abbrev pub Awaits : ℕ → Shared E → Type 0
      Awaits n s = InForce s × IsDue decode parse_duration path resolver cfg n s

      IsDue-collect_once :
          (n : ℕ) (visits : ℕ → Visit) (finished : List ℕ) (s : Shared E)
          → IsDue decode parse_duration path resolver cfg n s
          → IsDue decode parse_duration path resolver cfg n
              (record s { collector = (collect_once visits finished s.collector).1 })
      IsDue-collect_once n visits finished s (inl h) =
          inl (configs-collect_once visits finished s.collector ∙ h)
      IsDue-collect_once n visits finished s (inr h) = inr h

      InForce-collect_once :
          (visits : ℕ → Visit) (finished : List ℕ) (s : Shared E)
          → InForce s
          → InForce (record s { collector = (collect_once visits finished s.collector).1 })
      InForce-collect_once visits finished s h = record {
        kept = h.kept;
        in_force = h.in_force;
        watch = h.watch;
        hangs = h.hangs;
      }

      step-Awaits :
          (n k : ℕ) (g : Goroutine) (s : Shared E)
          → Awaits n s
          → Awaits n (step decode parse_duration path g (files k) s)
      unfolding step
      step-Awaits n k g s h = (
        step_from-IsInForce decode parse_duration path resolver cfg (files k) (loads k) g
            (phase g s) s h.0,
        step_from-IsDue decode parse_duration path resolver cfg (files k) (loads k) n g (phase g s)
            s refl h.0 h.1,
      )

      pub states-Awaits :
          (n k : ℕ) → Awaits n (state_at k).state → Awaits n (state_at (suc k)).state
      unfolding states
      states-Awaits n k h =
          turn-keeps decode parse_duration create write path (Awaits n) (files k)
            (λ g s q. step-Awaits n k g s q)
            (λ visits finished s q. (
              InForce-collect_once visits finished s q.0,
              IsDue-collect_once n visits finished s q.1,
            ))
            (schedule k) (state_at k) h

      -- Between reloads a goroutine that goes on does nothing, and nothing is due.
      idle-nearer :
          (n : ℕ) (p : Phase) (s : Shared E)
          → s.watch_phase ≡ p
          → is_idle p ≡ true
          → IsDue decode parse_duration path resolver cfg (suc n) s
          → IsDue decode parse_duration path resolver cfg n s
      idle-nearer n p s e i (inl h) = inl h
      idle-nearer n idle s e i (inr h) =
          let none : remaining decode parse_duration path resolver cfg s.watch_phase ≡ 0 =
            ap (remaining decode parse_duration path resolver cfg) e in
          absurd (omega (arith, h.0))
      idle-nearer n changed s e i (inr h) = absurd (ground (arith, i))
      idle-nearer n (built targets) s e i (inr h) = absurd (ground (arith, i))

      branch-nearer :
          (n k : ℕ) (b : Bool) (w : Watcher (LoadError E) (Shared E))
          → is_idle w.state.watch_phase ≡ b
          → Awaits (suc n) w.state
          → Awaits n
              (if b then w else record w {
                state = step decode parse_duration path file_watch (files k) w.state;
              }).state
      unfolding step
      branch-nearer n k true w e h = (h.0, idle-nearer n w.state.watch_phase w.state refl e h.1)
      branch-nearer n k false w e h = (
        (step-Awaits (suc n) k file_watch w.state h).0,
        step_from-nearer decode parse_duration path resolver cfg (files k) (loads k) n
            w.state.watch_phase w.state refl h.0 h.1,
      )

      pub states-nearer :
          (n k : ℕ)
          → schedule k ≡ proceed file_watch
          → Awaits (suc n) (state_at k).state
          → Awaits n (state_at (suc k)).state
      unfolding states turn
      states-nearer n k e h =
          subst
            (λ next.
              Awaits n
                (turn decode parse_duration create write path (files k) next (state_at k)).state)
            (sym e) (branch-nearer n k (is_idle (state_at k).state.watch_phase) (state_at k) refl h)

      -- The targets are set.
      abbrev pub Settled : Shared E → Type 0
      Settled s = InForce s × (configs s.collector.targets ≡ cfg.clusters)

      pub settled : (s : Shared E) → Awaits 0 s → Settled s
      settled s (h, inl k) = (h, k)
      settled s (h, inr k) = absurd (omega arith)

      step-Published :
          (g : Goroutine) (p : Phase) (read_file : String → Option String) (s : Shared E)
          → IsPublished cfg.clusters s.collector
          → IsPublished cfg.clusters
              (step_from decode parse_duration path g p read_file s).collector
      unfolding step_from
      step-Published file_watch idle read_file s h = h
      step-Published hang_up idle read_file s h = h
      step-Published file_watch changed read_file s h = h
      step-Published hang_up changed read_file s h = h
      step-Published file_watch (built targets) read_file s h = record {
        collector = h.collector;
        visits = h.visits;
        finished = h.finished;
        targets = h.targets;
        holds = h.holds;
      }
      step-Published hang_up (built targets) read_file s h = record {
        collector = h.collector;
        visits = h.visits;
        finished = h.finished;
        targets = h.targets;
        holds = h.holds;
      }

      abbrev pub Kept : Shared E → Type 0
      Kept s = Awaits 0 s × IsPublished cfg.clusters s.collector

      collect_once-Kept :
          (visits : ℕ → Visit) (finished : List ℕ) (s : Shared E)
          → Awaits 0 s
          → Kept (record s { collector = (collect_once visits finished s.collector).1 })
      unfolding collect_once load store
      collect_once-Kept visits finished s h = (
        (InForce-collect_once visits finished s h.0, IsDue-collect_once 0 visits finished s h.1),
        record {
          collector = s.collector;
          visits = visits;
          finished = finished;
          targets = (settled s h).1;
          holds = refl;
        },
      )

      pub states-Kept : (k : ℕ) → Kept (state_at k).state → Kept (state_at (suc k)).state
      unfolding states step
      states-Kept k h =
          turn-keeps decode parse_duration create write path Kept (files k)
            (λ g s q. (step-Awaits 0 k g s q.0, step-Published g (phase g s) (files k) s q.1))
            (λ visits finished s q. collect_once-Kept visits finished s q.0) (schedule k)
            (state_at k) h

      -- A tick publishes the clusters in force.
      pub states-tick :
          (k : ℕ) (visits : ℕ → Visit) (finished : List ℕ)
          → schedule k ≡ tick visits finished
          → Awaits 0 (state_at k).state
          → Kept (state_at (suc k)).state
      unfolding states turn
      states-tick k visits finished e h =
          subst
            (λ next.
              Kept (turn decode parse_duration create write path (files k) next (state_at k)).state)
            (sym e) (collect_once-Kept visits finished (state_at k).state h)
