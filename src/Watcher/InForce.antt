-- ===== src/Watcher/InForce.antt =====
-- main.go: the steps of the reloads while the file loads as one configuration.
use mathlib.Core.Path.{subst}
use pve_exporter.Base.{
  ℕ, suc, ◌≤◌, String, ◌≡◌, sym, ap, ◌∙◌, Bool, true, false, Option, inl, inr, ◌⊎◌, arith,
}
use pve_exporter.Base.Int.{ℤ}
use pve_exporter.Base.Fallible.{Fallible, value, failure}
use pve_exporter.Models.Config.{Configuration}
use pve_exporter.Models.SafeConfig.{LoadError, SafeConfig, load_config, reload_config}
use pve_exporter.Models.SafeConfig.Loading.{
  ReloadCases, reload_config-ReloadCases, reload_config-value,
}
use pve_exporter.Pve.Collector.Cycle.{Collector}
use pve_exporter.Server.Reload.{configs, configs-build_targets}
use pve_exporter.Server.Overlap.{
  Phase, idle, changed, built, Goroutine, file_watch, hang_up, Shared, phase, after_load, step_from,
  Leaves, after_load-Leaves,
}

module _ {E : Type 0} (decode : String → Option Configuration) (parse_duration : String → Option ℤ)
    (path : String) (resolver : Option (Configuration → Fallible E Configuration))
    (cfg : Configuration) where
  -- The targets that a goroutine has built are those of `cfg`.
  abbrev Fits : Phase → Type 0
  Fits idle = Unit
  Fits changed = Unit
  Fits (built targets) = configs targets ≡ cfg.clusters

  -- `cfg` is in force, and no goroutine holds older targets.
  pub record IsInForce (s : Shared E) : Type 0 where
    pub kept : s.safe_cfg.resolver ≡ resolver
    pub in_force : s.safe_cfg.config ≡ cfg
    pub watch : Fits s.watch_phase
    pub hangs : Fits s.hang_up_phase

  -- How many steps a reload still takes.
  abbrev pub remaining : Phase → ℕ
  remaining idle = 0
  remaining changed = 2
  remaining (built targets) = 1

  -- The targets are those of `cfg`, or the file watch sets them in at most so many steps.
  abbrev pub IsDue : ℕ → Shared E → Type 0
  IsDue n s =
      (configs s.collector.targets ≡ cfg.clusters)
      ⊎ ((1 ≤ remaining s.watch_phase) × (remaining s.watch_phase ≤ n))

  abbrev pub Loads : (String → Option String) → Type 0
  Loads read_file = load_config read_file decode parse_duration resolver path ≡ value cfg

  Fits-after_load : (r : Fallible (LoadError E) Bool) → Fits (after_load r)
  Fits-after_load (failure e) = tt
  Fits-after_load (value true) = tt
  Fits-after_load (value false) = tt

  module _ (read_file : String → Option String) (loads : Loads read_file) where
    resolver_of_cases :
        (s : SafeConfig E) (r : SafeConfig E × Fallible (LoadError E) Bool)
        → ReloadCases read_file decode parse_duration s r
        → r.0.resolver ≡ s.resolver
    resolver_of_cases s r (inl h) = ap (λ c. c.resolver) h.0
    resolver_of_cases s r (inr h) = h.1

    reload_config-resolver :
        (s : SafeConfig E)
        → s.resolver ≡ resolver
        → (reload_config read_file decode parse_duration path s).0.resolver ≡ resolver
    reload_config-resolver s h =
        resolver_of_cases s _ (reload_config-ReloadCases read_file decode parse_duration path s) ∙ h

    reload_config-config :
        (s : SafeConfig E)
        → s.resolver ≡ resolver
        → (reload_config read_file decode parse_duration path s).0.config ≡ cfg
    reload_config-config s h =
        reload_config-value read_file decode parse_duration path s cfg (
          subst (λ r. load_config read_file decode parse_duration r path ≡ value cfg) (sym h) loads)

    pub step_from-IsInForce :
        (g : Goroutine) (p : Phase) (s : Shared E)
        → IsInForce s
        → IsInForce (step_from decode parse_duration path g p read_file s)
    unfolding step_from
    step_from-IsInForce file_watch idle s h = record {
      kept = reload_config-resolver s.safe_cfg h.kept;
      in_force = reload_config-config s.safe_cfg h.kept;
      watch = Fits-after_load _;
      hangs = h.hangs;
    }
    step_from-IsInForce hang_up idle s h = record {
      kept = reload_config-resolver s.safe_cfg h.kept;
      in_force = reload_config-config s.safe_cfg h.kept;
      watch = h.watch;
      hangs = Fits-after_load _;
    }
    step_from-IsInForce file_watch changed s h = record {
      kept = h.kept;
      in_force = h.in_force;
      watch = configs-build_targets _ ∙ ap (λ c. c.clusters) h.in_force;
      hangs = h.hangs;
    }
    step_from-IsInForce hang_up changed s h = record {
      kept = h.kept;
      in_force = h.in_force;
      watch = h.watch;
      hangs = configs-build_targets _ ∙ ap (λ c. c.clusters) h.in_force;
    }
    step_from-IsInForce file_watch (built targets) s h = record {
      kept = h.kept;
      in_force = h.in_force;
      watch = tt;
      hangs = h.hangs;
    }
    step_from-IsInForce hang_up (built targets) s h = record {
      kept = h.kept;
      in_force = h.in_force;
      watch = h.watch;
      hangs = tt;
    }

    -- No step delays the targets.
    pub step_from-IsDue :
        (n : ℕ) (g : Goroutine) (p : Phase) (s : Shared E)
        → phase g s ≡ p
        → IsInForce s
        → IsDue n s
        → IsDue n (step_from decode parse_duration path g p read_file s)
    unfolding step_from
    step_from-IsDue n hang_up idle s e h k = k
    step_from-IsDue n hang_up changed s e h k = k
    step_from-IsDue n hang_up (built targets) s e h k = inl (subst Fits e h.hangs)
    step_from-IsDue n file_watch idle s e h (inl k) = inl k
    step_from-IsDue n file_watch idle s e h (inr (k, l)) =
        let stuck : remaining s.watch_phase ≡ 0 = ap remaining e in absurd (omega arith)
    step_from-IsDue n file_watch changed s e h (inl k) = inl k
    step_from-IsDue n file_watch changed s e h (inr (k, l)) =
        let two : remaining s.watch_phase ≡ 2 = ap remaining e in inr (omega arith, omega arith)
    step_from-IsDue n file_watch (built targets) s e h k = inl (subst Fits e h.watch)

    -- A step of the file watch brings them nearer.
    pub step_from-nearer :
        (n : ℕ) (p : Phase) (s : Shared E)
        → s.watch_phase ≡ p
        → IsInForce s
        → IsDue (suc n) s
        → IsDue n (step_from decode parse_duration path file_watch p read_file s)
    unfolding step_from
    step_from-nearer n idle s e h (inl k) = inl k
    step_from-nearer n idle s e h (inr (k, l)) =
        let stuck : remaining s.watch_phase ≡ 0 = ap remaining e in absurd (omega arith)
    step_from-nearer n changed s e h (inl k) = inl k
    step_from-nearer n changed s e h (inr (k, l)) =
        let two : remaining s.watch_phase ≡ 2 = ap remaining e in inr (omega arith, omega arith)
    step_from-nearer n (built targets) s e h k = inl (subst Fits e h.watch)

    IsDue-after_load :
        (r : Fallible (LoadError E) Bool) (new : SafeConfig E) (c : Collector)
        → new.config ≡ cfg
        → Leaves decode parse_duration path (after_load r) new c
        → (configs c.targets ≡ cfg.clusters)
          ⊎ ((1 ≤ remaining (after_load r)) × (remaining (after_load r) ≤ 2))
    IsDue-after_load (failure e) new c q h = inl (h ∙ ap (λ x. x.clusters) q)
    IsDue-after_load (value true) new c q h = inr (omega arith, omega arith)
    IsDue-after_load (value false) new c q h = inl (h ∙ ap (λ x. x.clusters) q)

    -- The file watch begins a reload where the other goroutine is between reloads.
    pub begin-IsDue :
        (s : Shared E)
        → s.safe_cfg.resolver ≡ resolver
        → s.hang_up_phase ≡ idle
        → configs s.collector.targets ≡ s.safe_cfg.config.clusters
        → IsInForce (step_from decode parse_duration path file_watch idle read_file s)
          × IsDue 2 (step_from decode parse_duration path file_watch idle read_file s)
    unfolding step_from
    begin-IsDue s kept alone h = (
      record {
        kept = reload_config-resolver s.safe_cfg kept;
        in_force = reload_config-config s.safe_cfg kept;
        watch = Fits-after_load _;
        hangs = subst Fits (sym alone) tt;
      },
      IsDue-after_load _ _ s.collector (reload_config-config s.safe_cfg kept) (
          after_load-Leaves decode parse_duration path read_file s.safe_cfg _ s.collector _
            (reload_config-ReloadCases read_file decode parse_duration path s.safe_cfg) h),
    )
