-- ===== src/Server/Overlap.antt =====
-- main.go: the steps of `server.ReloadConfig` in the goroutine of the signal and in that of the file
-- watch. `SafeConfig.ReloadConfig` is one step, under its lock; reading the configuration to build
-- the targets is the next, and setting them the last.
use mathlib.Core.Path.{subst}
use pve_exporter.Base.{
  String, ◌≡◌, refl, sym, ap, ◌∙◌, Bool, true, false, Option, List, [], ◌∷◌, inl, inr, arith,
}
use pve_exporter.Base.Int.{ℤ}
use pve_exporter.Base.Fallible.{Fallible, value, failure}
use pve_exporter.Models.Config.{Configuration}
use pve_exporter.Models.SafeConfig.{LoadError, SafeConfig, reload_config}
use pve_exporter.Models.SafeConfig.Loading.{ReloadCases, reload_config-ReloadCases}
use pve_exporter.Pve.Collector.{Target}
use pve_exporter.Pve.Collector.Cycle.{Collector, set_targets}
use pve_exporter.Server.{build_targets}
use pve_exporter.Server.Reload.{configs, configs-build_targets}

-- Where a goroutine is: between reloads, behind a load that changed the clusters, or with the
-- targets built and not yet set.
pub data Phase : Type 0 where
  idle changed : Phase
  built : List Target → Phase

pub data Goroutine : Type 0 where
  file_watch hang_up : Goroutine

pub record Shared (E : Type 0) : Type 0 where
  pub safe_cfg : SafeConfig E
  pub collector : Collector
  pub watch_phase : Phase
  pub hang_up_phase : Phase

abbrev pub phase : {E : Type 0} → Goroutine → Shared E → Phase
phase file_watch s = s.watch_phase
phase hang_up s = s.hang_up_phase

abbrev pub other : Goroutine → Goroutine
other file_watch = hang_up
other hang_up = file_watch

abbrev pub at_phase : {E : Type 0} → Goroutine → Phase → Shared E → Shared E
at_phase file_watch p s = record s { watch_phase = p }
at_phase hang_up p s = record s { hang_up_phase = p }

abbrev pub after_load : {E : Type 0} → Fallible (LoadError E) Bool → Phase
after_load (failure e) = idle
after_load (value false) = idle
after_load (value true) = changed

module _ {E : Type 0} (decode : String → Option Configuration) (parse_duration : String → Option ℤ)
    (path : String) where
  -- The next step of a goroutine in a phase; `read_file` is the file system at that time.
  unfoldable pub step_from : Goroutine → Phase → (String → Option String) → Shared E → Shared E
  unfolding build_targets
  step_from g idle read_file s =
      let (cfg, r) = reload_config read_file decode parse_duration path s.safe_cfg in
      at_phase g (after_load r) (record s { safe_cfg = cfg })
  step_from g changed read_file s = at_phase g (built (build_targets s.safe_cfg.config.clusters)) s
  step_from g (built targets) read_file s =
      at_phase g idle (record s { collector = set_targets targets s.collector })

  unfoldable pub step : Goroutine → (String → Option String) → Shared E → Shared E
  unfolding step_from
  step g read_file s = step_from g (phase g s) read_file s

  unfoldable pub steps : List (Goroutine × (String → Option String)) → Shared E → Shared E
  unfolding step
  steps [] s = s
  steps ((g, read_file) ∷ schedule) s = steps schedule (step g read_file s)

  -- Each step finds the other goroutine between reloads.
  abbrev pub IsSerial : List (Goroutine × (String → Option String)) → Shared E → Type 0
  IsSerial [] s = Unit
  IsSerial ((g, read_file) ∷ schedule) s =
      (phase (other g) s ≡ idle) × IsSerial schedule (step g read_file s)

  -- From its phase on, a goroutine leaves the targets of the configuration.
  abbrev pub Leaves : Phase → SafeConfig E → Collector → Type 0
  Leaves idle cfg c = configs c.targets ≡ cfg.config.clusters
  Leaves changed cfg c = Unit
  Leaves (built targets) cfg c = configs targets ≡ cfg.config.clusters

  -- A load with any outcome.
  pub after_load-Leaves :
      (read_file : String → Option String) (old cfg : SafeConfig E) (c : Collector)
      (r : Fallible (LoadError E) Bool)
      → ReloadCases read_file decode parse_duration old (cfg, r)
      → Leaves idle old c
      → Leaves (after_load r) cfg c
  after_load-Leaves read_file old cfg c (value true) h k = tt
  after_load-Leaves read_file old cfg c (failure e) (inl h) k =
      k ∙ ap (λ x. x.config.clusters) (sym h.0)
  after_load-Leaves read_file old cfg c (failure e) (inr (ready, kept, inl q)) k = ground (arith, q)
  after_load-Leaves read_file old cfg c (failure e) (inr (ready, kept, inr (q, same))) k =
      k ∙ sym same
  after_load-Leaves read_file old cfg c (value false) (inl h) k =
      k ∙ ap (λ x. x.config.clusters) (sym h.0)
  after_load-Leaves read_file old cfg c (value false) (inr (ready, kept, inl q)) k =
      ground (arith, q)
  after_load-Leaves read_file old cfg c (value false) (inr (ready, kept, inr (q, same))) k =
      k ∙ sym same

  LeavesAt : Goroutine → Shared E → Type 0
  LeavesAt g s = Leaves (phase g s) s.safe_cfg s.collector

  step_from-LeavesAt :
      (g : Goroutine) (p : Phase) (read_file : String → Option String) (s : Shared E)
      → Leaves p s.safe_cfg s.collector
      → LeavesAt g (step_from g p read_file s)
  unfolding step_from LeavesAt
  step_from-LeavesAt file_watch idle read_file s h =
      after_load-Leaves read_file s.safe_cfg _ s.collector _
        (reload_config-ReloadCases read_file decode parse_duration path s.safe_cfg) h
  step_from-LeavesAt hang_up idle read_file s h =
      after_load-Leaves read_file s.safe_cfg _ s.collector _
        (reload_config-ReloadCases read_file decode parse_duration path s.safe_cfg) h
  step_from-LeavesAt file_watch changed read_file s h = configs-build_targets _
  step_from-LeavesAt hang_up changed read_file s h = configs-build_targets _
  step_from-LeavesAt file_watch (built targets) read_file s h = h
  step_from-LeavesAt hang_up (built targets) read_file s h = h

  -- The other goroutine stays where it is.
  other-step_from :
      (g : Goroutine) (p : Phase) (read_file : String → Option String) (s : Shared E)
      → phase (other g) (step_from g p read_file s) ≡ phase (other g) s
  unfolding step_from
  other-step_from file_watch idle read_file s = refl
  other-step_from hang_up idle read_file s = refl
  other-step_from file_watch changed read_file s = refl
  other-step_from hang_up changed read_file s = refl
  other-step_from file_watch (built targets) read_file s = refl
  other-step_from hang_up (built targets) read_file s = refl

  -- Where the other goroutine is between reloads, a goroutine leaves the targets of the
  -- configuration.
  IsSettled : Shared E → Type 0
  IsSettled s = (g : Goroutine) → phase (other g) s ≡ idle → LeavesAt g s

  Leaves-idle :
      (p q : Phase) (cfg : SafeConfig E) (c : Collector)
      → p ≡ idle
      → q ≡ idle
      → Leaves p cfg c
      → Leaves q cfg c
  Leaves-idle p q cfg c e f = subst (λ x. Leaves x cfg c) (e ∙ sym f)

  step-IsSettled :
      (g : Goroutine) (read_file : String → Option String) (s : Shared E)
      → phase (other g) s ≡ idle
      → IsSettled s
      → IsSettled (step g read_file s)
  unfolding step IsSettled LeavesAt
  step-IsSettled file_watch read_file s e h file_watch q =
      step_from-LeavesAt file_watch (phase file_watch s) read_file s (h file_watch e)
  step-IsSettled file_watch read_file s e h hang_up q =
      Leaves-idle _ _ _ _ q (other-step_from file_watch (phase file_watch s) read_file s ∙ e)
        (step_from-LeavesAt file_watch (phase file_watch s) read_file s (h file_watch e))
  step-IsSettled hang_up read_file s e h hang_up q =
      step_from-LeavesAt hang_up (phase hang_up s) read_file s (h hang_up e)
  step-IsSettled hang_up read_file s e h file_watch q =
      Leaves-idle _ _ _ _ q (other-step_from hang_up (phase hang_up s) read_file s ∙ e)
        (step_from-LeavesAt hang_up (phase hang_up s) read_file s (h hang_up e))

  steps-IsSettled :
      (schedule : List (Goroutine × (String → Option String))) (s : Shared E)
      → IsSerial schedule s
      → IsSettled s
      → IsSettled (steps schedule s)
  unfolding steps
  steps-IsSettled [] s serial h = h
  steps-IsSettled ((g, read_file) ∷ schedule) s serial h =
      steps-IsSettled schedule (step g read_file s) serial.1
        (step-IsSettled g read_file s serial.0 h)

  -- If both goroutines are between reloads and the targets are those of the configuration, then
  -- after any steps of both that do not overlap, each finding the other goroutine between reloads,
  -- the targets are those of the configuration whenever both are between reloads again, whatever
  -- the files hold at each step.
  pub steps-Leaves :
      (schedule : List (Goroutine × (String → Option String))) (s : Shared E)
      → s.watch_phase ≡ idle
      → s.hang_up_phase ≡ idle
      → Leaves idle s.safe_cfg s.collector
      → IsSerial schedule s
      → (steps schedule s).watch_phase ≡ idle
      → (steps schedule s).hang_up_phase ≡ idle
      → Leaves idle (steps schedule s).safe_cfg (steps schedule s).collector
  unfolding IsSettled LeavesAt
  steps-Leaves schedule s a b h serial c d =
      Leaves-idle _ idle _ _ c refl (steps-IsSettled schedule s serial start file_watch d)
    where
      start : (g : Goroutine) → phase (other g) s ≡ idle → Leaves (phase g s) s.safe_cfg s.collector
      start file_watch e = subst (λ p. Leaves p s.safe_cfg s.collector) (sym a) h
      start hang_up e = subst (λ p. Leaves p s.safe_cfg s.collector) (sym b) h
