-- ===== src/Watcher/Live.antt =====
-- internal/config/watcher.go and main.go: an edit of the configuration file, from the event to the
-- snapshot, with the reloads in their steps.
use pve_exporter.Base.{ℕ, String, Option}
use pve_exporter.Base.Int.{ℤ}
use pve_exporter.Base.Fallible.{Fallible}
use pve_exporter.Models.Config.{Configuration}
use pve_exporter.Models.SafeConfig.{LoadError}
use pve_exporter.Server.Overlap.{Shared}
use pve_exporter.Watcher.{Watcher}
use pve_exporter.Watcher.Schedule.{Step, states}

module _ (decode : String → Option Configuration) (parse_duration : String → Option ℤ)
    (create write : ℕ) (path : String) where
  module _ {E : Type 0} (schedule : ℕ → Step) (files : ℕ → String → Option String)
      (start : Watcher (LoadError E) (Shared E)) where
    abbrev resolver : Option (Configuration → Fallible E Configuration)
    resolver = start.state.safe_cfg.resolver

    abbrev state_at : ℕ → Watcher (LoadError E) (Shared E)
    state_at = states decode parse_duration create write path schedule files start
