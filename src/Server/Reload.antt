-- ===== src/Server/Reload.antt =====
-- main.go: the targets of the collector against the clusters of the configuration.
use pve_exporter.Base.{
  ℕ, String, ◌≡◌, refl, sym, ap, ◌∙◌, Bool, true, false, Option, none, some, List, [], ◌∷◌, map,
  inl, inr, arith,
}
use pve_exporter.Base.Int.{ℤ}
use pve_exporter.Base.Fallible.{Fallible, value, failure}
use pve_exporter.Models.Config.{ClusterConfig, Configuration}
use pve_exporter.Models.SafeConfig.{LoadError, SafeConfig}
use pve_exporter.Models.SafeConfig.Loading.{ReloadCases, reload_config-ReloadCases}
use pve_exporter.Pve.Collector.{Target}
use pve_exporter.Pve.Collector.Cycle.{Collector, Visit, Slot, advance, collect_all, collect_once}
use pve_exporter.Server.{Server, build_targets, rebuilt, reload_server}

abbrev pub configs : List Target → List ClusterConfig
configs = map (λ t. t.cfg)

-- The targets are those of the current configuration, in its order.
abbrev pub InStep : {E : Type 0} → Server E → Type 0
InStep s = configs s.collector.targets ≡ s.safe_cfg.config.clusters

pub configs-build_targets : (cls : List ClusterConfig) → configs (build_targets cls) ≡ cls
unfolding build_targets
configs-build_targets [] = refl
configs-build_targets (cl ∷ cls) = ap (λ l. cl ∷ l) (configs-build_targets cls)

configs-advance :
    (targets : List Target) (slots : List Slot) → configs (advance targets slots) ≡ configs targets
unfolding advance
configs-advance [] slots = refl
configs-advance (t ∷ targets) [] = refl
configs-advance (t ∷ targets) (none ∷ slots) = ap (λ l. t.cfg ∷ l) (configs-advance targets slots)
configs-advance (t ∷ targets) (some (s, c) ∷ slots) =
    ap (λ l. t.cfg ∷ l) (configs-advance targets slots)

-- A cycle keeps the configurations of the targets.
pub configs-collect_once :
    (visits : ℕ → Visit) (finished : List ℕ) (c : Collector)
    → configs (collect_once visits finished c).1.targets ≡ configs c.targets
unfolding collect_once collect_all
configs-collect_once visits finished c = configs-advance _ _

module _ {E : Type 0} (read_file : String → Option String) (decode : String → Option Configuration)
    (parse_duration : String → Option ℤ) where
  rebuilt-InStep :
      (s : Server E) (cfg : SafeConfig E) (r : Fallible (LoadError E) Bool)
      → ReloadCases read_file decode parse_duration s.safe_cfg (cfg, r)
      → InStep s
      → InStep (rebuilt read_file decode parse_duration s (cfg, r)).0
  unfolding rebuilt
  rebuilt-InStep s cfg (failure e) (inl h) k = k ∙ ap (λ c. c.config.clusters) (sym h.0)
  rebuilt-InStep s cfg (failure e) (inr (ready, kept, inl q)) k = ground (arith, q)
  rebuilt-InStep s cfg (failure e) (inr (ready, kept, inr (q, same))) k = k ∙ sym same
  rebuilt-InStep s cfg (value true) h k = configs-build_targets cfg.config.clusters
  rebuilt-InStep s cfg (value false) (inl h) k = k ∙ ap (λ c. c.config.clusters) (sym h.0)
  rebuilt-InStep s cfg (value false) (inr (ready, kept, inl q)) k = ground (arith, q)
  rebuilt-InStep s cfg (value false) (inr (ready, kept, inr (q, same))) k = k ∙ sym same

  -- A reload of the server, whether it fails or succeeds and whether the clusters change or not,
  -- leaves the targets in step with the configuration that it leaves.
  pub reload_server-InStep :
      (path : String) (s : Server E)
      → InStep s
      → InStep (reload_server read_file decode parse_duration path s).0
  unfolding reload_server
  reload_server-InStep path s h =
      rebuilt-InStep s _ _
        (reload_config-ReloadCases read_file decode parse_duration path s.safe_cfg) h
