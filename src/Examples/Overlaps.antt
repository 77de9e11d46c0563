-- ===== src/Examples/Overlaps.antt =====
-- Runs of two reloads at a time.
use pve_exporter.Base.{String, ◌≡◌, refl, Option, some, List, [], ◌∷◌, map}
use pve_exporter.Base.Dict.{lookup, contains}
use pve_exporter.Models.Config.{Configuration, set_defaults}
use pve_exporter.Models.SafeConfig.{reload_config}
use pve_exporter.Utils.Env.{EnvError, resolve_secrets}
use pve_exporter.Server.{build_targets}
use pve_exporter.Server.Reload.{configs}
use pve_exporter.Server.Overlap.{
  Goroutine, file_watch, hang_up, idle, Shared, steps, IsSerial, Leaves, steps-Leaves,
}
use pve_exporter.Examples.{parse_duration}
use pve_exporter.Examples.Loads.{with_secret, holder, server, server-InStep}

-- The file before and after an edit.
abbrev first : String → Option String
first path = some "first"

abbrev second : String → Option String
second path = some "second"

abbrev decode : String → Option Configuration
decode text = some (with_secret text)

abbrev pub shared : Shared EnvError
shared = record {
  safe_cfg = holder;
  collector = server.collector;
  watch_phase = idle;
  hang_up_phase = idle;
}

abbrev in_turn : List (Goroutine × (String → Option String))
in_turn =
    (file_watch, first)
    ∷ (file_watch, first)
    ∷ (file_watch, first)
    ∷ (hang_up, second)
    ∷ (hang_up, second)
    ∷ (hang_up, second)
    ∷ []

-- The reload of the signal falls between the last two steps of the file watch.
abbrev crossed : List (Goroutine × (String → Option String))
crossed =
    (file_watch, first)
    ∷ (file_watch, first)
    ∷ (hang_up, second)
    ∷ (hang_up, second)
    ∷ (hang_up, second)
    ∷ (file_watch, first)
    ∷ []

abbrev secrets : Shared EnvError → List String × List String
secrets s = (
  map (λ c. c.token_secret) (configs s.collector.targets),
  map (λ c. c.token_secret) s.safe_cfg.config.clusters,
)

in_turn_test :
    secrets (steps decode parse_duration "config.yaml" in_turn shared)
    ≡ ("second" ∷ [], "second" ∷ [])
unfolding steps reload_config resolve_secrets build_targets set_defaults lookup contains
in_turn_test = refl

-- Both reloads are done, and the targets are older than the configuration.
crossed_test :
    secrets (steps decode parse_duration "config.yaml" crossed shared)
    ≡ ("first" ∷ [], "second" ∷ [])
unfolding steps reload_config resolve_secrets build_targets set_defaults lookup contains
crossed_test = refl

in_turn-IsSerial : IsSerial decode parse_duration "config.yaml" in_turn shared
unfolding steps reload_config resolve_secrets build_targets set_defaults lookup contains
in_turn-IsSerial = (refl, (refl, (refl, (refl, (refl, (refl, tt))))))

in_turn_watch : (steps decode parse_duration "config.yaml" in_turn shared).watch_phase ≡ idle
unfolding steps reload_config resolve_secrets build_targets set_defaults lookup contains
in_turn_watch = refl

in_turn_hang_up : (steps decode parse_duration "config.yaml" in_turn shared).hang_up_phase ≡ idle
unfolding steps reload_config resolve_secrets build_targets set_defaults lookup contains
in_turn_hang_up = refl

steps-Leaves_example :
    Leaves decode parse_duration "config.yaml" idle
      (steps decode parse_duration "config.yaml" in_turn shared).safe_cfg
      (steps decode parse_duration "config.yaml" in_turn shared).collector
steps-Leaves_example =
    steps-Leaves decode parse_duration "config.yaml" in_turn shared refl refl server-InStep
      in_turn-IsSerial in_turn_watch in_turn_hang_up
