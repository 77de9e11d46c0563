-- ===== src/Examples/Configs.antt =====
-- Runs of the configuration.
use pve_exporter.Base.{◌≡◌, refl, none, some, ◌∷◌, [], ◌↔◌}
use pve_exporter.Base.Dict.{lookup, contains}
use pve_exporter.Models.Config.{set_defaults, validate, duplicate_name}
use pve_exporter.Models.Config.Valid.{IsValid, validate_iff}
use pve_exporter.Examples.{config, cluster, parse_duration}

accepts : (validate parse_duration config).1 ≡ none
unfolding validate set_defaults lookup contains
accepts = refl

rejects :
    (validate parse_duration (record config { clusters = cluster "a" ∷ cluster "a" ∷ [] })).1
    ≡ some (duplicate_name 1 "a")
unfolding validate set_defaults lookup contains
rejects = refl

validate_iff_example :
    ((validate parse_duration config).1 ≡ none) ↔ IsValid parse_duration (set_defaults config)
validate_iff_example = validate_iff parse_duration config
