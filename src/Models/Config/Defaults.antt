-- ===== src/Models/Config/Defaults.antt =====
-- internal/models/config.go: `SetDefaults` and `Validate`, repeated.
use pve_exporter.Base.{String, ◌≡◌, ap, Option, arith, if◌then◌else◌}
use pve_exporter.Base.Float.{Float64, is_zero}
use pve_exporter.Base.Int.{ℤ}
use pve_exporter.Models.Config.{
  Configuration, or_default, check, set_defaults, validate, default_sampling_rate,
}

or_default_idem : (s d : String) → or_default (or_default s d) d ≡ or_default s d
or_default_idem s d = ground arith

sampling_idem :
    (x : Float64)
    → let y = if is_zero x then default_sampling_rate else x in
      (if is_zero y then default_sampling_rate else y) ≡ y
sampling_idem x = ground arith

-- The defaults set a second time change nothing.
pub set_defaults_idem : (c : Configuration) → set_defaults (set_defaults c) ≡ set_defaults c
unfolding set_defaults
set_defaults_idem c = simp (or_default_idem, sampling_idem)

-- To validate the configuration that `Validate` leaves gives the same configuration and the same
-- verdict, whether it passes or fails.
pub validate_idem :
    (parse_duration : String → Option ℤ) (c : Configuration)
    → validate parse_duration (validate parse_duration c).0 ≡ validate parse_duration c
unfolding validate
validate_idem parse_duration c =
    ap (λ (d : Configuration). (d, check parse_duration d)) (set_defaults_idem c)
