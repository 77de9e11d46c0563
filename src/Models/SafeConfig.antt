-- ===== src/Models/SafeConfig.antt =====
-- internal/models/safe_config.go: loading a configuration, and the holder that is reloaded.
-- The file system, the YAML decoder and the resolver of secrets are parameters.
pub mod Loading
use pve_exporter.Base.{
  String, Bool, true, false, not, ◌&&◌, Option, none, some, List, [], ◌∷◌, ◌==◌,
}
use pve_exporter.Base.Int.{ℤ}
use pve_exporter.Base.Fallible.{Fallible, value, failure, ◌>>=◌}
use pve_exporter.Models.Config.{ClusterConfig, Configuration, ConfigError, validate}

pub data LoadError (E : Type 0) : Type 0 where
  unreadable unparsable : LoadError E
  unresolved : E → LoadError E
  invalid : ConfigError → LoadError E

abbrev same_flag : Bool → Bool → Bool
same_flag true b = b
same_flag false b = not b

abbrev pub equal_clusters : ClusterConfig → ClusterConfig → Bool
equal_clusters a b =
    a.name == b.name
    && a.host == b.host
    && a.token_id == b.token_id
    && a.token_secret == b.token_secret
    && a.token_secret_file == b.token_secret_file
    && same_flag a.insecure_skip_verify b.insecure_skip_verify

-- reflect.DeepEqual on the clusters
unfoldable pub deep_equal : List ClusterConfig → List ClusterConfig → Bool
deep_equal [] [] = true
deep_equal [] (b ∷ bs) = false
deep_equal (a ∷ rest) [] = false
deep_equal (a ∷ rest) (b ∷ bs) = equal_clusters a b && deep_equal rest bs

-- `SafeConfig`; the lock makes each operation one step
pub record SafeConfig (E : Type 0) : Type 0 where
  pub config : Configuration
  pub resolver : Option (Configuration → Fallible E Configuration)

abbrev pub new_safe_config {ℓ} :
    {E : Type 0} → Configuration → Option (Configuration → Fallible E Configuration) → SafeConfig E
new_safe_config cfg resolver = record { config = cfg; resolver = resolver }

module _ {E : Type 0} (read_file : String → Option String) (decode : String → Option Configuration)
    (parse_duration : String → Option ℤ) where
  read_config : String → Fallible (LoadError E) String
  read_config path = elim (read_file path) [ none ↦ failure unreadable | some text ↦ value text ]

  parse_config : String → Fallible (LoadError E) Configuration
  parse_config text = elim (decode text) [ none ↦ failure unparsable | some cfg ↦ value cfg ]

  resolve_config :
      Option (Configuration → Fallible E Configuration)
      → Configuration
      → Fallible (LoadError E) Configuration
  resolve_config none cfg = value cfg
  resolve_config (some resolver) cfg = elim (resolver cfg) [
    | value c ↦ value c
    | failure e ↦ failure (unresolved e)
  ]

  validate_config : Configuration → Fallible (LoadError E) Configuration
  unfolding validate
  validate_config cfg =
      let (c, verdict) = validate parse_duration cfg in
      elim verdict [ none ↦ value c | some e ↦ failure (invalid e) ]

  -- `LoadConfig`
  unfoldable pub load_config :
      Option (Configuration → Fallible E Configuration)
      → String
      → Fallible (LoadError E) Configuration
  unfolding read_config parse_config resolve_config validate_config
  load_config resolver path = do
    text ← read_config path
    cfg ← parse_config text
    resolved ← resolve_config resolver cfg
    validate_config resolved

  reloaded :
      SafeConfig E
      → Fallible (LoadError E) Configuration
      → SafeConfig E × Fallible (LoadError E) Bool
  unfolding deep_equal
  reloaded s (failure e) = (s, failure e)
  reloaded s (value cfg) =
      (record s { config = cfg }, value (not (deep_equal s.config.clusters cfg.clusters)))

  -- `ReloadConfig`: the holder after, and whether the clusters changed or the error
  unfoldable pub reload_config : String → SafeConfig E → SafeConfig E × Fallible (LoadError E) Bool
  unfolding load_config reloaded
  reload_config path s = reloaded s (load_config s.resolver path)
