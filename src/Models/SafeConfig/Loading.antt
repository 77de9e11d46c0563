-- ===== src/Models/SafeConfig/Loading.antt =====
-- What a load and a reload promise.
use mathlib.Core.Path.{subst}
use pve_exporter.Base.{
  String, ◌≡◌, refl, sym, ap, Bool, true, false, not, Option, none, List, [], ◌∷◌, arith, eq_iff,
  ◌⊎◌, inl, inr, Bool-cases,
}
use pve_exporter.Base.Int.{ℤ}
use pve_exporter.Base.Fallible.{Fallible, value, failure, bind-value}
use pve_exporter.Models.Config.{ClusterConfig, Configuration, validate, set_defaults}
use pve_exporter.Models.Config.Defaults.{set_defaults_idem}
use pve_exporter.Models.Config.Valid.{IsValid, validate_iff}
use pve_exporter.Models.SafeConfig.{
  LoadError, SafeConfig, equal_clusters, deep_equal, read_config, parse_config, resolve_config,
  validate_config, load_config, reloaded, reload_config,
}

equal_clusters_sound : (a b : ClusterConfig) → equal_clusters a b ≡ true → a ≡ b
equal_clusters_sound a b h = ground (
  arith,
  h,
  eq_iff a.name b.name,
  eq_iff a.host b.host,
  eq_iff a.token_id b.token_id,
  eq_iff a.token_secret b.token_secret,
  eq_iff a.token_secret_file b.token_secret_file,
)

pub deep_equal_sound : (as_ bs : List ClusterConfig) → deep_equal as_ bs ≡ true → as_ ≡ bs
unfolding deep_equal
deep_equal_sound [] [] h = refl
deep_equal_sound [] (b ∷ bs) h = ground (arith, h)
deep_equal_sound (a ∷ rest) [] h = ground (arith, h)
deep_equal_sound (a ∷ rest) (b ∷ bs) h =
    let e : a ≡ b = equal_clusters_sound a b (ground (arith, h)) in
    let f : rest ≡ bs = deep_equal_sound rest bs (ground (arith, h)) in cc (e, f)

-- A configuration that is ready for use: its defaults are set and it is valid.
pub record IsReady (parse_duration : String → Option ℤ) (c : Configuration) : Type 0 where
  pub settled : set_defaults c ≡ c
  pub valid : IsValid parse_duration c

module _ {E : Type 0} (read_file : String → Option String) (decode : String → Option Configuration)
    (parse_duration : String → Option ℤ) where
  validate_config-IsReady :
      (cfg c : Configuration)
      → validate_config {E = E} read_file decode parse_duration cfg ≡ value c
      → IsReady parse_duration c
  unfolding validate_config
  validate_config-IsReady cfg c h =
      let passed : (validate parse_duration cfg).1 ≡ none = ground (arith, h) in
      let same : (validate parse_duration cfg).0 ≡ c = ground (arith, h) in
      subst (IsReady parse_duration) same (validated cfg passed)
    where
      validated :
          (d : Configuration)
          → (validate parse_duration d).1 ≡ none
          → IsReady parse_duration (validate parse_duration d).0
      validated d e = record {
        settled = unfold validate in set_defaults_idem d;
        valid = unfold validate in (validate_iff parse_duration d).0 e;
      }

  -- What is loaded is ready for use, whatever the file, the decoder and the resolver give.
  pub load_config-IsReady :
      (resolver : Option (Configuration → Fallible E Configuration)) (path : String)
      (c : Configuration)
      → load_config read_file decode parse_duration resolver path ≡ value c
      → IsReady parse_duration c
  unfolding load_config
  load_config-IsReady resolver path c h =
      let (text, _, h₁) = bind-value (read_config read_file decode parse_duration path) _ c h in
      let (cfg, _, h₂) = bind-value (parse_config read_file decode parse_duration text) _ c h₁ in
      let (resolved, _, h₃) =
        bind-value (resolve_config read_file decode parse_duration resolver cfg) _ c h₂ in
      validate_config-IsReady resolved c h₃

  -- `r` is what a reload of `s` may leave.
  abbrev pub ReloadCases : SafeConfig E → SafeConfig E × Fallible (LoadError E) Bool → Type 0
  ReloadCases s r =
      ((r.0 ≡ s) × ((e : LoadError E) × (r.1 ≡ failure e)))
      ⊎ (IsReady parse_duration r.0.config
          × (r.0.resolver ≡ s.resolver)
          × ((r.1 ≡ value true)
              ⊎ ((r.1 ≡ value false) × (r.0.config.clusters ≡ s.config.clusters))))

  reloaded_cases :
      (s : SafeConfig E) (l : Fallible (LoadError E) Configuration)
      → ((c : Configuration) → l ≡ value c → IsReady parse_duration c)
      → ReloadCases s (reloaded read_file decode parse_duration s l)
  unfolding reloaded
  reloaded_cases s (failure e) ready = inl (refl, (e, refl))
  reloaded_cases s (value c) ready = elim (Bool-cases (deep_equal s.config.clusters c.clusters)) [
    | inl e ↦
        inr (ready c refl, refl, inr (ap (λ b. value (not b)) e, sym (deep_equal_sound _ _ e)))
    | inr e ↦ inr (ready c refl, refl, inl (ap (λ b. value (not b)) e))
  ]

  -- A reload that fails leaves the holder as it is; one that succeeds leaves a configuration that
  -- is ready for use, keeps the resolver, and reports no change of the clusters only if they are
  -- the same.
  pub reload_config-ReloadCases :
      (path : String) (s : SafeConfig E)
      → ReloadCases s (reload_config read_file decode parse_duration path s)
  unfolding reload_config
  reload_config-ReloadCases path s = reloaded_cases s _ (load_config-IsReady s.resolver path)

  -- A reload of a file that loads leaves the loaded configuration.
  pub reload_config-value :
      (path : String) (s : SafeConfig E) (c : Configuration)
      → load_config read_file decode parse_duration s.resolver path ≡ value c
      → (reload_config read_file decode parse_duration path s).0.config ≡ c
  unfolding reload_config reloaded
  reload_config-value path s c h =
      ap (λ l. (reloaded read_file decode parse_duration s l).0.config) h
