-- ===== src/Utils/Dotenv.antt =====
-- internal/utils/dotenv.go: the file that fills the gaps of the environment.
-- The file system is a parameter, and so is `godotenv.Load`: the variables after, and its error.
use pve_exporter.Base.{
  String, ◌≡◌, Bool, true, false, Option, none, some, List, [], ◌∷◌, ◌==◌, inl, inr, Bool-cases,
  if◌then◌else◌,
}
use pve_exporter.Base.Dict.{Dict, lookup}
use pve_exporter.Base.Path.{dir, join_path}

abbrev pub Environment : Type 0
Environment = Dict String

-- The variables after, the file that was read and the error that it gave.
pub record Loaded (E : Type 0) : Type 0 where
  pub environment : Environment
  pub file : Option String
  pub warning : Option E

unfoldable pub candidates : String → List String
unfolding dir join_path
candidates cfg_path = ".env" ∷ (if cfg_path == "" then [] else join_path (dir cfg_path) ".env" ∷ [])

module _ {E : Type 0} (stat : String → Bool)
    (load : String → Environment → Environment × Option E) where
  abbrev loaded_from : String → Environment × Option E → Loaded E
  loaded_from path (environment, warning) = record {
    environment = environment;
    file = some path;
    warning = warning;
  }

  load_first : List String → Environment → Loaded E
  load_first [] environment = record { environment = environment; file = none; warning = none }
  load_first (p ∷ ps) environment =
      let rest = load_first ps environment in
      if stat p then loaded_from p (load p environment) else rest

  -- `LoadDotEnv`
  unfoldable pub load_dot_env : String → Environment → Loaded E
  unfolding load_first candidates
  load_dot_env cfg_path environment = load_first (candidates cfg_path) environment

  -- `file` is the first of these paths that exists, if one does.
  pub data IsFirst : List String → Option String → Type 0 where
    nowhere : IsFirst [] none
    here : (p : String) (ps : List String) → stat p ≡ true → IsFirst (p ∷ ps) (some p)
    later :
        (p : String) (ps : List String) (file : Option String)
        → stat p ≡ false
        → IsFirst ps file
        → IsFirst (p ∷ ps) file

  -- Loading keeps what the environment sets.
  module _
      (keeps : (p name v : String) (environment : Environment)
        → lookup name environment ≡ some v
        → lookup name (load p environment).0 ≡ some v) where
    load_first-keeps :
        (ps : List String) (environment : Environment)
        → IsFirst ps (load_first ps environment).file
          × ((name v : String)
              → lookup name environment ≡ some v
              → lookup name (load_first ps environment).environment ≡ some v)
    unfolding load_first
    load_first-keeps [] environment = (nowhere, λ name v h. h)
    load_first-keeps (p ∷ ps) environment = elim (Bool-cases (stat p)) [
      | inl e ↦ rw e (here p ps e, λ name v h. keeps p name v environment h)
      | inr e ↦
          let (first, kept) = load_first-keeps ps environment in rw e (later p ps _ e first, kept)
    ]

    -- If `godotenv.Load` keeps what the environment sets, so does the exporter's start: it reads
    -- the first of the candidates that exists, whether or not it loads, and no other file.
    pub load_dot_env-keeps :
        (cfg_path : String) (environment : Environment)
        → IsFirst (candidates cfg_path) (load_dot_env cfg_path environment).file
          × ((name v : String)
              → lookup name environment ≡ some v
              → lookup name (load_dot_env cfg_path environment).environment ≡ some v)
    unfolding load_dot_env
    load_dot_env-keeps cfg_path environment = load_first-keeps (candidates cfg_path) environment
