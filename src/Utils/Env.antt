-- ===== src/Utils/Env.antt =====
-- internal/utils/env.go: references to environment variables, and the secrets of the clusters.
-- The environment and the files are parameters. `envRefPattern` is written as a scanner: a match
-- starts at a `$`, and the longest name leaves no other way to match.
pub mod Expansion
pub mod Matching
pub mod Written
use Prim.Native.Char.{Char, code}
use pve_exporter.Base.{
  ℕ, zero, suc, ◌+◌, String, ◌<>◌, ◌≡◌, refl, Bool, true, false, not, ◌&&◌, ◌||◌, Option, none,
  some, List, [], ◌∷◌, ◌++◌, eqb, leb, ◌==◌, if◌then◌else◌,
}
use pve_exporter.Base.Text.{trim_space}
use pve_exporter.Base.Fallible.{Fallible, value, failure, ◌>>=◌}
use pve_exporter.Models.Config.{ClusterConfig, Configuration}

-- [A-Za-z_]
abbrev is_name_start : ℕ → Bool
is_name_start c = leb 65 c && leb c 90 || leb 97 c && leb c 122 || eqb c 95

-- [A-Za-z0-9_]
abbrev is_name_part : ℕ → Bool
is_name_part c = is_name_start c || leb 48 c && leb c 57

-- The submatches: the name, and the text behind `:-` where there is one.
pub record Reference : Type 0 where
  pub name : String
  pub fallback : Option String

-- A match, with the number of characters that it takes.
pub record Matched : Type 0 where
  pub reference : Reference
  pub length : ℕ

abbrev add_to_fallback : Char → Option (String × ℕ) → Option (String × ℕ)
add_to_fallback c none = none
add_to_fallback c (some (d, n)) = some (String.◌∷◌ c d, suc n)

-- [^}]*\}, 125 being the closing brace
match_fallback : String → Option (String × ℕ)
match_fallback String.[] = none
match_fallback (String.◌∷◌ c s) =
    let rest = match_fallback s in if eqb (code c) 125 then some ("", 1) else add_to_fallback c rest

abbrev with_fallback : String → Option (String × ℕ) → Option Matched
with_fallback name none = none
with_fallback name (some (d, n)) =
    some (record { reference = record { name = name; fallback = some d }; length = suc (suc n) })

-- (:-[^}]*)?\}, where 58 is the colon and 45 the dash
match_end : String → String → Option Matched
unfolding match_fallback
match_end name String.[] = none
match_end name (String.◌∷◌ c String.[]) =
    if eqb (code c) 125
    then some (record { reference = record { name = name; fallback = none }; length = 1 })
    else none
match_end name (String.◌∷◌ c (String.◌∷◌ d s)) =
    if eqb (code c) 125
    then some (record { reference = record { name = name; fallback = none }; length = 1 })
    else if eqb (code c) 58 && eqb (code d) 45
    then with_fallback name (match_fallback s)
    else none

abbrev longer : Option Matched → Option Matched
longer none = none
longer (some m) = some (record m { length = suc m.length })

-- [A-Za-z0-9_]* and the end, behind the name so far
match_name : String → String → Option Matched
unfolding match_end
match_name name String.[] = none
match_name name (String.◌∷◌ c s) =
    let rest = match_name (name <> String.◌∷◌ c String.[]) s in
    if is_name_part (code c) then longer rest else match_end name (String.◌∷◌ c s)

-- \{[A-Za-z_]..., where 123 is the opening brace
match_reference : String → Option Matched
unfolding match_name
match_reference String.[] = none
match_reference (String.◌∷◌ b String.[]) = none
match_reference (String.◌∷◌ b (String.◌∷◌ c s)) =
    if eqb (code b) 123 && is_name_start (code c)
    then longer (longer (match_name (String.◌∷◌ c String.[]) s))
    else none

pub data Piece : Type 0 where
  literal : Char → Piece
  reference : Reference → Piece

-- What a `$` begins, before the rest of the text.
abbrev at_dollar : Char → Option Matched → List Piece → (ℕ → List Piece) → List Piece
at_dollar c none plain behind = literal c ∷ plain
at_dollar c (some m) plain behind = reference m.reference ∷ behind m.length

-- The text as literal characters and matches, from left to right; the first `skip` characters
-- belong to the match before them. 36 is the dollar sign.
unfoldable pub pieces : ℕ → String → List Piece
unfolding match_reference
pieces skip String.[] = []
pieces (suc skip) (String.◌∷◌ c s) = pieces skip s
pieces zero (String.◌∷◌ c s) =
    if eqb (code c) 36
    then at_dollar c (match_reference s) (pieces zero s) (λ n. pieces n s)
    else literal c ∷ pieces zero s

-- Why the secrets cannot be resolved.
pub data EnvError : Type 0 where
  unset : List String → EnvError
  empty_reference : String → EnvError
  unreadable : EnvError

-- The output of ReplaceAllStringFunc and the names missed by its callback.
pub record Expanded : Type 0 where
  pub out : String
  pub missing : List String

abbrev pub before_rest : String → List String → Expanded → Expanded
before_rest text missing e = record { out = text <> e.out; missing = missing ++ e.missing }

abbrev is_reference : Piece → Bool
is_reference (literal c) = false
is_reference (reference r) = true

unfoldable pub any_reference : List Piece → Bool
any_reference [] = false
any_reference (p ∷ ps) = is_reference p || any_reference ps

-- envRefPattern.MatchString
unfoldable pub has_reference : String → Bool
unfolding any_reference pieces
has_reference s = any_reference (pieces zero s)

module _ (lookup_env : String → Option String) where
  -- What replaces a match: the value where it is set and not empty, the fallback where there is
  -- one, and nothing otherwise; a name that is not set is then missing.
  unfoldable pub replace : Reference → Option String → Expanded
  replace r none = elim r.fallback [
    | none ↦ record { out = ""; missing = r.name ∷ [] }
    | some d ↦ record { out = d; missing = [] }
  ]
  replace r (some v) = if not (v == "") then record { out = v; missing = [] } else elim r.fallback [
    | none ↦ record { out = ""; missing = [] }
    | some d ↦ record { out = d; missing = [] }
  ]

  unfoldable pub expand : List Piece → Expanded
  unfolding replace
  expand [] = record { out = ""; missing = [] }
  expand (literal c ∷ ps) = before_rest (String.◌∷◌ c String.[]) [] (expand ps)
  expand (reference r ∷ ps) =
      let e = replace r (lookup_env r.name) in before_rest e.out e.missing (expand ps)

  abbrev pub checked : Expanded → Fallible EnvError String
  checked e = elim e.missing [ [] ↦ value e.out | name ∷ names ↦ failure (unset (name ∷ names)) ]

  -- `ExpandEnv`
  unfoldable pub expand_env : String → Fallible EnvError String
  unfolding expand pieces
  expand_env s = checked (expand (pieces zero s))

  -- `ExpandEnvSecret`
  unfoldable pub expand_env_secret : String → String → Fallible EnvError String
  unfolding expand_env has_reference
  expand_env_secret field s = do
    out ← expand_env s
    if out == "" && has_reference s then failure (empty_reference field) else value out

  module _ (read_file : String → Option String) where
    -- The token secret: from the file where one is named and no secret is given.
    unfoldable pub resolve_secret : ClusterConfig → Fallible EnvError String
    unfolding expand_env_secret
    resolve_secret cl =
        if not (cl.token_secret_file == "") && cl.token_secret == ""
        then elim (read_file cl.token_secret_file) [
          | none ↦ failure unreadable
          | some b ↦ value (trim_space b)
        ]
        else expand_env_secret "tokenSecret" cl.token_secret

    unfoldable pub resolve_cluster : ClusterConfig → Fallible EnvError ClusterConfig
    unfolding expand_env_secret resolve_secret
    resolve_cluster cl = do
      host ← expand_env_secret "host" cl.host
      token_id ← expand_env_secret "tokenID" cl.token_id
      token_secret ← resolve_secret cl
      value (record cl { host = host; token_id = token_id; token_secret = token_secret })

    -- The loop stops at the first cluster with an error.
    unfoldable pub resolve_clusters : List ClusterConfig → Fallible EnvError (List ClusterConfig)
    unfolding resolve_cluster
    resolve_clusters [] = value []
    resolve_clusters (cl ∷ cls) = do
      here ← resolve_cluster cl
      rest ← resolve_clusters cls
      value (here ∷ rest)

    -- `ResolveSecrets`
    unfoldable pub resolve_secrets : Configuration → Fallible EnvError Configuration
    unfolding resolve_clusters
    resolve_secrets cfg = do
      clusters ← resolve_clusters cfg.clusters
      value (record cfg { clusters = clusters })
