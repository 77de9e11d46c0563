-- ===== src/Models/Config/Valid.antt =====
-- Which configurations `Validate` accepts.
use pve_exporter.Base.{
  ℕ, ◌+◌, String, ◌≡◌, refl, ◌≢◌, true, false, Option, none, some, List, [], ◌∷◌, All, arith,
  eq_iff, starts_with, ◌⊎◌, ◌↔◌,
}
use pve_exporter.Base.Dict.{lookup, contains}
use pve_exporter.Base.Int.{ℤ}
use pve_exporter.Models.Config.{
  ClusterConfig, Configuration, check_cluster, check_clusters, check, validate, set_defaults,
  reserved_paths, get_collection_interval, get_collection_timeout,
}

-- A cluster with all that a connection needs.
pub record IsComplete (cl : ClusterConfig) : Type 0 where
  pub name : cl.name ≢ ""
  pub host : cl.host ≢ ""
  pub token_id : cl.token_id ≢ ""
  pub secret : (cl.token_secret ≢ "") ⊎ (cl.token_secret_file ≢ "")

abbrev pub HasOtherName : String → ClusterConfig → Type 0
HasOtherName name cl = cl.name ≢ name

-- No two clusters have one name.
abbrev pub NamesDistinct : List ClusterConfig → Type 0
NamesDistinct [] = Unit
NamesDistinct (cl ∷ rest) = All (HasOtherName cl.name) rest × NamesDistinct rest

abbrev IsFresh : List String → ClusterConfig → Type 0
IsFresh seen cl = contains cl.name seen ≡ false

check_cluster_iff :
    (i : ℕ) (seen : List String) (cl : ClusterConfig)
    → (check_cluster i seen cl ≡ none) ↔ (IsComplete cl × IsFresh seen cl)
unfolding check_cluster
check_cluster_iff i seen cl = (
  λ h. (
    record {
      name = ground (arith, eq_iff cl.name "");
      host = ground (arith, eq_iff cl.host "");
      token_id = ground (arith, eq_iff cl.token_id "");
      secret = ground (arith, eq_iff cl.token_secret "", eq_iff cl.token_secret_file "");
    },
    ground arith,
  ),
  λ h. ground (
    arith,
    h.0,
    h.1,
    eq_iff cl.name "",
    eq_iff cl.host "",
    eq_iff cl.token_id "",
    eq_iff cl.token_secret "",
    eq_iff cl.token_secret_file "",
  ),
)

IsFresh-cons :
    (name : String) (seen : List String) (cls : List ClusterConfig)
    → All (IsFresh (name ∷ seen)) cls ↔ (All (HasOtherName name) cls × All (IsFresh seen) cls)
unfolding contains
IsFresh-cons name seen [] = (λ h. (tt, tt), λ h. tt)
IsFresh-cons name seen (cl ∷ cls) = (
  λ h.
      let (others, fresh) = (IsFresh-cons name seen cls).0 h.1 in
      ((ground (arith, h.0, eq_iff name cl.name), others), (ground (arith, h.0), fresh)),
  λ h. (
    ground (arith, h.0.0, h.1.0, eq_iff name cl.name),
    (IsFresh-cons name seen cls).1 (h.0.1, h.1.1),
  ),
)

check_clusters_sound :
    (cls : List ClusterConfig) (i : ℕ) (seen : List String)
    → check_clusters i seen cls ≡ none
    → All IsComplete cls × All (IsFresh seen) cls × NamesDistinct cls
unfolding check_clusters
check_clusters_sound [] i seen h = (tt, tt, tt)
check_clusters_sound (cl ∷ cls) i seen h =
    let here : check_cluster i seen cl ≡ none = ground arith in
    let later : check_clusters (i + 1) (cl.name ∷ seen) cls ≡ none = ground arith in
    let (complete, fresh) = (check_cluster_iff i seen cl).0 here in
    let (completes, unseen, distinct) = check_clusters_sound cls (i + 1) (cl.name ∷ seen) later in
    let (others, freshs) = (IsFresh-cons cl.name seen cls).0 unseen in
    ((complete, completes), (fresh, freshs), (others, distinct))

check_clusters_complete :
    (cls : List ClusterConfig) (i : ℕ) (seen : List String)
    → All IsComplete cls
    → All (IsFresh seen) cls
    → NamesDistinct cls
    → check_clusters i seen cls ≡ none
unfolding check_clusters
check_clusters_complete [] i seen c f d = refl
check_clusters_complete (cl ∷ cls) i seen c f d =
    rw ((check_cluster_iff i seen cl).1 (c.0, f.0), check_clusters)
      (check_clusters_complete cls (i + 1) (cl.name ∷ seen) c.1
        ((IsFresh-cons cl.name seen cls).1 (d.0, f.1)) d.1)

All-IsFresh : (cls : List ClusterConfig) → All (IsFresh []) cls
unfolding contains
All-IsFresh [] = tt
All-IsFresh (cl ∷ cls) = (refl, All-IsFresh cls)

-- What `Validate` promises of a configuration.
pub record IsValid (parse_duration : String → Option ℤ) (c : Configuration) : Type 0 where
  pub slash : starts_with c.server.uri "/" ≡ true
  pub free : lookup c.server.uri reserved_paths ≡ none
  pub interval : parse_duration c.collection.interval ≢ none
  pub timeout : parse_duration c.collection.timeout ≢ none
  pub some_cluster : c.clusters ≢ []
  pub complete : All IsComplete c.clusters
  pub distinct : NamesDistinct c.clusters
  pub push :
      c.open_telemetry.metrics.enabled ≡ true
      → parse_duration c.open_telemetry.metrics.interval ≢ none

module _ (parse_duration : String → Option ℤ) (c : Configuration) where
  check-IsValid : check parse_duration c ≡ none → IsValid parse_duration c
  unfolding check
  check-IsValid h = record {
    slash = ground arith;
    free = ground arith;
    interval = ground arith;
    timeout = ground arith;
    some_cluster = ground arith;
    complete = clusters.0;
    distinct = clusters.2;
    push = ground arith;
  }
    where
      clusters : All IsComplete c.clusters × All (IsFresh []) c.clusters × NamesDistinct c.clusters
      clusters = check_clusters_sound c.clusters 0 [] (ground arith)

  IsValid-check : IsValid parse_duration c → check parse_duration c ≡ none
  unfolding check
  IsValid-check v = ground (
    arith,
    v.slash,
    v.free,
    v.interval,
    v.timeout,
    v.some_cluster,
    v.push,
    check_clusters_complete c.clusters 0 [] v.complete (All-IsFresh c.clusters) v.distinct,
  )

-- `Validate` accepts a configuration exactly if, with the defaults set, it meets `IsValid`: the
-- metrics path starts with a slash and is not reserved, the interval and the timeout parse, there
-- is a cluster, every cluster is complete, no two have one name, and the push interval parses if
-- the export of metrics is enabled.
pub validate_iff :
    (parse_duration : String → Option ℤ) (c : Configuration)
    → ((validate parse_duration c).1 ≡ none) ↔ IsValid parse_duration (set_defaults c)
unfolding validate
validate_iff parse_duration c =
    (check-IsValid parse_duration (set_defaults c), IsValid-check parse_duration (set_defaults c))

module _ (parse_duration : String → Option ℤ) (c : Configuration) where
  parsed_interval :
      parse_duration c.collection.interval ≢ none
      → parse_duration c.collection.interval ≡ some (get_collection_interval parse_duration c)
  unfolding get_collection_interval
  parsed_interval h = ground (arith, h)

  parsed_timeout :
      parse_duration c.collection.timeout ≢ none
      → parse_duration c.collection.timeout ≡ some (get_collection_timeout parse_duration c)
  unfolding get_collection_timeout
  parsed_timeout h = ground (arith, h)

-- In an accepted configuration the getters return what the interval and the timeout parse to,
-- never the fallback.
pub durations_of_validate :
    (parse_duration : String → Option ℤ) (c : Configuration)
    → (validate parse_duration c).1 ≡ none
    → let d = (validate parse_duration c).0 in
      (parse_duration d.collection.interval ≡ some (get_collection_interval parse_duration d))
      × (parse_duration d.collection.timeout ≡ some (get_collection_timeout parse_duration d))
unfolding validate
durations_of_validate parse_duration c h =
    (parsed_interval parse_duration _ v.interval, parsed_timeout parse_duration _ v.timeout)
  where
    v : IsValid parse_duration (set_defaults c)
    v = (validate_iff parse_duration c).0 h
