-- ===== src/Utils/Env/Expansion.antt =====
-- When an expansion succeeds, and what the resolved clusters are.
use mathlib.Core.Path.{subst}
use pve_exporter.Base.{
  String, ◌≡◌, refl, sym, ap, ◌∙◌, ◌≢◌, ◌⊎◌, inl, inr, true, Option, none, some, List, [], ◌∷◌,
  ◌++◌, arith, eq_iff,
}
use pve_exporter.Base.Fallible.{Fallible, value, failure, bind-value, value-injective}
use pve_exporter.Models.Config.{ClusterConfig, Configuration}
use pve_exporter.Utils.Env.{
  Reference, Piece, literal, reference, EnvError, unset, Expanded, checked, pieces, has_reference,
  replace, expand, expand_env, expand_env_secret, resolve_secret, resolve_cluster, resolve_clusters,
  resolve_secrets,
}

-- The references that nothing provides for, in order: the variable is not set and no fallback is
-- written.
abbrev pub unprovided : (String → Option String) → Reference → List String
unprovided env r = elim (env r.name) [
  | some v ↦ []
  | none ↦ elim r.fallback [ some d ↦ [] | none ↦ r.name ∷ [] ]
]

abbrev pub unset_names : (String → Option String) → List Piece → List String
unset_names env [] = []
unset_names env (literal c ∷ ps) = unset_names env ps
unset_names env (reference r ∷ ps) = unprovided env r ++ unset_names env ps

module _ (env : String → Option String) where
  missing-replace : (r : Reference) → (replace env r (env r.name)).missing ≡ unprovided env r
  unfolding replace
  missing-replace r = ground arith

  missing-expand : (ps : List Piece) → (expand env ps).missing ≡ unset_names env ps
  unfolding expand
  missing-expand [] = refl
  missing-expand (literal c ∷ ps) = missing-expand ps
  missing-expand (reference r ∷ ps) = rw (missing-replace r, missing-expand ps) refl

  checked-value : (e : Expanded) → e.missing ≡ [] → checked env e ≡ value e.out
  checked-value e h = ground (arith, h)

  checked-failure :
      (e : Expanded) (x : String) (xs : List String)
      → e.missing ≡ x ∷ xs
      → checked env e ≡ failure (unset (x ∷ xs))
  checked-failure e x xs h = ground (arith, h)

  -- An expansion succeeds exactly if every reference is to a variable that is set or has a
  -- fallback; else the error lists the other names, all of them and in order.
  pub expand_env_cases :
      (s : String)
      → let names = unset_names env (pieces 0 s) in
        ((names ≡ []) × ((out : String) × (expand_env env s ≡ value out)))
        ⊎ ((names ≢ []) × (expand_env env s ≡ failure (unset names)))
  unfolding expand_env
  expand_env_cases s = go (expand env (pieces 0 s)).missing refl
    where
      go :
          (l : List String)
          → (expand env (pieces 0 s)).missing ≡ l
          → ((unset_names env (pieces 0 s) ≡ [])
              × ((out : String) × (expand_env env s ≡ value out)))
            ⊎ ((unset_names env (pieces 0 s) ≢ [])
                × (expand_env env s ≡ failure (unset (unset_names env (pieces 0 s)))))
      go [] e = inl (
        sym (missing-expand (pieces 0 s)) ∙ e,
        ((expand env (pieces 0 s)).out, checked-value (expand env (pieces 0 s)) e),
      )
      go (x ∷ xs) e =
          let f : unset_names env (pieces 0 s) ≡ x ∷ xs = sym (missing-expand (pieces 0 s)) ∙ e in
          inr (ground (arith, f), rw f (checked-failure (expand env (pieces 0 s)) x xs e))

  -- A field that contains a reference never resolves to the empty text.
  abbrev NotBlank : String → String → Type 0
  NotBlank s out = has_reference s ≡ true → out ≢ ""

  expand_env_secret-NotBlank :
      (field s out : String) → expand_env_secret env field s ≡ value out → NotBlank s out
  unfolding expand_env_secret
  expand_env_secret-NotBlank field s out h has = go (expand_env env s) refl
    where
      go : (r : Fallible EnvError String) → expand_env env s ≡ r → out ≢ ""
      go (failure e) q = ground (arith, h, q)
      go (value t) q = ground (arith, h, q, has, eq_iff t "")

  module _ (read_file : String → Option String) where
    -- What a resolved cluster keeps, and that nothing written as a reference is lost.
    pub record IsResolved (cl cl' : ClusterConfig) : Type 0 where
      pub name : cl'.name ≡ cl.name
      pub file : cl'.token_secret_file ≡ cl.token_secret_file
      pub insecure : cl'.insecure_skip_verify ≡ cl.insecure_skip_verify
      pub host : has_reference cl.host ≡ true → cl'.host ≢ ""
      pub token_id : has_reference cl.token_id ≡ true → cl'.token_id ≢ ""
      pub token_secret :
          cl.token_secret_file ≡ "" → has_reference cl.token_secret ≡ true → cl'.token_secret ≢ ""

    abbrev pub AreResolved : List ClusterConfig → List ClusterConfig → Type 0
    AreResolved [] [] = Unit
    AreResolved [] (cl' ∷ cls') = ⊥
    AreResolved (cl ∷ cls) [] = ⊥
    AreResolved (cl ∷ cls) (cl' ∷ cls') = IsResolved cl cl' × AreResolved cls cls'

    resolve_cluster-IsResolved :
        (cl cl' : ClusterConfig) → resolve_cluster env read_file cl ≡ value cl' → IsResolved cl cl'
    unfolding resolve_cluster
    resolve_cluster-IsResolved cl cl' h =
        let (host, eh, h₁) = bind-value (expand_env_secret env "host" cl.host) _ cl' h in
        let (token_id, et, h₂) =
          bind-value (expand_env_secret env "tokenID" cl.token_id) _ cl' h₁ in
        let (secret, es, h₃) = bind-value (resolve_secret env read_file cl) _ cl' h₂ in
        let e = value-injective h₃ in
        record {
          name = ap (λ c. c.name) (sym e);
          file = ap (λ c. c.token_secret_file) (sym e);
          insecure = ap (λ c. c.insecure_skip_verify) (sym e);
          host = λ has.
              rw (sym (ap (λ c. c.host) e)) (expand_env_secret-NotBlank "host" cl.host host eh has);
          token_id = λ has.
              rw (sym (ap (λ c. c.token_id) e))
                (expand_env_secret-NotBlank "tokenID" cl.token_id token_id et has);
          token_secret = λ none_named has. rw (sym (ap (λ c. c.token_secret) e)) (
              expand_env_secret-NotBlank "tokenSecret" cl.token_secret secret
                (sym (from_reference none_named) ∙ es) has);
        }
      where
        from_reference :
            cl.token_secret_file ≡ ""
            → resolve_secret env read_file cl ≡ expand_env_secret env "tokenSecret" cl.token_secret
        from_reference e =
            unfold resolve_secret in ground (arith, e, eq_iff cl.token_secret_file "")

    resolve_clusters-AreResolved :
        (cls cls' : List ClusterConfig)
        → resolve_clusters env read_file cls ≡ value cls'
        → AreResolved cls cls'
    unfolding resolve_clusters
    resolve_clusters-AreResolved [] cls' h = subst (AreResolved []) (value-injective h) tt
    resolve_clusters-AreResolved (cl ∷ cls) cls' h =
        let (c, ec, h₁) = bind-value (resolve_cluster env read_file cl) _ cls' h in
        let (rest, er, h₂) = bind-value (resolve_clusters env read_file cls) _ cls' h₁ in
        subst (AreResolved (cl ∷ cls)) (value-injective h₂)
          (resolve_cluster-IsResolved cl c ec, resolve_clusters-AreResolved cls rest er)

    -- Where the secrets resolve, there are as many clusters as before, each with its name, its
    -- secret file and its TLS setting unchanged; and no host, token id or token secret that was
    -- written with a reference has become empty (the secret where no file is named).
    pub resolve_secrets-AreResolved :
        (cfg cfg' : Configuration)
        → resolve_secrets env read_file cfg ≡ value cfg'
        → AreResolved cfg.clusters cfg'.clusters
    unfolding resolve_secrets
    resolve_secrets-AreResolved cfg cfg' h =
        let (cls, e, h₁) = bind-value (resolve_clusters env read_file cfg.clusters) _ cfg' h in
        subst (AreResolved cfg.clusters) (ap (λ c. c.clusters) (value-injective h₁))
          (resolve_clusters-AreResolved cfg.clusters cls e)
