-- ===== src/Setup/Environment.antt =====
-- The seven variables, as values, and the map that the code makes of them.
use ocs_osd_deployer.Base.{
  String, ◌≡◌, refl, sym, ap, ◌∙◌, Option, none, some, Option-cases, List, [], ◌∷◌, inl, inr,
}
use ocs_osd_deployer.Base.Dict.{Dict, insert}
use ocs_osd_deployer.Setup.{env_var_names, read_vars, read_env_vars}

-- The values of the seven variables.
pub record Variables : Type 0 where
  pub namespace : String
  pub addon_name : String
  pub sop_endpoint : String
  pub alert_smtp_from : String
  pub deployment_type : String
  pub rhobs_endpoint : String
  pub rhsso_token_endpoint : String

abbrev pub AreSet : (String → Option String) → Variables → Type 0
AreSet env v =
    (env "NAMESPACE" ≡ some v.namespace)
    × (env "ADDON_NAME" ≡ some v.addon_name)
    × (env "SOP_ENDPOINT" ≡ some v.sop_endpoint)
    × (env "ALERT_SMTP_FROM_ADDR" ≡ some v.alert_smtp_from)
    × (env "DEPLOYMENT_TYPE" ≡ some v.deployment_type)
    × (env "RHOBS_ENDPOINT" ≡ some v.rhobs_endpoint)
    × (env "RH_SSO_TOKEN_ENDPOINT" ≡ some v.rhsso_token_endpoint)

-- What the code reads of the variables.
abbrev pub values : Variables → Dict String
values v =
    ("NAMESPACE", v.namespace)
    ∷ ("ADDON_NAME", v.addon_name)
    ∷ ("SOP_ENDPOINT", v.sop_endpoint)
    ∷ ("ALERT_SMTP_FROM_ADDR", v.alert_smtp_from)
    ∷ ("DEPLOYMENT_TYPE", v.deployment_type)
    ∷ ("RHOBS_ENDPOINT", v.rhobs_endpoint)
    ∷ ("RH_SSO_TOKEN_ENDPOINT", v.rhsso_token_endpoint)
    ∷ []

module _ (env : String → Option String) where
  read_vars-cons :
      (name : String) (names : List String) (vars out : Dict String)
      → read_vars env (name ∷ names) vars ≡ some out
      → (val : String) × (env name ≡ some val)
        × (read_vars env names (insert name val vars) ≡ some out)
  unfolding read_vars
  read_vars-cons name names vars out h = elim (Option-cases (env name)) [
    | inl e ↦ let h' = rw (read_vars, e) at h in absurd cc
    | inr (val, e) ↦ (val, e, rw (read_vars, e) at h)
  ]

  read_vars-nil : (vars out : Dict String) → read_vars env [] vars ≡ some out → out ≡ vars
  unfolding read_vars
  read_vars-nil vars out h = ap (λ o. elim o [ some d ↦ d | none ↦ vars ]) (sym h)

  read_env_vars-read_vars : read_env_vars env ≡ read_vars env env_var_names []
  unfolding read_env_vars
  read_env_vars-read_vars = refl

  pub read_env_vars-AreSet :
      (vars : Dict String)
      → read_env_vars env ≡ some vars
      → (v : Variables) × AreSet env v × (vars ≡ values v)
  unfolding insert
  read_env_vars-AreSet vars h0 =
      let h = sym read_env_vars-read_vars ∙ h0 in
      let (namespace, e1, h1) = read_vars-cons _ _ _ vars h in
      let (addon_name, e2, h2) = read_vars-cons _ _ _ vars h1 in
      let (sop_endpoint, e3, h3) = read_vars-cons _ _ _ vars h2 in
      let (alert_smtp_from, e4, h4) = read_vars-cons _ _ _ vars h3 in
      let (deployment_type, e5, h5) = read_vars-cons _ _ _ vars h4 in
      let (rhobs_endpoint, e6, h6) = read_vars-cons _ _ _ vars h5 in
      let (rhsso_token_endpoint, e7, h7) = read_vars-cons _ _ _ vars h6 in
      (
        record {
          namespace = namespace;
          addon_name = addon_name;
          sop_endpoint = sop_endpoint;
          alert_smtp_from = alert_smtp_from;
          deployment_type = deployment_type;
          rhobs_endpoint = rhobs_endpoint;
          rhsso_token_endpoint = rhsso_token_endpoint;
        },
        (e1, e2, e3, e4, e5, e6, e7),
        read_vars-nil _ vars h7,
      )

  pub AreSet-read_env_vars : (v : Variables) → AreSet env v → read_env_vars env ≡ some (values v)
  unfolding read_env_vars read_vars insert
  AreSet-read_env_vars v (e1, e2, e3, e4, e5, e6, e7) = rw (e1, e2, e3, e4, e5, e6, e7) refl
