-- ===== src/Setup/Variables.antt =====
-- What `readEnvVars` returns.
use ocs_osd_deployer.Base.{
  String, ◌≡◌, Option, none, some, List, [], ◌∷◌, eq_iff, if◌then◌else◌, arith, Option-cases, inl,
  inr,
}
use ocs_osd_deployer.Base.Dict.{Dict, lookup, insert, lookup-insert}
use ocs_osd_deployer.Utils.Slices.{contains}
use ocs_osd_deployer.Setup.{env_var_names, read_vars, read_env_vars}

module _ (env : String → Option String) where
  read_vars-lookup :
      (names : List String) (vars : Dict String) (name : String) {out : Dict String}
      → read_vars env names vars ≡ some out
      → lookup name out ≡ (if contains names name then env name else lookup name vars)
  unfolding read_vars contains
  read_vars-lookup [] vars name h = ground arith
  read_vars-lookup (n ∷ names) vars name {out} h = elim (Option-cases (env n)) [
    | inl e ↦ ground arith
    | inr (val, e) ↦ ground (
      arith,
      read_vars-lookup names (insert n val vars) name {out = out},
      lookup-insert n name val vars,
      eq_iff n name,
    )
  ]

  -- If the variables could be read, the result holds each of the seven names with the value that
  -- the environment has for it, and nothing else.
  pub read_env_vars-lookup :
      {vars : Dict String}
      → read_env_vars env ≡ some vars
      → (name : String)
      → lookup name vars ≡ (if contains env_var_names name then env name else none)
  unfolding read_env_vars lookup
  read_env_vars-lookup h name = read_vars-lookup env_var_names [] name h
