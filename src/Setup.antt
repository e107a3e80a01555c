-- ===== src/Setup.antt =====
-- main.go: the environment, the names of the secrets, the availability of resource definitions, and
-- the ManagedOCS resource that is created at the start. Flags and the manager are left out.
pub mod Variables
pub mod Environment
pub mod Main
use ocs_osd_deployer.Base.{String, ◌<>◌, Bool, Option, none, some, List, [], ◌∷◌, if◌then◌else◌}
use ocs_osd_deployer.Base.Dict.{Dict, insert, get_text}
use ocs_osd_deployer.Api.{new_managed_ocs}
use ocs_osd_deployer.Kube.Exec.{Result, ok, err, panic, is_already_exists}
use ocs_osd_deployer.Kube.Object.{Kind, Object, new_meta}
use ocs_osd_deployer.Kube.Env.{Env}
use ocs_osd_deployer.Controllers.State.{Config, managed_ocs_finalizer}

abbrev pub env_var_names : List String
env_var_names =
    "NAMESPACE" ∷ "ADDON_NAME" ∷ "SOP_ENDPOINT" ∷ "ALERT_SMTP_FROM_ADDR" ∷ "DEPLOYMENT_TYPE"
    ∷ "RHOBS_ENDPOINT" ∷ "RH_SSO_TOKEN_ENDPOINT" ∷ []

-- The loop of `readEnvVars`; `none` is the error that names a missing variable. Go ranges over its
-- map in any order, which decides only the variable that the error names.
unfoldable pub read_vars :
    (String → Option String) → List String → Dict String → Option (Dict String)
unfolding insert
read_vars env [] vars = some vars
read_vars env (name ∷ names) vars = elim (env name) [
  | none ↦ none
  | some val ↦ read_vars env names (insert name val vars)
]

unfoldable pub read_env_vars : (String → Option String) → Option (Dict String)
unfolding read_vars
read_env_vars env = read_vars env env_var_names []

-- The fields of the reconciler that `main` sets.
unfoldable pub config_of : Dict String → Dict Bool → Config
unfolding get_text
config_of vars crds =
    let addon = get_text "ADDON_NAME" vars in
    record {
      addon_param_secret_name = "addon-" <> (addon <> "-parameters");
      addon_config_map_name = addon;
      addon_config_map_delete_label_key = "api.openshift.com/addon-" <> (addon <> "-delete");
      pagerduty_secret_name = addon <> "-pagerduty";
      dead_mans_snitch_secret_name = addon <> "-deadmanssnitch";
      smtp_secret_name = addon <> "-smtp";
      sop_endpoint = get_text "SOP_ENDPOINT" vars;
      alert_smtp_from = get_text "ALERT_SMTP_FROM_ADDR" vars;
      customer_notification_html_path = "templates/customernotification.html";
      deployment_type = get_text "DEPLOYMENT_TYPE" vars;
      rhobs_secret_name = addon <> "-prom-remote-write";
      rhobs_endpoint = get_text "RHOBS_ENDPOINT" vars;
      rhsso_token_endpoint = get_text "RH_SSO_TOKEN_ENDPOINT" vars;
      available_crds = crds;
    }

-- The new resource has the finalizer from the start.
abbrev pub initial_managed_ocs : String → Object Kind.managed_ocs
initial_managed_ocs namespace = record {
  metadata = record (new_meta "managedocs" namespace) { finalizers = managed_ocs_finalizer ∷ [] };
  body = new_managed_ocs;
}

-- A resource that exists already is no error.
unfoldable pub ensured : Result (Object Kind.managed_ocs) → Result (Unit {0})
ensured (ok _) = ok tt
ensured (err e) = if is_already_exists e then ok tt else err e
ensured panic = panic

unfoldable pub ensure_managed_ocs :
    (E : Env) → Dict String → E.Cluster → Result (Unit {0}) × E.Cluster
unfolding ensured get_text
ensure_managed_ocs E vars c =
    let (answer, c') =
      E.create Kind.managed_ocs (initial_managed_ocs (get_text "NAMESPACE" vars)) c in
    (ensured answer, c')
