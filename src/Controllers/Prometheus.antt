-- ===== src/Controllers/Prometheus.antt =====
-- `reconcilePrometheus`.
pub mod Missing
pub mod Remote
pub mod Image
pub mod Found
pub mod Fixed
pub mod Steps
pub mod Desired
use ocs_osd_deployer.Base.{String, Option, none, some, List, [], ◌∷◌, str_eq, map, if◌then◌else◌}
use ocs_osd_deployer.Base.Dict.{Dict, lookup, insert}
use ocs_osd_deployer.Kube.Exec.{message, pure, crash, attempt, wrap, for_each, ◌>>=◌, ◌>>◌}
use ocs_osd_deployer.Kube.Network.{ServiceSpec}
use ocs_osd_deployer.Kube.Monitoring.{
  RemoteWrite, PrometheusSpec, AlertmanagerEndpoint, RuleGroup, Rule,
}
use ocs_osd_deployer.Kube.Workload.{Container, DeploymentSpec}
use ocs_osd_deployer.Kube.Object.{Kind, Object, add_label, add_annotation}
use ocs_osd_deployer.Kube.Env.{Env}
use ocs_osd_deployer.Templates.NetworkPolicies.{kube_rbac_proxy_port_number}
use ocs_osd_deployer.Templates.Prometheus.{prometheus_template, prometheus_serving_cert_secret_name}
use ocs_osd_deployer.Templates.Rules.{
  dms_prometheus_rule_template, alertmanager_template, k8s_metrics_service_monitor_template,
}
use ocs_osd_deployer.Controllers.State.{
  Config, Reconciler, converged_deployment_type, deployer_csv_prefix, mon_label_key,
  mon_label_value,
}
use ocs_osd_deployer.Controllers.Actions.{
  M, asks, assign, get, refresh, list, update, own, or_raise, ignore_not_found, CreateOrUpdate,
}
use ocs_osd_deployer.Controllers.Slots
use ocs_osd_deployer.Controllers.Init.{new_object}
use ocs_osd_deployer.Controllers.Operators.{get_csv_by_prefix}

-- The last deployment of the name, and the last image of the name, win.
unfoldable pub controller_deployment : List DeploymentSpec → Option DeploymentSpec
controller_deployment [] = none
controller_deployment (d ∷ ds) = elim (controller_deployment ds) [
  | some later ↦ some later
  | none ↦ if str_eq d.name "ocs-osd-controller-manager" then some d else none
]

abbrev pub last_image : String → List Container → String
last_image image [] = image
last_image image (c ∷ cs) =
    last_image (if str_eq c.name "kube-rbac-proxy" then c.image else image) cs

-- `none` where the deployment is missing: the code then reads through a nil pointer.
unfoldable pub kube_rbac_image : List DeploymentSpec → Option String
unfolding controller_deployment
kube_rbac_image deployments = elim (controller_deployment deployments) [
  | none ↦ none
  | some d ↦ some (last_image "" d.containers)
]

unfoldable pub with_image : String → Container → Container
with_image image c = if str_eq c.name "kube-rbac-proxy" then record c { image = image } else c

-- The namespace of the first endpoint; the template has one.
abbrev in_namespace : String → List AlertmanagerEndpoint → List AlertmanagerEndpoint
in_namespace namespace [] = []
in_namespace namespace (e ∷ es) = (record e { namespace = namespace }) ∷ es

unfoldable pub desired_prometheus : (image cluster_id namespace : String) → PrometheusSpec
unfolding prometheus_template with_image insert
desired_prometheus image cluster_id namespace = record prometheus_template {
  containers = map (with_image image) prometheus_template.containers;
  external_labels = insert "clusterId" cluster_id prometheus_template.external_labels;
  alertmanagers = in_namespace namespace prometheus_template.alertmanagers;
  additional_alert_relabel_configs = some (record {
    name = "managed-ocs-alert-relabel-config-secret";
    key = "alertrelabelconfig.yaml";
  });
}

abbrev pub rhobs_id_key : String
rhobs_id_key = "prom-remote-write-config-id"

abbrev pub rhobs_secret_key : String
rhobs_secret_key = "prom-remote-write-config-secret"

abbrev pub rhobs_audience_key : String
rhobs_audience_key = "rhobs-audience"

-- The first remote write of the template, filled in; the template has one.
unfoldable pub fill_remote_write : Config → String → List RemoteWrite → List RemoteWrite
unfolding insert
fill_remote_write config audience [] = []
fill_remote_write config audience (w ∷ ws) =
    (record w {
      url = config.rhobs_endpoint;
      oauth2 = record w.oauth2 {
        client_id = record { name = config.rhobs_secret_name; key = rhobs_id_key };
        client_secret = record { name = config.rhobs_secret_name; key = rhobs_secret_key };
        token_url = config.rhsso_token_endpoint;
        endpoint_params = insert "audience" audience w.oauth2.endpoint_params;
      };
    })
    ∷ ws

-- `prometheus.Spec = spec` and a write to its remote writes.
abbrev pub with_prometheus : PrometheusSpec → Reconciler → Reconciler
with_prometheus spec r = record r { prometheus = record r.prometheus { body = spec } }

abbrev pub with_remote_write : List RemoteWrite → Reconciler → Reconciler
with_remote_write writes r = with_prometheus (record r.prometheus.body { remote_write = writes }) r

module _ (E : Env) where
  -- A value that the secret must have.
  unfoldable pub require_entry : String → Dict String → M E String
  require_entry key values =
      or_raise (lookup key values) (message "rhobs secret does not contain a value for a key")

  unfoldable pub use_rhobs_secret : M E (Unit {0})
  unfolding fill_remote_write require_entry lookup
  use_rhobs_secret = do
    values ← asks E (λ r. r.rhobs_remote_write_config_secret.body)
    require_entry rhobs_id_key values
    require_entry rhobs_secret_key values
    audience ← require_entry rhobs_audience_key values
    config ← asks E (λ r. r.config)
    writes ← asks E (λ r. r.prometheus.body.remote_write)
    assign E (with_remote_write (fill_remote_write config audience writes))

  -- Remote write is on if the deployment is not converged and the secret exists.
  unfoldable pub set_remote_write : M E (Unit {0})
  unfolding use_rhobs_secret
  set_remote_write = do
    deployment_type ← asks E (λ r. r.config.deployment_type)
    if str_eq deployment_type converged_deployment_type
        then assign E (with_remote_write [])
        else (do
          found ← attempt (refresh E Slots.rhobs_remote_write_config_secret)
          ignore_not_found E found
          uid ← asks E (λ r. r.rhobs_remote_write_config_secret.metadata.uid)
          if str_eq uid "" then assign E (with_remote_write []) else use_rhobs_secret)

  unfoldable pub image_or_crash : Option String → M E String
  image_or_crash none = crash
  image_or_crash (some image) = pure image

  abbrev pub label_prometheus : Reconciler → Reconciler
  label_prometheus r = record r {
    prometheus = add_label r.prometheus mon_label_key mon_label_value;
  }

  unfoldable pub mutate_prometheus : M E (Unit {0})
  unfolding image_or_crash kube_rbac_image
  mutate_prometheus = do
    own E Slots.prometheus
    assign E label_prometheus
    csv ←
        wrap "Unable to set image for kube-rbac-proxy container: "
          (get_csv_by_prefix E deployer_csv_prefix)
    image ← image_or_crash (kube_rbac_image csv.body)
    version ← get E (new_object {k = Kind.cluster_version} "version" "" "")
    namespace ← asks E (λ r. r.namespace)
    assign E (with_prometheus (desired_prometheus image version.body namespace))
    set_remote_write

  module _ (create_or_update : CreateOrUpdate E) where
    unfoldable pub reconcile_prometheus : M E (Unit {0})
    reconcile_prometheus =
        wrap "Failed to update Prometheus: "
          (create_or_update Kind.prometheus Slots.prometheus mutate_prometheus)
