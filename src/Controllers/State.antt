-- ===== src/Controllers/State.antt =====
-- The constants, the fields and the view of the outside of `ManagedOCSReconciler`. The logger, the
-- scheme and the context are left out.
use ocs_osd_deployer.Base.{String, Bool, List}
use ocs_osd_deployer.Base.Dict.{Dict}
use ocs_osd_deployer.Api.{ReconcileStrategy}
use ocs_osd_deployer.Kube.Object.{
  Kind, managed_ocs, storage_cluster, egress_network_policy, egress_firewall, network_policy,
  prometheus, service, prometheus_rule, alertmanager, secret, config_map, alertmanager_config,
  service_monitor, Object,
}
use ocs_osd_deployer.Kube.Env.{Env}

-- The fields that `main` sets, and `DeploymentType`, which `initReconciler` puts in lower case.
pub record Config : Type 0 where
  pub addon_param_secret_name : String
  pub addon_config_map_name : String
  pub addon_config_map_delete_label_key : String
  pub pagerduty_secret_name : String
  pub dead_mans_snitch_secret_name : String
  pub smtp_secret_name : String
  pub sop_endpoint : String
  pub alert_smtp_from : String
  pub customer_notification_html_path : String
  pub deployment_type : String
  pub rhobs_secret_name : String
  pub rhobs_endpoint : String
  pub rhsso_token_endpoint : String
  pub available_crds : Dict Bool

pub record Reconciler : Type 0 where
  pub config : Config
  pub managed_ocs : Object managed_ocs
  pub storage_cluster : Object storage_cluster
  pub egress_network_policy : Object egress_network_policy
  pub egress_firewall : Object egress_firewall
  pub ingress_network_policy : Object network_policy
  pub ceph_ingress_network_policy : Object network_policy
  pub provider_api_server_network_policy : Object network_policy
  pub prometheus_proxy_network_policy : Object network_policy
  pub prometheus : Object prometheus
  pub prometheus_service : Object service
  pub dms_rule : Object prometheus_rule
  pub alertmanager : Object alertmanager
  pub pagerduty_secret : Object secret
  pub dead_mans_snitch_secret : Object secret
  pub smtp_secret : Object secret
  pub alertmanager_config : Object alertmanager_config
  pub alert_relabel_config_secret : Object secret
  pub k8s_metrics_service_monitor : Object service_monitor
  pub namespace : String
  pub reconcile_strategy : ReconcileStrategy
  pub addon_params : Dict String
  pub onboarding_validation_key_secret : Object secret
  pub prometheus_kube_rbac_config_map : Object config_map
  pub rhobs_remote_write_config_secret : Object secret
  pub csi_kms_connection_details_config_map : Object config_map

-- The calls that change the cluster, as they are issued. The journal of them is not a field of the
-- program: it records what a run asks of the API server.
pub data Write : Type 0 where
  created updated status_updated deleted : Kind → String → Write

-- The state that a method works on.
pub record World (E : Env) : Type 0 where
  pub reconciler : Reconciler
  pub cluster : E.Cluster
  pub journal : List Write

-- A pointer field of the reconciler.
pub record Slot (k : Kind) : Type 0 where
  pub read : Reconciler → Object k
  pub write : Object k → Reconciler → Reconciler

abbrev pub converged_deployment_type : String
converged_deployment_type = "converged"

abbrev pub consumer_deployment_type : String
consumer_deployment_type = "consumer"

abbrev pub provider_deployment_type : String
provider_deployment_type = "provider"

abbrev pub managed_ocs_finalizer : String
managed_ocs_finalizer = "managedocs.ocs.openshift.io"

abbrev pub egress_firewall_crd : String
egress_firewall_crd = "egressfirewalls.k8s.ovn.org"

abbrev pub egress_network_policy_crd : String
egress_network_policy_crd = "egressnetworkpolicies.network.openshift.io"

abbrev pub managed_ocs_name : String
managed_ocs_name = "managedocs"

abbrev pub prometheus_name : String
prometheus_name = "managed-ocs-prometheus"

abbrev pub alertmanager_name : String
alertmanager_name = "managed-ocs-alertmanager"

abbrev pub mon_label_key : String
mon_label_key = "app"

abbrev pub mon_label_value : String
mon_label_value = "managed-ocs"

abbrev pub rook_config_map_name : String
rook_config_map_name = "rook-ceph-operator-config"

abbrev pub csi_kms_config_map_name : String
csi_kms_config_map_name = "csi-kms-connection-details"

abbrev pub ocs_operator_name : String
ocs_operator_name = "ocs-operator"

abbrev pub mcg_operator_name : String
mcg_operator_name = "mcg-operator"

abbrev pub deployer_csv_prefix : String
deployer_csv_prefix = "ocs-osd-deployer"

abbrev pub odf_olm_package_name : String
odf_olm_package_name = "odf-operator"

abbrev pub storage_size_key : String
storage_size_key = "size"

abbrev pub storage_unit_key : String
storage_unit_key = "unit"

abbrev pub enable_mcg_key : String
enable_mcg_key = "enable-mcg"

abbrev pub device_set_name : String
device_set_name = "default"
