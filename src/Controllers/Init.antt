-- ===== src/Controllers/Init.antt =====
-- `initReconciler`: the fields are emptied at the start of each run.
use ocs_osd_deployer.Base.{String, false, none, []}
use ocs_osd_deployer.Base.Text.{to_lower}
use ocs_osd_deployer.Api.{new_managed_ocs}
use ocs_osd_deployer.Kube.Storage.{ResourceRequirements, LabelSelector, StorageClusterSpec}
use ocs_osd_deployer.Kube.Network.{NetworkPolicySpec, ServiceSpec}
use ocs_osd_deployer.Kube.Monitoring.{
  PrometheusSpec, AlertmanagerSpec, AlertmanagerConfigSpec, ServiceMonitorSpec,
}
use ocs_osd_deployer.Kube.Object.{Body, Kind, Object, StorageCluster, new_meta}
use ocs_osd_deployer.Templates.Prometheus.{prometheus_kube_rbac_proxy_config_map_name}
use ocs_osd_deployer.Controllers.State.{
  Config, Reconciler, prometheus_name, alertmanager_name, csi_kms_config_map_name,
}

-- The zero values of the Go types.
abbrev no_selector : LabelSelector
no_selector = record { match_labels = []; match_expressions = [] }

abbrev no_requirements : ResourceRequirements
no_requirements = record { limits = []; requests = [] }

abbrev pub no_storage_cluster_spec : StorageClusterSpec
no_storage_cluster_spec = record {
  label_selector = none;
  manage_nodes = false;
  mon_pvc_template = none;
  resources = [];
  storage_device_sets = [];
  multi_cloud_gateway = none;
  external_storage = record {
    enable = false;
    storage_provider_kind = "";
    storage_provider_endpoint = "";
    onboarding_ticket = "";
    requested_capacity = none;
  };
  host_network = false;
  allow_remote_storage_consumers = false;
  managed_resources = record {
    block_pools_reconcile_strategy = "";
    block_pools_disable_storage_class = false;
    block_pools_disable_snapshot_class = false;
    filesystems_disable_storage_class = false;
    filesystems_disable_snapshot_class = false;
  };
}

abbrev pub no_storage_cluster : StorageCluster
no_storage_cluster = record { spec = no_storage_cluster_spec; phase = "" }

abbrev pub no_network_policy : NetworkPolicySpec
no_network_policy = record { pod_selector = no_selector; ingress = []; policy_types = [] }

abbrev pub no_service : ServiceSpec
no_service = record { ports = []; selector = [] }

abbrev pub no_prometheus : PrometheusSpec
no_prometheus = record {
  replicas = none;
  external_labels = [];
  service_account_name = "";
  service_monitor_selector = no_selector;
  pod_monitor_selector = no_selector;
  rule_selector = no_selector;
  enable_admin_api = false;
  alertmanagers = [];
  resources = no_requirements;
  listen_local = false;
  containers = [];
  volumes = [];
  remote_write = [];
  additional_alert_relabel_configs = none;
}

abbrev pub no_alertmanager : AlertmanagerSpec
no_alertmanager = record { replicas = none; resources = no_requirements; config_selector = none }

abbrev pub no_alertmanager_config : AlertmanagerConfigSpec
no_alertmanager_config = record { receiver = ""; routes = []; receivers = [] }

abbrev pub no_service_monitor : ServiceMonitorSpec
no_service_monitor = record { endpoints = []; match_names = []; selector = no_selector }

-- A new object with a name in the namespace of the run.
abbrev pub new_object : {k : Kind} → String → String → Body k → Object k
new_object name namespace zero_body = record {
  metadata = new_meta name namespace;
  body = zero_body;
}

-- The strategy alone keeps the value of the last run.
unfoldable pub init_reconciler : String → String → Reconciler → Reconciler
unfolding to_lower
init_reconciler name namespace r =
    let config : Config = record r.config { deployment_type = to_lower r.config.deployment_type } in
    record r {
      config = config;
      namespace = namespace;
      addon_params = [];
      managed_ocs = new_object {k = Kind.managed_ocs} name namespace new_managed_ocs;
      storage_cluster =
          new_object {k = Kind.storage_cluster} "ocs-storagecluster" namespace no_storage_cluster;
      egress_network_policy =
          new_object {k = Kind.egress_network_policy} "egress-rule" namespace [];
      egress_firewall = new_object {k = Kind.egress_firewall} "default" namespace [];
      ingress_network_policy =
          new_object {k = Kind.network_policy} "ingress-rule" namespace no_network_policy;
      ceph_ingress_network_policy =
          new_object {k = Kind.network_policy} "ceph-ingress-rule" namespace no_network_policy;
      provider_api_server_network_policy =
          new_object {k = Kind.network_policy} "provider-api-server-rule" namespace
            no_network_policy;
      prometheus_proxy_network_policy =
          new_object {k = Kind.network_policy} "prometheus-proxy-rule" namespace no_network_policy;
      prometheus = new_object {k = Kind.prometheus} prometheus_name namespace no_prometheus;
      prometheus_service = new_object {k = Kind.service} "prometheus" namespace no_service;
      dms_rule = new_object {k = Kind.prometheus_rule} "dms-monitor-rule" namespace [];
      alertmanager = new_object {k = Kind.alertmanager} alertmanager_name namespace no_alertmanager;
      pagerduty_secret = new_object {k = Kind.secret} config.pagerduty_secret_name namespace [];
      dead_mans_snitch_secret =
          new_object {k = Kind.secret} config.dead_mans_snitch_secret_name namespace [];
      smtp_secret = new_object {k = Kind.secret} config.smtp_secret_name namespace [];
      alertmanager_config =
          new_object {k = Kind.alertmanager_config} "managed-ocs-alertmanager-config" namespace
            no_alertmanager_config;
      alert_relabel_config_secret =
          new_object {k = Kind.secret} "managed-ocs-alert-relabel-config-secret" namespace [];
      k8s_metrics_service_monitor =
          new_object {k = Kind.service_monitor} "k8s-metrics-service-monitor" namespace
            no_service_monitor;
      onboarding_validation_key_secret =
          new_object {k = Kind.secret} "onboarding-ticket-key" namespace [];
      prometheus_kube_rbac_config_map =
          new_object {k = Kind.config_map} prometheus_kube_rbac_proxy_config_map_name namespace [];
      rhobs_remote_write_config_secret =
          new_object {k = Kind.secret} config.rhobs_secret_name namespace [];
      csi_kms_connection_details_config_map =
          new_object {k = Kind.config_map} csi_kms_config_map_name namespace [];
    }
