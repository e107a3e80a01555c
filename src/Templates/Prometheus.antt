-- ===== src/Templates/Prometheus.antt =====
-- templates/prometheus.go.
use ocs_osd_deployer.Base.{String, ◌<>◌, true, false, none, List, [], ◌∷◌}
use ocs_osd_deployer.Base.Text.{join}
use ocs_osd_deployer.Kube.Storage.{LabelSelector}
use ocs_osd_deployer.Kube.Monitoring.{SecretKeySelector, PrometheusSpec}
use ocs_osd_deployer.Kube.Workload.{from_secret, from_config_map}
use ocs_osd_deployer.Utils.Slices.{map_items}
use ocs_osd_deployer.Utils.Resources.{get_resource_requirements}
use ocs_osd_deployer.Templates.NetworkPolicies.{kube_rbac_proxy_port_number}

abbrev pub prometheus_serving_cert_secret_name : String
prometheus_serving_cert_secret_name = "prometheus-serving-cert-secret"

abbrev pub prometheus_kube_rbac_proxy_config_map_name : String
prometheus_kube_rbac_proxy_config_map_name = "prometheus-kube-rbac-proxy-config"

abbrev pub resource_selector : LabelSelector
resource_selector = record { match_labels = ("app", "managed-ocs") ∷ []; match_expressions = [] }

abbrev pub metrics : List String
metrics =
    "job:ceph_versions_running:count" ∷ "job:ceph_pools_iops_bytes:total"
    ∷ "job:ceph_pools_iops:total" ∷ "job:kube_pv:count" ∷ "job:ceph_osd_metadata:count"
    ∷ "ceph_health_status" ∷ "ceph_cluster_total_used_raw_bytes" ∷ "ceph_cluster_total_bytes"
    ∷ "cluster:kubelet_volume_stats_used_bytes:provisioner:sum"
    ∷ "cluster:kube_persistentvolumeclaim_resource_requests_storage_bytes:provisioner:sum" ∷ []

abbrev pub alerts : List String
alerts =
    "CephMdsMissingReplicas" ∷ "CephMgrIsAbsent" ∷ "CephMgrIsMissingReplicas" ∷ "CephNodeDown"
    ∷ "CephClusterErrorState" ∷ "CephClusterWarningState" ∷ "CephOSDVersionMismatch"
    ∷ "CephMonVersionMismatch" ∷ "CephOSDFlapping" ∷ "CephOSDDiskNotResponding"
    ∷ "CephOSDDiskUnavailable" ∷ "CephDataRecoveryTakingTooLong" ∷ "CephPGRepairTakingTooLong"
    ∷ "CephMonQuorumAtRisk" ∷ "CephMonQuorumLost" ∷ []

-- "(ALERTS;(%s))|%s"
unfoldable pub get_relable_regex : List String → List String → String
unfolding join map_items
get_relable_regex alerts metrics =
    "(ALERTS;("
    <> (join "|" alerts <> ("))|" <> join "|" (map_items metrics (λ text. "(" <> (text <> ";)")))))

abbrev no_key : SecretKeySelector
no_key = record { name = ""; key = "" }

unfoldable pub prometheus_template : PrometheusSpec
prometheus_template = record {
  replicas = none;
  external_labels = [];
  service_account_name = "prometheus-k8s";
  service_monitor_selector = resource_selector;
  pod_monitor_selector = resource_selector;
  rule_selector = resource_selector;
  enable_admin_api = false;
  alertmanagers = (record { namespace = ""; name = "alertmanager-operated"; port = "web" }) ∷ [];
  resources = get_resource_requirements "prometheus";
  listen_local = true;
  containers =
      (record {
        name = "kube-rbac-proxy";
        image = "";
        args =
            "--secure-listen-address=0.0.0.0:9339" ∷ "--upstream=http://127.0.0.1:9090/"
            ∷ "--logtostderr=true" ∷ "--v=10" ∷ "--tls-cert-file=/etc/tls-secret/tls.crt"
            ∷ "--tls-private-key-file=/etc/tls-secret/tls.key"
            ∷ "--client-ca-file=/var/run/secrets/kubernetes.io/serviceaccount/service-ca.crt"
            ∷ "--config-file=/etc/kube-rbac-config/config-file.json" ∷ [];
        ports = (record { name = "https"; container_port = kube_rbac_proxy_port_number }) ∷ [];
        volume_mounts =
            (record { name = "serving-cert"; mount_path = "/etc/tls-secret" })
            ∷ (record { name = "kube-rbac-config"; mount_path = "/etc/kube-rbac-config" })
            ∷ [];
        resources = get_resource_requirements "kube-rbac-proxy";
      })
      ∷ [];
  volumes =
      (record { name = "serving-cert"; source = from_secret prometheus_serving_cert_secret_name })
      ∷ (record {
        name = "kube-rbac-config";
        source = from_config_map prometheus_kube_rbac_proxy_config_map_name;
      })
      ∷ [];
  remote_write =
      (record {
        url = "";
        oauth2 = record {
          client_secret = no_key;
          client_id = no_key;
          token_url = "";
          endpoint_params = [];
        };
        write_relabel_configs =
            (record {
              source_labels = "__name__" ∷ "alertname" ∷ [];
              target_label = "";
              regex = get_relable_regex alerts metrics;
              replacement = "";
              action = "keep";
            })
            ∷ [];
      })
      ∷ [];
  additional_alert_relabel_configs = none;
}
