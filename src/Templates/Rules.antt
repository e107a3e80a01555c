-- ===== src/Templates/Rules.antt =====
-- templates/dmsprometheusrule.go, k8smetricsservicemonitor.go and alertmanager.go.
use ocs_osd_deployer.Base.{String, true, none, some, List, [], ◌∷◌}
use ocs_osd_deployer.Base.Int.{pos}
use ocs_osd_deployer.Kube.Monitoring.{RuleGroup, AlertmanagerSpec, ServiceMonitorSpec}
use ocs_osd_deployer.Utils.Resources.{get_resource_requirements}

unfoldable pub dms_prometheus_rule_template : List RuleGroup
dms_prometheus_rule_template =
    (record {
      name = "snitch-alert";
      rules =
          (record {
            alert = "DeadMansSnitch";
            expr = "vector(1)";
            labels = ("alertname", "DeadMansSnitch") ∷ [];
          })
          ∷ [];
    })
    ∷ []

unfoldable pub alertmanager_template : AlertmanagerSpec
alertmanager_template = record {
  replicas = some (pos 1);
  resources = get_resource_requirements "alertmanager";
  config_selector = none;
}

abbrev federated_metrics : List String
federated_metrics =
    "{__name__='kube_node_status_condition'}" ∷ "{__name__='kube_persistentvolume_info'}"
    ∷ "{__name__='kube_storageclass_info'}" ∷ "{__name__='kube_persistentvolumeclaim_info'}"
    ∷ "{__name__='kube_deployment_spec_replicas'}" ∷ "{__name__='kube_pod_status_phase'}"
    ∷ "{__name__='kubelet_volume_stats_capacity_bytes'}"
    ∷ "{__name__='kubelet_volume_stats_used_bytes'}"
    ∷ "{__name__='node_disk_read_time_seconds_total'}"
    ∷ "{__name__='node_disk_write_time_seconds_total'}"
    ∷ "{__name__='node_disk_reads_completed_total'}"
    ∷ "{__name__='node_disk_writes_completed_total'}" ∷ []

unfoldable pub k8s_metrics_service_monitor_template : ServiceMonitorSpec
k8s_metrics_service_monitor_template = record {
  endpoints =
      (record {
        port = "web";
        path = "/federate";
        scheme = "https";
        scrape_timeout = "1m";
        interval = "2m";
        honor_labels = true;
        metric_relabel_configs =
            (record {
              source_labels = [];
              target_label = "";
              regex = "prometheus_replica";
              replacement = "";
              action = "labeldrop";
            })
            ∷ [];
        relabel_configs =
            (record {
              source_labels = "pod" ∷ [];
              target_label = "pod";
              regex = "prometheus-k8s-.*";
              replacement = "";
              action = "replace";
            })
            ∷ [];
        insecure_skip_verify = true;
        params = ("match[]", federated_metrics) ∷ [];
        bearer_token_file = "/var/run/secrets/kubernetes.io/serviceaccount/token";
      })
      ∷ [];
  match_names = "openshift-monitoring" ∷ [];
  selector = record {
    match_labels = ("app.kubernetes.io/component", "prometheus") ∷ [];
    match_expressions = [];
  };
}
