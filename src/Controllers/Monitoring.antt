-- ===== src/Controllers/Monitoring.antt =====
-- `reconcilePrometheusService`, `reconcileDMSPrometheusRule`,
-- `reconcileAlertmanager`, `reconcileK8SMetricsServiceMonitor` and `reconcileMonitoringResources`.
use ocs_osd_deployer.Base.{String, some, List, [], ◌∷◌, str_eq, map, if◌then◌else◌}
use ocs_osd_deployer.Base.Dict.{insert}
use ocs_osd_deployer.Kube.Exec.{pure, wrap, for_each, ◌>>=◌, ◌>>◌}
use ocs_osd_deployer.Kube.Network.{ServiceSpec}
use ocs_osd_deployer.Kube.Monitoring.{RuleGroup, Rule}
use ocs_osd_deployer.Kube.Object.{Kind, Object, add_label, add_annotation}
use ocs_osd_deployer.Kube.Env.{Env}
use ocs_osd_deployer.Templates.NetworkPolicies.{kube_rbac_proxy_port_number}
use ocs_osd_deployer.Templates.Prometheus.{prometheus_serving_cert_secret_name}
use ocs_osd_deployer.Templates.Rules.{
  dms_prometheus_rule_template, alertmanager_template, k8s_metrics_service_monitor_template,
}
use ocs_osd_deployer.Controllers.State.{Reconciler, mon_label_key, mon_label_value}
use ocs_osd_deployer.Controllers.Actions.{M, assign, list, update, own, CreateOrUpdate}
use ocs_osd_deployer.Controllers.Slots

unfoldable pub desired_service : Object Kind.service → Object Kind.service
unfolding add_label add_annotation
desired_service obj =
    let spec : ServiceSpec = record {
      ports =
          (record {
            name = "https";
            protocol = "TCP";
            port = kube_rbac_proxy_port_number;
            target_port = "https";
          })
          ∷ [];
      selector = ("app.kubernetes.io/name", obj.metadata.name) ∷ [];
    } in
    add_label
      (add_annotation
        (add_annotation (record obj { body = spec })
          "service.beta.openshift.io/serving-cert-secret-name" prometheus_serving_cert_secret_name)
        "service.alpha.openshift.io/serving-cert-secret-name" prometheus_serving_cert_secret_name)
      mon_label_key mon_label_value

-- The two loops over the rules of the template.
abbrev label_rule : String → Rule → Rule
label_rule namespace rule =
    if str_eq rule.alert "DeadMansSnitch"
    then record rule { labels = insert "namespace" namespace rule.labels }
    else rule

abbrev label_group : String → RuleGroup → RuleGroup
label_group namespace group =
    if str_eq group.name "snitch-alert"
    then record group { rules = map (label_rule namespace) group.rules }
    else group

unfoldable pub desired_dms_rule : String → List RuleGroup
unfolding dms_prometheus_rule_template insert
desired_dms_rule namespace = map (label_group namespace) dms_prometheus_rule_template

module _ (E : Env) where
  abbrev set_service : Reconciler → Reconciler
  set_service r = record r { prometheus_service = desired_service r.prometheus_service }

  unfoldable pub mutate_service : M E (Unit {0})
  mutate_service = do own E Slots.prometheus_service; assign E set_service

  unfoldable pub mutate_dms_rule : M E (Unit {0})
  mutate_dms_rule = do
    own E Slots.dms_rule
    assign E
        (λ r. record r { dms_rule = record r.dms_rule { body = desired_dms_rule r.namespace } })

  abbrev pub set_alertmanager : Reconciler → Reconciler
  set_alertmanager r = record r {
    alertmanager =
        add_label
          (record r.alertmanager {
            body = record alertmanager_template {
              config_selector = some (record {
                match_labels = (mon_label_key, mon_label_value) ∷ [];
                match_expressions = [];
              });
            };
          })
          mon_label_key mon_label_value;
  }

  unfoldable pub mutate_alertmanager : M E (Unit {0})
  mutate_alertmanager = do own E Slots.alertmanager; assign E set_alertmanager

  unfoldable pub mutate_k8s_metrics : M E (Unit {0})
  mutate_k8s_metrics = do
    own E Slots.k8s_metrics_service_monitor
    assign E (λ r. record r {
      k8s_metrics_service_monitor = record r.k8s_metrics_service_monitor {
        body = k8s_metrics_service_monitor_template;
      };
    })

  unfoldable pub label_one : {k : Kind} → Object k → M E (Unit {0})
  label_one obj = update E (add_label obj mon_label_key mon_label_value) >> pure tt

  unfoldable pub label_all : Kind → String → M E (Unit {0})
  unfolding label_one
  label_all k problem = do objs ← wrap problem (list E k); for_each objs label_one

  unfoldable pub reconcile_monitoring_resources : M E (Unit {0})
  unfolding label_all
  reconcile_monitoring_resources = do
    label_all Kind.pod_monitor "Could not list pod monitors: "
    label_all Kind.service_monitor "Could not list service monitors: "
    label_all Kind.prometheus_rule "Could not list prometheus rules: "

  module _ (create_or_update : CreateOrUpdate E) where
    unfoldable pub reconcile_prometheus_service : M E (Unit {0})
    reconcile_prometheus_service =
        create_or_update Kind.service Slots.prometheus_service mutate_service

    unfoldable pub reconcile_dms_prometheus_rule : M E (Unit {0})
    reconcile_dms_prometheus_rule =
        create_or_update Kind.prometheus_rule Slots.dms_rule mutate_dms_rule

    unfoldable pub reconcile_alertmanager : M E (Unit {0})
    reconcile_alertmanager =
        create_or_update Kind.alertmanager Slots.alertmanager mutate_alertmanager

    unfoldable pub reconcile_k8s_metrics_service_monitor : M E (Unit {0})
    reconcile_k8s_metrics_service_monitor =
        wrap "Failed to update k8sMetricsServiceMonitor: " (
          create_or_update Kind.service_monitor Slots.k8s_metrics_service_monitor
            mutate_k8s_metrics)
