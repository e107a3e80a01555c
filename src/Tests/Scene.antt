-- ===== src/Tests/Scene.antt =====
-- A cluster with one resource, whose storage cluster is ready, and a reconciler in its namespace.
use ocs_osd_deployer.Base.{ℕ, suc, String, true, false, Option, some, List, [], ◌∷◌}
use ocs_osd_deployer.Base.Dict.{Dict}
use ocs_osd_deployer.Base.Int.{pos}
use ocs_osd_deployer.Api.{ready, ComponentState}
use ocs_osd_deployer.Kube.Exec.{Result, ok, err}
use ocs_osd_deployer.Kube.Exec
use ocs_osd_deployer.Kube.Object.{Kind, Object, new_meta}
use ocs_osd_deployer.Kube.Env.{Env}
use ocs_osd_deployer.Controllers.State.{Config, Reconciler, World}
use ocs_osd_deployer.Controllers.Actions.{CreateOrUpdate, documented}
use ocs_osd_deployer.Controllers.Init.{
  new_object, no_storage_cluster, no_network_policy, no_service, no_prometheus, no_alertmanager,
  no_alertmanager_config, no_service_monitor,
}

abbrev pub namespace : String
namespace = "openshift-storage"

abbrev pub storage_cluster_obj : Object Kind.storage_cluster
storage_cluster_obj = record {
  metadata = record (new_meta "ocs-storagecluster" namespace) { uid = "2" };
  body = record no_storage_cluster { phase = "Ready" };
}

abbrev pub managed_ocs_obj : ComponentState → Object Kind.managed_ocs
managed_ocs_obj state = record {
  metadata = record (new_meta "managedocs" namespace) { uid = "1" };
  body = record {
    reconcile_strategy = "";
    status = record {
      reconcile_strategy = "";
      components = record { storage_cluster = state; prometheus = state; alertmanager = state };
    };
  };
}

-- The cluster counts the calls that change something.
abbrev pub answer : (k : Kind) → String → String → ℕ → Result (Object k) × ℕ
answer Kind.managed_ocs name ns n = (ok (managed_ocs_obj ready), n)
answer Kind.storage_cluster name ns n = (ok storage_cluster_obj, n)
answer k name ns n = (err Exec.not_found, n)

abbrev pub csv_obj : String → Object Kind.cluster_service_version
csv_obj name = record {
  metadata = new_meta name namespace;
  body =
      (record {
        name = "noobaa-operator";
        replicas = some (pos 1);
        containers =
            (record {
              name = "ocs-operator";
              image = "";
              args = [];
              ports = [];
              volume_mounts = [];
              resources = record { limits = []; requests = [] };
            })
            ∷ [];
      })
      ∷ [];
}

abbrev pub listing : (k : Kind) → Option String → Option ℕ → ℕ → Result (List (Object k)) × ℕ
listing Kind.cluster_service_version ns limit n = (ok (csv_obj "ocs-operator.v4.11" ∷ []), n)
listing k ns limit n = (ok [], n)

abbrev pub env : Env
env = record {
  Cluster = ℕ;
  get = answer;
  list = listing;
  create = λ k obj n. (ok obj, suc n);
  update = λ k obj n. (ok obj, suc n);
  update_status = λ k obj n. (ok obj, suc n);
  delete = λ k obj n. (ok tt, suc n);
  set_controller_reference = λ owner obj. ok obj;
  same_object = λ k a b. false;
  same_requirements = λ a b. true;
  parse_quantity = λ text. some (record { text = text });
  is_negative = λ q. false;
  hostname = λ url. some url;
  read_file = λ path. ok "";
  yaml_relabel_configs = λ configs. ok "";
  yaml_requirements = λ requirements. ok "";
  json_texts = λ texts. ok "";
}

abbrev pub create_or_update : CreateOrUpdate env
create_or_update k slot mutate = documented env slot mutate

abbrev pub config : Config
config = record {
  addon_param_secret_name = "addon-ocs-parameters";
  addon_config_map_name = "ocs";
  addon_config_map_delete_label_key = "api.openshift.com/addon-ocs-delete";
  pagerduty_secret_name = "ocs-pagerduty";
  dead_mans_snitch_secret_name = "ocs-deadmanssnitch";
  smtp_secret_name = "ocs-smtp";
  sop_endpoint = "https://sop";
  alert_smtp_from = "noreply@example.com";
  customer_notification_html_path = "templates/customernotification.html";
  deployment_type = "converged";
  rhobs_secret_name = "ocs-prom-remote-write";
  rhobs_endpoint = "https://rhobs";
  rhsso_token_endpoint = "https://sso";
  available_crds = [];
}

-- The state of the components and the strategy are given.
abbrev pub reconciler : ComponentState → String → Dict String → Reconciler
reconciler state strategy params = record {
  config = config;
  namespace = namespace;
  reconcile_strategy = strategy;
  addon_params = params;
  managed_ocs = managed_ocs_obj state;
  storage_cluster = storage_cluster_obj;
  egress_network_policy = new_object {k = Kind.egress_network_policy} "egress-rule" namespace [];
  egress_firewall = new_object {k = Kind.egress_firewall} "default" namespace [];
  ingress_network_policy =
      new_object {k = Kind.network_policy} "ingress-rule" namespace no_network_policy;
  ceph_ingress_network_policy =
      new_object {k = Kind.network_policy} "ceph-ingress-rule" namespace no_network_policy;
  provider_api_server_network_policy =
      new_object {k = Kind.network_policy} "provider-api-server-rule" namespace no_network_policy;
  prometheus_proxy_network_policy =
      new_object {k = Kind.network_policy} "prometheus-proxy-rule" namespace no_network_policy;
  prometheus = new_object {k = Kind.prometheus} "managed-ocs-prometheus" namespace no_prometheus;
  prometheus_service = new_object {k = Kind.service} "prometheus" namespace no_service;
  dms_rule = new_object {k = Kind.prometheus_rule} "dms-monitor-rule" namespace [];
  alertmanager =
      new_object {k = Kind.alertmanager} "managed-ocs-alertmanager" namespace no_alertmanager;
  pagerduty_secret = new_object {k = Kind.secret} "ocs-pagerduty" namespace [];
  dead_mans_snitch_secret = new_object {k = Kind.secret} "ocs-deadmanssnitch" namespace [];
  smtp_secret = new_object {k = Kind.secret} "ocs-smtp" namespace [];
  alertmanager_config =
      new_object {k = Kind.alertmanager_config} "managed-ocs-alertmanager-config" namespace
        no_alertmanager_config;
  alert_relabel_config_secret =
      new_object {k = Kind.secret} "managed-ocs-alert-relabel-config-secret" namespace [];
  k8s_metrics_service_monitor =
      new_object {k = Kind.service_monitor} "k8s-metrics-service-monitor" namespace
        no_service_monitor;
  onboarding_validation_key_secret =
      new_object {k = Kind.secret} "onboarding-ticket-key" namespace [];
  prometheus_kube_rbac_config_map = new_object {k = Kind.config_map} "kube-rbac" namespace [];
  rhobs_remote_write_config_secret =
      new_object {k = Kind.secret} "ocs-prom-remote-write" namespace [];
  csi_kms_connection_details_config_map = new_object {k = Kind.config_map} "csi-kms" namespace [];
}

abbrev pub world : ComponentState → String → Dict String → World env
world state strategy params = record {
  reconciler = reconciler state strategy params;
  cluster = 0;
  journal = [];
}
