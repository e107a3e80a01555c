-- ===== src/Controllers/Slots.antt =====
-- The pointer fields of the reconciler, by the names of the fields.
use ocs_osd_deployer.Kube.Object.{Kind}
use ocs_osd_deployer.Controllers.State.{Slot}

abbrev pub managed_ocs : Slot Kind.managed_ocs
managed_ocs = record { read = λ r. r.managed_ocs; write = λ obj r. record r { managed_ocs = obj } }

abbrev pub storage_cluster : Slot Kind.storage_cluster
storage_cluster = record {
  read = λ r. r.storage_cluster;
  write = λ obj r. record r { storage_cluster = obj };
}

abbrev pub egress_network_policy : Slot Kind.egress_network_policy
egress_network_policy = record {
  read = λ r. r.egress_network_policy;
  write = λ obj r. record r { egress_network_policy = obj };
}

abbrev pub egress_firewall : Slot Kind.egress_firewall
egress_firewall = record {
  read = λ r. r.egress_firewall;
  write = λ obj r. record r { egress_firewall = obj };
}

abbrev pub ingress_network_policy : Slot Kind.network_policy
ingress_network_policy = record {
  read = λ r. r.ingress_network_policy;
  write = λ obj r. record r { ingress_network_policy = obj };
}

abbrev pub ceph_ingress_network_policy : Slot Kind.network_policy
ceph_ingress_network_policy = record {
  read = λ r. r.ceph_ingress_network_policy;
  write = λ obj r. record r { ceph_ingress_network_policy = obj };
}

abbrev pub provider_api_server_network_policy : Slot Kind.network_policy
provider_api_server_network_policy = record {
  read = λ r. r.provider_api_server_network_policy;
  write = λ obj r. record r { provider_api_server_network_policy = obj };
}

abbrev pub prometheus_proxy_network_policy : Slot Kind.network_policy
prometheus_proxy_network_policy = record {
  read = λ r. r.prometheus_proxy_network_policy;
  write = λ obj r. record r { prometheus_proxy_network_policy = obj };
}

abbrev pub prometheus : Slot Kind.prometheus
prometheus = record { read = λ r. r.prometheus; write = λ obj r. record r { prometheus = obj } }

abbrev pub prometheus_service : Slot Kind.service
prometheus_service = record {
  read = λ r. r.prometheus_service;
  write = λ obj r. record r { prometheus_service = obj };
}

abbrev pub dms_rule : Slot Kind.prometheus_rule
dms_rule = record { read = λ r. r.dms_rule; write = λ obj r. record r { dms_rule = obj } }

abbrev pub alertmanager : Slot Kind.alertmanager
alertmanager = record {
  read = λ r. r.alertmanager;
  write = λ obj r. record r { alertmanager = obj };
}

abbrev pub pagerduty_secret : Slot Kind.secret
pagerduty_secret = record {
  read = λ r. r.pagerduty_secret;
  write = λ obj r. record r { pagerduty_secret = obj };
}

abbrev pub dead_mans_snitch_secret : Slot Kind.secret
dead_mans_snitch_secret = record {
  read = λ r. r.dead_mans_snitch_secret;
  write = λ obj r. record r { dead_mans_snitch_secret = obj };
}

abbrev pub smtp_secret : Slot Kind.secret
smtp_secret = record { read = λ r. r.smtp_secret; write = λ obj r. record r { smtp_secret = obj } }

abbrev pub alertmanager_config : Slot Kind.alertmanager_config
alertmanager_config = record {
  read = λ r. r.alertmanager_config;
  write = λ obj r. record r { alertmanager_config = obj };
}

abbrev pub alert_relabel_config_secret : Slot Kind.secret
alert_relabel_config_secret = record {
  read = λ r. r.alert_relabel_config_secret;
  write = λ obj r. record r { alert_relabel_config_secret = obj };
}

abbrev pub k8s_metrics_service_monitor : Slot Kind.service_monitor
k8s_metrics_service_monitor = record {
  read = λ r. r.k8s_metrics_service_monitor;
  write = λ obj r. record r { k8s_metrics_service_monitor = obj };
}

abbrev pub onboarding_validation_key_secret : Slot Kind.secret
onboarding_validation_key_secret = record {
  read = λ r. r.onboarding_validation_key_secret;
  write = λ obj r. record r { onboarding_validation_key_secret = obj };
}

abbrev pub prometheus_kube_rbac_config_map : Slot Kind.config_map
prometheus_kube_rbac_config_map = record {
  read = λ r. r.prometheus_kube_rbac_config_map;
  write = λ obj r. record r { prometheus_kube_rbac_config_map = obj };
}

abbrev pub rhobs_remote_write_config_secret : Slot Kind.secret
rhobs_remote_write_config_secret = record {
  read = λ r. r.rhobs_remote_write_config_secret;
  write = λ obj r. record r { rhobs_remote_write_config_secret = obj };
}

abbrev pub csi_kms_connection_details_config_map : Slot Kind.config_map
csi_kms_connection_details_config_map = record {
  read = λ r. r.csi_kms_connection_details_config_map;
  write = λ obj r. record r { csi_kms_connection_details_config_map = obj };
}
