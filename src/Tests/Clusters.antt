-- ===== src/Tests/Clusters.antt =====
-- Storage clusters, alerts and volumes.
use mathlib.Core.List.{Memᴰ}
use ocs_osd_deployer.Base.{
  ℕ, String, ◌<>◌, ◌≡◌, ◌≤◌, ◌<◌, ◌*◌, ◌+◌, ◌↔◌, refl, true, none, some, [], ◌∷◌, arith,
  starts_with, inr,
}
use ocs_osd_deployer.Base.Dict.{Dict, get_text, lookup}
use ocs_osd_deployer.Base.Int.{ℤ, pos, ◌≤ℤ◌}
use ocs_osd_deployer.Base.Text.{atoi, parse_bool}
use ocs_osd_deployer.Kube.Exec.{Result, ok}
use ocs_osd_deployer.Kube.Storage.{StorageClusterSpec}
use ocs_osd_deployer.Kube.Object.{Kind, Object, new_meta}
use ocs_osd_deployer.Templates.StorageClusters.{
  converged_storage_cluster_template, provider_storage_cluster_template,
}
use ocs_osd_deployer.Templates.Egress.{egress_network_policy_template, egress_firewall_template}
use ocs_osd_deployer.Controllers.State.{converged_deployment_type}
use ocs_osd_deployer.Controllers.StorageCluster.{
  desired_storage_cluster, desired_converged_storage_cluster, with_count, apply_mcg, current_count,
}
use ocs_osd_deployer.Controllers.StorageCluster.Count.{provider_device_set_count}
use ocs_osd_deployer.Controllers.StorageCluster.Bounds.{provider_device_set_count_covers}
use ocs_osd_deployer.Controllers.StorageCluster.Desired.{desired-count_le}
use ocs_osd_deployer.Controllers.StorageCluster.Granted.{
  converged_granted, provider_granted, consumer_granted,
}
use ocs_osd_deployer.Controllers.StorageCluster.Meaning.{
  IsLarger, IsSized, IsExternal, AsksForGateway,
}
use ocs_osd_deployer.Controllers.Egress.{vpc_egress_rules, egress_rules}
use ocs_osd_deployer.Controllers.Egress.Order.{DeniesRestLast, egress_rules-DeniesRestLast}
use ocs_osd_deployer.Controllers.Alerts.{
  ReceiverValues, alerting_address_key, alerting_addresses, desired_alertmanager_config,
}
use ocs_osd_deployer.Controllers.Alerts.Addresses.{Given, texts, alerting_addresses-ends}
use ocs_osd_deployer.Controllers.Alerts.Receivers.{Sends, desired_alertmanager_config-Sends}
use ocs_osd_deployer.Controllers.Removal.{ocs_storage_classes, uses_class}
use ocs_osd_deployer.Controllers.Phases.Volumes.{uses_class_iff}
use ocs_osd_deployer.Tests.Scene.{namespace, env}

abbrev params : Dict String
params = ("size", "4") ∷ ("unit", "Ti") ∷ ("enable-mcg", "true") ∷ []

abbrev running : StorageClusterSpec → Result StorageClusterSpec → StorageClusterSpec
running spec (ok out) = out
running spec _ = spec

abbrev granted : StorageClusterSpec
granted =
    running converged_storage_cluster_template
      (desired_storage_cluster env converged_deployment_type params [])

grants : desired_storage_cluster env converged_deployment_type params [] ≡ ok granted
unfolding desired_storage_cluster desired_converged_storage_cluster with_count apply_mcg atoi
    get_text converged_storage_cluster_template parse_bool lookup
grants = refl

desired-count_le_example : current_count [] ≤ℤ current_count granted.storage_device_sets
desired-count_le_example =
    desired-count_le env params [] granted converged_deployment_type (λ e. cc) grants

size_read : atoi (get_text "size" params) ≡ some (pos 4)
unfolding atoi get_text lookup
size_read = refl

flag_asked : AsksForGateway params true
unfolding lookup parse_bool
flag_asked = inr ("true", refl, refl)

converged_granted_example :
    (out : StorageClusterSpec) × (count : ℤ) × (desired_storage_cluster env "converged" params []
      ≡ ok out)
    × IsLarger (pos 4) (pos 0) count
    × IsSized converged_storage_cluster_template count out
converged_granted_example =
    converged_granted env params [] (pos 4) (pos 0) true refl flag_asked size_read

provider_granted_example :
    (out : StorageClusterSpec) × (sets : ℕ) × (count : ℤ) × (desired_storage_cluster env "provider"
        params []
      ≡ ok out)
    × (4 ≤ 4 * sets)
    × (4 * sets < 4 + 4)
    × IsLarger (pos sets) (pos 0) count
    × IsSized provider_storage_cluster_template count out
provider_granted_example =
    provider_granted env params [] 4 (pos 0) true (omega arith) refl flag_asked size_read

consumer_granted_example :
    (out : StorageClusterSpec) × (desired_storage_cluster env "consumer" params [] ≡ ok out)
    × IsExternal params (record { text = get_text "size" params <> get_text "unit" params }) out
consumer_granted_example =
    consumer_granted env params []
      (record { text = get_text "size" params <> get_text "unit" params }) true flag_asked refl refl

provider_device_set_count_covers_example :
    (c : ℕ) × (provider_device_set_count (pos 10) ≡ pos c) × (10 ≤ 4 * c) × (4 * c < 10 + 4)
provider_device_set_count_covers_example = provider_device_set_count_covers 10 (omega arith)

egress_rules-DeniesRestLast_example :
    DeniesRestLast (
      egress_rules "snitch" "smtp" "rhobs" "sso"
        (vpc_egress_rules ("10.0.0.0/16" ∷ []))
        egress_firewall_template)
    × DeniesRestLast (
        egress_rules "snitch" "smtp" "rhobs" "sso"
          (vpc_egress_rules ("10.0.0.0/16" ∷ []))
          egress_network_policy_template)
egress_rules-DeniesRestLast_example =
    egress_rules-DeniesRestLast "snitch" "smtp" "rhobs" "sso" ("10.0.0.0/16" ∷ [])

abbrev contacts : Dict String
contacts = ("notification-email-0", "a@example.com") ∷ ("notification-email-1", "") ∷ []

alerting_addresses-ends_example :
    (n : ℕ) × Given contacts n 0
    × (lookup (alerting_address_key n) contacts ≡ none)
    × (alerting_addresses contacts ≡ some (texts contacts n 0))
alerting_addresses-ends_example = alerting_addresses-ends contacts

abbrev values : ReceiverValues
values = record {
  pagerduty_secret_name = "ocs-pagerduty";
  sop_endpoint = "https://sop";
  dms_url = "https://snitch";
  addresses = "a@example.com" ∷ "b@example.com" ∷ [];
  smtp = record { host = "smtp"; port = "25"; username = "u"; password = "p" };
  smtp_secret_name = "ocs-smtp";
  alert_smtp_from = "noreply@example.com";
  html = "";
}

desired_alertmanager_config-Sends_example : Sends values (desired_alertmanager_config values)
desired_alertmanager_config-Sends_example = desired_alertmanager_config-Sends values

abbrev rbd : Object Kind.storage_class
rbd = record { metadata = new_meta "rbd" ""; body = "openshift-storage.rbd.csi.ceph.com" }

abbrev volume : Object Kind.persistent_volume
volume = record { metadata = new_meta "pv" ""; body = "rbd" }

uses_class_iff_example :
    (uses_class (ocs_storage_classes namespace (rbd ∷ [])) (volume ∷ []) ≡ true) ↔ (
      (pv : Object Kind.persistent_volume) × (c : Object Kind.storage_class) × Memᴰ pv (volume ∷ [])
      × Memᴰ c (rbd ∷ [])
      × (starts_with c.body namespace ≡ true)
      × (c.metadata.name ≡ pv.body))
uses_class_iff_example = uses_class_iff namespace (rbd ∷ []) (volume ∷ [])
