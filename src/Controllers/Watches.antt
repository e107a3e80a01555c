-- ===== src/Controllers/Watches.antt =====
-- The requests that `SetupWithManager` asks for: which runs an event on an object starts.
pub mod Covered
use ocs_osd_deployer.Base.{String, Bool, false, true, List, [], ◌∷◌, ◌++◌, if◌then◌else◌}
use ocs_osd_deployer.Kube.Object.{Kind, Object, ObjectMeta}
use ocs_osd_deployer.Controllers.State.{
  Config, egress_firewall_crd, egress_network_policy_crd, managed_ocs_name,
}
use ocs_osd_deployer.Controllers.Egress.{is_available}
use ocs_osd_deployer.Controllers.Predicates.{
  secret_predicate, config_map_predicate, mon_resources_predicate, prometheus_rules_predicate,
  mon_stateful_set_predicate, csv_predicate, sub_predicate,
}

pub record NamespacedName : Type 0 where
  pub name : String
  pub namespace : String

-- `Owns`: an event on an object of these kinds is one on its controlling owner.
unfoldable pub owned_kinds : Config → List Kind
owned_kinds r =
    (Kind.storage_cluster ∷ Kind.prometheus ∷ Kind.alertmanager ∷ Kind.alertmanager_config
      ∷ Kind.prometheus_rule ∷ Kind.service_monitor ∷ Kind.network_policy ∷ Kind.secret
      ∷ Kind.service ∷ Kind.config_map ∷ [])
    ++ (if is_available egress_firewall_crd r.available_crds then Kind.egress_firewall ∷ [] else [])
    ++ (if is_available egress_network_policy_crd r.available_crds
        then Kind.egress_network_policy ∷ []
        else [])

unfoldable pub enqueue_managed_ocs_request : ObjectMeta → List NamespacedName
enqueue_managed_ocs_request client =
    record { name = managed_ocs_name; namespace = client.namespace } ∷ []

-- `Watches`: the objects of the other sources that pass the predicate of their kind.
unfoldable pub is_watched : Config → (k : Kind) → Object k → Bool
is_watched r Kind.secret obj = secret_predicate r obj.metadata
is_watched r Kind.config_map obj = config_map_predicate r obj.metadata
is_watched r Kind.pod_monitor obj = mon_resources_predicate obj.metadata
is_watched r Kind.service_monitor obj = mon_resources_predicate obj.metadata
is_watched r Kind.prometheus_rule obj = prometheus_rules_predicate obj.metadata
is_watched r Kind.stateful_set obj = mon_stateful_set_predicate obj.metadata
is_watched r Kind.ocs_initialization obj = true
is_watched r Kind.cluster_service_version obj = csv_predicate obj.metadata
is_watched r Kind.subscription obj = sub_predicate obj
is_watched r k obj = false

-- The requests that the watched sources give for an event on an object.
unfoldable pub watched_requests : Config → (k : Kind) → Object k → List NamespacedName
unfolding is_watched enqueue_managed_ocs_request
watched_requests r k obj =
    if is_watched r k obj then enqueue_managed_ocs_request obj.metadata else []
