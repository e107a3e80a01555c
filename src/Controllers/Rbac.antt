-- ===== src/Controllers/Rbac.antt =====
-- The permissions that the markers above SetupWithManager ask for, and those of the role for leader
-- election, which is bound to the same account (config/rbac/leader_election_role.yaml).
pub mod Granted
use ocs_osd_deployer.Base.{String, ◌<>◌, Bool, ◌&&◌, List, [], ◌∷◌, ◌++◌, str_eq}
use ocs_osd_deployer.Base.Lists.{any}
use ocs_osd_deployer.Kube.Object.{Kind}
use ocs_osd_deployer.Utils.Slices.{contains}
use ocs_osd_deployer.Controllers.State.{Write, created, updated, status_updated, deleted}

pub record Rule : Type 0 where
  pub group : String
  pub resources : List String
  pub verbs : List String

-- What the API server is asked: a verb on a resource of a group.
pub record Request : Type 0 where
  pub group : String
  pub resource : String
  pub verb : String

abbrev rule : String → List String → List String → Rule
rule group resources verbs = record { group = group; resources = resources; verbs = verbs }

abbrev all_verbs : List String
all_verbs = "get" ∷ "list" ∷ "watch" ∷ "create" ∷ "update" ∷ "patch" ∷ "delete" ∷ []

unfoldable pub manager_rules : List Rule
manager_rules =
    rule "ocs.openshift.io" ("managedocs" ∷ "managedocs/finalizers" ∷ []) all_verbs
    ∷ rule "ocs.openshift.io" ("managedocs/status" ∷ []) ("get" ∷ "update" ∷ "patch" ∷ [])
    ∷ rule "ocs.openshift.io" ("storageclusters" ∷ []) all_verbs
    ∷ rule "ocs.openshift.io" ("ocsinitializations" ∷ [])
        ("get" ∷ "list" ∷ "watch" ∷ "update" ∷ "patch" ∷ [])
    ∷ rule "ocs.openshift.io" ("storageconsumers" ∷ []) ("get" ∷ "list" ∷ "watch" ∷ [])
    ∷ rule "monitoring.coreos.com" ("alertmanagers" ∷ "prometheuses" ∷ "alertmanagerconfigs" ∷ [])
        all_verbs
    ∷ rule "monitoring.coreos.com" ("prometheusrules" ∷ [])
        ("get" ∷ "list" ∷ "watch" ∷ "create" ∷ "update" ∷ "patch" ∷ [])
    ∷ rule "monitoring.coreos.com" ("podmonitors" ∷ [])
        ("get" ∷ "list" ∷ "watch" ∷ "update" ∷ "patch" ∷ [])
    ∷ rule "monitoring.coreos.com" ("servicemonitors" ∷ [])
        ("get" ∷ "list" ∷ "watch" ∷ "update" ∷ "patch" ∷ "create" ∷ "delete" ∷ [])
    ∷ rule "" ("secrets" ∷ []) ("create" ∷ "get" ∷ "list" ∷ "watch" ∷ "update" ∷ [])
    ∷ rule "operators.coreos.com" ("clusterserviceversions" ∷ [])
        ("get" ∷ "list" ∷ "watch" ∷ "delete" ∷ "update" ∷ "patch" ∷ [])
    ∷ rule "operators.coreos.com" ("subscriptions" ∷ []) ("get" ∷ "watch" ∷ "list" ∷ "update" ∷ [])
    ∷ rule "apps" ("statefulsets" ∷ []) ("get" ∷ "list" ∷ "watch" ∷ [])
    ∷ rule "" ("persistentvolumes" ∷ "secrets" ∷ []) ("get" ∷ "list" ∷ "watch" ∷ [])
    ∷ rule "" ("services" ∷ []) ("get" ∷ "list" ∷ "watch" ∷ "create" ∷ "update" ∷ [])
    ∷ rule "storage.k8s.io" ("storageclass" ∷ []) ("get" ∷ "list" ∷ "watch" ∷ [])
    ∷ rule "networking.k8s.io" ("networkpolicies" ∷ [])
        ("create" ∷ "get" ∷ "list" ∷ "watch" ∷ "update" ∷ [])
    ∷ rule "network.openshift.io" ("egressnetworkpolicies" ∷ [])
        ("create" ∷ "get" ∷ "list" ∷ "watch" ∷ "update" ∷ [])
    ∷ rule "k8s.ovn.org" ("egressfirewalls" ∷ [])
        ("create" ∷ "get" ∷ "list" ∷ "watch" ∷ "update" ∷ [])
    ∷ rule "coordination.k8s.io" ("leases" ∷ [])
        ("create" ∷ "get" ∷ "list" ∷ "watch" ∷ "update" ∷ [])
    ∷ rule "odf.openshift.io" ("storagesystems" ∷ []) ("list" ∷ "watch" ∷ "delete" ∷ [])
    ∷ rule "config.openshift.io" ("clusterversions" ∷ []) ("get" ∷ "watch" ∷ "list" ∷ [])
    ∷ rule "apiextensions.k8s.io" ("customresourcedefinitions" ∷ []) ("get" ∷ "watch" ∷ "list" ∷ [])
    ∷ []

unfoldable pub leader_election_rules : List Rule
leader_election_rules =
    rule "" ("configmaps" ∷ []) all_verbs
    ∷ rule "" ("configmaps/status" ∷ []) ("get" ∷ "update" ∷ "patch" ∷ [])
    ∷ rule "" ("events" ∷ []) ("create" ∷ "patch" ∷ [])
    ∷ []

-- The group and the plural name of a kind, as shim/crds and the client of Kubernetes have them.
abbrev pub group : Kind → String
group Kind.managed_ocs = "ocs.openshift.io"
group Kind.storage_cluster = "ocs.openshift.io"
group Kind.ocs_initialization = "ocs.openshift.io"
group Kind.storage_consumer = "ocs.openshift.io"
group Kind.prometheus = "monitoring.coreos.com"
group Kind.alertmanager = "monitoring.coreos.com"
group Kind.alertmanager_config = "monitoring.coreos.com"
group Kind.prometheus_rule = "monitoring.coreos.com"
group Kind.service_monitor = "monitoring.coreos.com"
group Kind.pod_monitor = "monitoring.coreos.com"
group Kind.secret = ""
group Kind.config_map = ""
group Kind.service = ""
group Kind.persistent_volume = ""
group Kind.network_policy = "networking.k8s.io"
group Kind.egress_network_policy = "network.openshift.io"
group Kind.egress_firewall = "k8s.ovn.org"
group Kind.stateful_set = "apps"
group Kind.cluster_service_version = "operators.coreos.com"
group Kind.subscription = "operators.coreos.com"
group Kind.cluster_version = "config.openshift.io"
group Kind.storage_system = "odf.openshift.io"
group Kind.storage_class = "storage.k8s.io"

abbrev pub plural : Kind → String
plural Kind.managed_ocs = "managedocs"
plural Kind.storage_cluster = "storageclusters"
plural Kind.ocs_initialization = "ocsinitializations"
plural Kind.storage_consumer = "storageconsumers"
plural Kind.prometheus = "prometheuses"
plural Kind.alertmanager = "alertmanagers"
plural Kind.alertmanager_config = "alertmanagerconfigs"
plural Kind.prometheus_rule = "prometheusrules"
plural Kind.service_monitor = "servicemonitors"
plural Kind.pod_monitor = "podmonitors"
plural Kind.secret = "secrets"
plural Kind.config_map = "configmaps"
plural Kind.service = "services"
plural Kind.persistent_volume = "persistentvolumes"
plural Kind.network_policy = "networkpolicies"
plural Kind.egress_network_policy = "egressnetworkpolicies"
plural Kind.egress_firewall = "egressfirewalls"
plural Kind.stateful_set = "statefulsets"
plural Kind.cluster_service_version = "clusterserviceversions"
plural Kind.subscription = "subscriptions"
plural Kind.cluster_version = "clusterversions"
plural Kind.storage_system = "storagesystems"
plural Kind.storage_class = "storageclasses"

abbrev pub request : Write → Request
request (created k name) = record { group = group k; resource = plural k; verb = "create" }
request (updated k name) = record { group = group k; resource = plural k; verb = "update" }
request (status_updated k name) = record {
  group = group k;
  resource = plural k <> "/status";
  verb = "update";
}
request (deleted k name) = record { group = group k; resource = plural k; verb = "delete" }

unfoldable pub grants : Request → Rule → Bool
unfolding contains
grants request rule =
    str_eq rule.group request.group
    && contains rule.resources request.resource
    && contains rule.verbs request.verb

-- Some rule of the manager's account grants the write.
unfoldable pub is_granted : Write → Bool
unfolding grants manager_rules leader_election_rules
is_granted write = any (grants (request write)) (manager_rules ++ leader_election_rules)
