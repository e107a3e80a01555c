-- ===== src/Kube/Object.antt =====
-- Objects: the metadata, and the part that depends on the kind.
use ocs_osd_deployer.Base.{String, Bool, Option, none, List, []}
use ocs_osd_deployer.Base.Dict.{Dict, insert}
use ocs_osd_deployer.Base.Int.{ℤ}
use ocs_osd_deployer.Api.{ManagedOcs}
use ocs_osd_deployer.Kube.Storage.{StorageClusterSpec}
use ocs_osd_deployer.Kube.Network.{EgressRule, NetworkPolicySpec, ServiceSpec}
use ocs_osd_deployer.Kube.Monitoring.{
  PrometheusSpec, AlertmanagerSpec, AlertmanagerConfigSpec, RuleGroup, ServiceMonitorSpec,
}
use ocs_osd_deployer.Kube.Workload.{DeploymentSpec, Subscription}

pub data Kind : Type 0 where
  managed_ocs storage_cluster prometheus alertmanager alertmanager_config prometheus_rule : Kind
  service_monitor pod_monitor secret config_map service network_policy : Kind
  egress_network_policy egress_firewall stateful_set ocs_initialization : Kind
  cluster_service_version subscription cluster_version storage_system : Kind
  storage_class persistent_volume storage_consumer : Kind

pub record OwnerReference : Type 0 where
  pub api_version : String
  pub kind : String
  pub name : String
  pub uid : String

pub record ObjectMeta : Type 0 where
  pub name : String
  pub namespace : String
  pub uid : String
  pub labels : Dict String
  pub annotations : Dict String
  pub finalizers : List String
  pub deletion_timestamp : Option String
  pub owner_references : List OwnerReference

-- The name, namespace and owner-free rest of an object that was not read yet.
abbrev pub new_meta : String → String → ObjectMeta
new_meta name namespace = record {
  name = name;
  namespace = namespace;
  uid = "";
  labels = [];
  annotations = [];
  finalizers = [];
  deletion_timestamp = none;
  owner_references = [];
}

pub record StorageCluster : Type 0 where
  pub spec : StorageClusterSpec
  pub phase : String

-- What an object holds besides its metadata, by kind.
abbrev pub Body : Kind → Type 0
Body managed_ocs = ManagedOcs
Body storage_cluster = StorageCluster
Body prometheus = PrometheusSpec
Body alertmanager = AlertmanagerSpec
Body alertmanager_config = AlertmanagerConfigSpec
Body prometheus_rule = List RuleGroup
Body service_monitor = ServiceMonitorSpec
Body pod_monitor = Unit
Body secret = Dict String
Body config_map = Dict String
Body service = ServiceSpec
Body network_policy = NetworkPolicySpec
Body egress_network_policy = List EgressRule
Body egress_firewall = List EgressRule
Body stateful_set = ℤ
Body ocs_initialization = Bool
Body cluster_service_version = List DeploymentSpec
Body subscription = Subscription
Body cluster_version = String
Body storage_system = Unit
Body storage_class = String
Body persistent_volume = String
Body storage_consumer = Unit

pub record Object (k : Kind) : Type 0 where
  pub metadata : ObjectMeta
  pub body : Body k

-- AddLabel of utils/utils.go.
unfoldable pub add_label : {k : Kind} → Object k → String → String → Object k
add_label obj key value = record obj {
  metadata = record obj.metadata { labels = insert key value obj.metadata.labels };
}

-- AddAnnotation of utils/utils.go.
unfoldable pub add_annotation : {k : Kind} → Object k → String → String → Object k
add_annotation obj key value = record obj {
  metadata = record obj.metadata { annotations = insert key value obj.metadata.annotations };
}
