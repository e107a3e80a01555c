-- ===== src/Controllers/Effects/Resources.antt =====
-- What the methods that reconcile the resources write.
use ocs_osd_deployer.Base.{String, List}
use ocs_osd_deployer.Kube.Network.{EgressRule, NetworkPolicySpec}
use ocs_osd_deployer.Kube.Object.{Kind}
use ocs_osd_deployer.Kube.Env.{Env}
use ocs_osd_deployer.Controllers.State.{Slot, World}
use ocs_osd_deployer.Controllers.Actions.{M, CreateOrUpdate, IsCreateOrUpdate}
use ocs_osd_deployer.Controllers.Effects.{Footprint, Spares, KeepsSlot}
use ocs_osd_deployer.Controllers.Effects.Calls.{spares_rules, Spares-create_or_update}
use ocs_osd_deployer.Controllers.Effects.{IsCreated, IsUpdated}
use ocs_osd_deployer.Controllers.StorageCluster.{mutate_storage_cluster, reconcile_storage_cluster}
use ocs_osd_deployer.Controllers.Egress.{
  require_text, host_of, refresh_new_secret, read_vpc_rules, desired_egress_rules,
  mutate_egress_network_policy, mutate_egress_firewall, reconcile_egress_network_policy,
  reconcile_egress_firewall,
}
use ocs_osd_deployer.Controllers.Policies.{
  mutate_policy, reconcile_ingress_network_policy, reconcile_ceph_ingress_network_policy,
  reconcile_provider_api_server_network_policy, reconcile_prometheus_proxy_network_policy,
}
use ocs_osd_deployer.Controllers.ConfigMaps.{
  rook_data, reconcile_rook_ceph_operator_config, set_secret, set_config_map,
  mutate_onboarding_validation_secret, mutate_csi_kms, mutate_alert_relabel_config,
  mutate_kube_rbac, reconcile_onboarding_validation_secret,
  reconcile_csi_kms_connection_details_config_map, reconcile_alert_relabel_config_secret,
  reconcile_prometheus_kube_rbac_config_map,
}
use ocs_osd_deployer.Base.Dict.{Dict}

module _ (E : Env) (I : World E → Type 0) (allowed : Footprint E I) where
  Spares-mutate_storage_cluster : Spares E I (mutate_storage_cluster E)
  unfolding mutate_storage_cluster
  Spares-mutate_storage_cluster = search spares_rules depth 20

  pub Spares-require_text : (text problem : String) → Spares E I (require_text E text problem)
  unfolding require_text
  Spares-require_text text problem = search spares_rules

  Spares-host_of : (a b c : String) → Spares E I (host_of E a b c)
  unfolding host_of
  Spares-host_of a b c = search (spares_rules, Spares-require_text) depth 20

  pub Spares-refresh_new_secret :
      (slot : Slot Kind.secret) (problem : String)
      → KeepsSlot slot
      → Spares E I (refresh_new_secret E slot problem)
  unfolding refresh_new_secret
  Spares-refresh_new_secret slot problem foreign = search spares_rules depth 20

  Spares-read_vpc_rules : Spares E I (read_vpc_rules E)
  unfolding read_vpc_rules
  Spares-read_vpc_rules = search spares_rules depth 20

  Spares-desired_egress_rules : (t : List EgressRule) → Spares E I (desired_egress_rules E t)
  unfolding desired_egress_rules
  Spares-desired_egress_rules t =
      search
        (
          spares_rules, Spares-require_text, Spares-host_of, Spares-refresh_new_secret,
          Spares-read_vpc_rules,
        )
        depth 40

  pub Spares-mutate_egress_network_policy : Spares E I (mutate_egress_network_policy E)
  unfolding mutate_egress_network_policy
  Spares-mutate_egress_network_policy = search (spares_rules, Spares-desired_egress_rules) depth 40

  pub Spares-mutate_egress_firewall : Spares E I (mutate_egress_firewall E)
  unfolding mutate_egress_firewall
  Spares-mutate_egress_firewall = search (spares_rules, Spares-desired_egress_rules) depth 40

  pub Spares-mutate_policy :
      (slot : Slot Kind.network_policy) (t : NetworkPolicySpec)
      → KeepsSlot slot
      → Spares E I (mutate_policy E slot t)
  unfolding mutate_policy
  Spares-mutate_policy slot t foreign = search spares_rules depth 40

  pub Spares-rook_data : (t : String) (d : Dict String) → Spares E I (rook_data E t d)
  unfolding rook_data
  Spares-rook_data t d = search spares_rules depth 40

  pub Spares-reconcile_rook_ceph_operator_config :
      Spares E I (reconcile_rook_ceph_operator_config E)
  unfolding reconcile_rook_ceph_operator_config
  Spares-reconcile_rook_ceph_operator_config = search (spares_rules, Spares-rook_data) depth 40

  pub Spares-set_secret :
      (slot : Slot Kind.secret) (d : Dict String)
      → KeepsSlot slot
      → Spares E I (set_secret E slot d)
  unfolding set_secret
  Spares-set_secret slot d foreign = search spares_rules depth 40

  pub Spares-set_config_map :
      (slot : Slot Kind.config_map) (d : Dict String)
      → KeepsSlot slot
      → Spares E I (set_config_map E slot d)
  unfolding set_config_map
  Spares-set_config_map slot d foreign = search spares_rules depth 40

  pub Spares-mutate_onboarding_validation_secret :
      Spares E I (mutate_onboarding_validation_secret E)
  unfolding mutate_onboarding_validation_secret
  Spares-mutate_onboarding_validation_secret = search (spares_rules, Spares-set_secret) depth 40

  pub Spares-mutate_csi_kms : Spares E I (mutate_csi_kms E)
  unfolding mutate_csi_kms
  Spares-mutate_csi_kms = search (spares_rules, Spares-set_config_map) depth 40

  pub Spares-mutate_alert_relabel_config : Spares E I (mutate_alert_relabel_config E)
  unfolding mutate_alert_relabel_config
  Spares-mutate_alert_relabel_config = search (spares_rules, Spares-set_secret) depth 40

  pub Spares-mutate_kube_rbac : Spares E I (mutate_kube_rbac E)
  unfolding mutate_kube_rbac
  Spares-mutate_kube_rbac = search (spares_rules, Spares-set_config_map) depth 40

module _ (E : Env) (I : World E → Type 0) (allowed : Footprint E I)
    (create_or_update : CreateOrUpdate E) (law : IsCreateOrUpdate E create_or_update) where
  create-Spares :
      (k : Kind) (slot : Slot k) (mutate : M E (Unit {0}))
      → KeepsSlot slot
      → IsCreated k
      → IsUpdated k
      → Spares E I mutate
      → Spares E I (create_or_update k slot mutate)
  create-Spares = Spares-create_or_update E I allowed create_or_update law

  pub Spares-reconcile_storage_cluster : Spares E I (reconcile_storage_cluster E create_or_update)
  unfolding reconcile_storage_cluster
  Spares-reconcile_storage_cluster =
      search (spares_rules, create-Spares, Spares-mutate_storage_cluster) depth 20

  pub Spares-reconcile_egress_network_policy :
      Spares E I (reconcile_egress_network_policy E create_or_update)
  unfolding reconcile_egress_network_policy
  Spares-reconcile_egress_network_policy =
      search (spares_rules, create-Spares, Spares-mutate_egress_network_policy) depth 20

  pub Spares-reconcile_egress_firewall : Spares E I (reconcile_egress_firewall E create_or_update)
  unfolding reconcile_egress_firewall
  Spares-reconcile_egress_firewall =
      search (spares_rules, create-Spares, Spares-mutate_egress_firewall) depth 20

  pub Spares-reconcile_ingress_network_policy :
      Spares E I (reconcile_ingress_network_policy E create_or_update)
  unfolding reconcile_ingress_network_policy
  Spares-reconcile_ingress_network_policy =
      search (spares_rules, create-Spares, Spares-mutate_policy) depth 20

  pub Spares-reconcile_ceph_ingress_network_policy :
      Spares E I (reconcile_ceph_ingress_network_policy E create_or_update)
  unfolding reconcile_ceph_ingress_network_policy
  Spares-reconcile_ceph_ingress_network_policy =
      search (spares_rules, create-Spares, Spares-mutate_policy) depth 20

  pub Spares-reconcile_provider_api_server_network_policy :
      Spares E I (reconcile_provider_api_server_network_policy E create_or_update)
  unfolding reconcile_provider_api_server_network_policy
  Spares-reconcile_provider_api_server_network_policy =
      search (spares_rules, create-Spares, Spares-mutate_policy) depth 20

  pub Spares-reconcile_prometheus_proxy_network_policy :
      Spares E I (reconcile_prometheus_proxy_network_policy E create_or_update)
  unfolding reconcile_prometheus_proxy_network_policy
  Spares-reconcile_prometheus_proxy_network_policy =
      search (spares_rules, create-Spares, Spares-mutate_policy) depth 20

  pub Spares-reconcile_onboarding_validation_secret :
      Spares E I (reconcile_onboarding_validation_secret E create_or_update)
  unfolding reconcile_onboarding_validation_secret
  Spares-reconcile_onboarding_validation_secret =
      search (spares_rules, create-Spares, Spares-mutate_onboarding_validation_secret) depth 20

  pub Spares-reconcile_csi_kms_connection_details_config_map :
      Spares E I (reconcile_csi_kms_connection_details_config_map E create_or_update)
  unfolding reconcile_csi_kms_connection_details_config_map
  Spares-reconcile_csi_kms_connection_details_config_map =
      search (spares_rules, create-Spares, Spares-mutate_csi_kms) depth 20

  pub Spares-reconcile_alert_relabel_config_secret :
      Spares E I (reconcile_alert_relabel_config_secret E create_or_update)
  unfolding reconcile_alert_relabel_config_secret
  Spares-reconcile_alert_relabel_config_secret =
      search (spares_rules, create-Spares, Spares-mutate_alert_relabel_config) depth 20

  pub Spares-reconcile_prometheus_kube_rbac_config_map :
      Spares E I (reconcile_prometheus_kube_rbac_config_map E create_or_update)
  unfolding reconcile_prometheus_kube_rbac_config_map
  Spares-reconcile_prometheus_kube_rbac_config_map =
      search (spares_rules, create-Spares, Spares-mutate_kube_rbac) depth 20
