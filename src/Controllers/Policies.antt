-- ===== src/Controllers/Policies.antt =====
-- The four methods that reconcile ingress network policies from templates.
use ocs_osd_deployer.Base.{str_eq}
use ocs_osd_deployer.Kube.Exec.{wrap, when, ◌>>=◌, ◌>>◌}
use ocs_osd_deployer.Kube.Network.{NetworkPolicySpec}
use ocs_osd_deployer.Kube.Object.{Kind}
use ocs_osd_deployer.Kube.Env.{Env}
use ocs_osd_deployer.Templates.NetworkPolicies.{
  network_policy_template, ceph_network_policy_template,
  provider_api_server_network_policy_template, prometheus_proxy_network_policy_template,
}
use ocs_osd_deployer.Controllers.State.{Slot, provider_deployment_type}
use ocs_osd_deployer.Controllers.Actions.{M, asks, assign, own, CreateOrUpdate}
use ocs_osd_deployer.Controllers.Slots

module _ (E : Env) where
  -- The function that each of the four methods passes to `CreateOrUpdate`.
  unfoldable pub mutate_policy : Slot Kind.network_policy → NetworkPolicySpec → M E (Unit {0})
  mutate_policy slot template = do
    own E slot
    obj ← asks E slot.read
    assign E (slot.write (record obj { body = template }))

  module _ (create_or_update : CreateOrUpdate E) where
    unfoldable pub reconcile_ingress_network_policy : M E (Unit {0})
    reconcile_ingress_network_policy = wrap "Failed to update ingress NetworkPolicy: " (
        create_or_update Kind.network_policy Slots.ingress_network_policy
          (mutate_policy Slots.ingress_network_policy network_policy_template))

    unfoldable pub reconcile_ceph_ingress_network_policy : M E (Unit {0})
    reconcile_ceph_ingress_network_policy = wrap "Failed to update ceph ingress NetworkPolicy: " (
        create_or_update Kind.network_policy Slots.ceph_ingress_network_policy
          (mutate_policy Slots.ceph_ingress_network_policy ceph_network_policy_template))

    unfoldable pub reconcile_provider_api_server_network_policy : M E (Unit {0})
    reconcile_provider_api_server_network_policy = do
      deployment_type ← asks E (λ r. r.config.deployment_type)
      when (str_eq deployment_type provider_deployment_type) (
          wrap "Failed to update provider api server NetworkPolicy: " (
            create_or_update Kind.network_policy Slots.provider_api_server_network_policy (
              mutate_policy Slots.provider_api_server_network_policy
                provider_api_server_network_policy_template)))

    unfoldable pub reconcile_prometheus_proxy_network_policy : M E (Unit {0})
    reconcile_prometheus_proxy_network_policy =
        wrap "Failed to update prometheus proxy NetworkPolicy: " (
          create_or_update Kind.network_policy Slots.prometheus_proxy_network_policy (
            mutate_policy Slots.prometheus_proxy_network_policy
              prometheus_proxy_network_policy_template))
