-- ===== src/Controllers/Egress.antt =====
-- `reconcileEgressNetworkPolicy` and `reconcileEgressFirewall`. The two methods differ in the kind
-- of object, the template and the resource definition that must be there.
pub mod Order
pub mod Traffic
use ocs_osd_deployer.Base.{
  String, Bool, false, none, some, List, [], ◌∷◌, ◌++◌, str_eq, if◌then◌else◌,
}
use ocs_osd_deployer.Base.Dict.{Dict, lookup, get_text}
use ocs_osd_deployer.Base.Text.{split}
use ocs_osd_deployer.Kube.Exec.{message, pure, raise, wrap, when, ◌>>=◌, ◌>>◌}
use ocs_osd_deployer.Kube.Network.{EgressRule}
use ocs_osd_deployer.Kube.Object.{Kind}
use ocs_osd_deployer.Kube.Env.{Env}
use ocs_osd_deployer.Templates.Egress.{
  allow_dns, allow_cidr, egress_network_policy_template, egress_firewall_template,
}
use ocs_osd_deployer.Utils.Imds.{imds_config_map_name, cidr_key}
use ocs_osd_deployer.Controllers.State.{
  Reconciler, Slot, converged_deployment_type, egress_firewall_crd, egress_network_policy_crd,
}
use ocs_osd_deployer.Controllers.Actions.{
  M, asks, assign, get, refresh, own, or_raise, CreateOrUpdate,
}
use ocs_osd_deployer.Controllers.Slots
use ocs_osd_deployer.Controllers.Init.{new_object}

-- The rules for the pieces of the CIDR list; empty pieces are skipped.
unfoldable pub vpc_egress_rules : List String → List EgressRule
vpc_egress_rules [] = []
vpc_egress_rules (cidr ∷ cidrs) =
    let rest = vpc_egress_rules cidrs in if str_eq cidr "" then rest else allow_cidr cidr ∷ rest

-- The four hosts, then the networks of the VPC, then the template, which ends with the denial of
-- all the rest.
unfoldable pub egress_rules :
    (snitch smtp rhobs sso : String) → List EgressRule → List EgressRule → List EgressRule
egress_rules snitch smtp rhobs sso vpc template =
    allow_dns snitch ∷ allow_dns smtp ∷ allow_dns rhobs ∷ allow_dns sso ∷ (vpc ++ template)

-- `r.AvailableCRDs[name]`
abbrev pub is_available : String → Dict Bool → Bool
is_available name crds = elim (lookup name crds) [ none ↦ false | some b ↦ b ]

module _ (E : Env) where
  -- A text that must not be empty.
  unfoldable pub require_text : String → String → M E String
  require_text text problem = if str_eq text "" then raise (message problem) else pure text

  -- The host of a URL, which must be there.
  unfoldable pub host_of : String → String → String → M E String
  unfolding require_text
  host_of url parse_problem host_problem = do
    host ← or_raise (E.hostname url) (message parse_problem)
    require_text host host_problem

  -- A secret is read only if it was not read before in this run.
  unfoldable pub refresh_new_secret : Slot Kind.secret → String → M E (Unit {0})
  refresh_new_secret slot problem = do
    obj ← asks E slot.read
    when (str_eq obj.metadata.uid "") (wrap problem (refresh E slot))

  unfoldable pub read_vpc_rules : M E (List EgressRule)
  unfolding vpc_egress_rules split lookup
  read_vpc_rules = do
    namespace ← asks E (λ r. r.namespace)
    map ←
        wrap "Unable to get AWS ConfigMap: "
          (get E (new_object {k = Kind.config_map} imds_config_map_name namespace []))
    cidrs ←
        or_raise (lookup cidr_key map.body)
          (message "Unable to determine machine CIDR from AWS ConfigMap")
    pure (vpc_egress_rules (split b';' cidrs))

  -- What both methods compute from the cluster and the configuration.
  unfoldable pub desired_egress_rules : List EgressRule → M E (List EgressRule)
  unfolding refresh_new_secret host_of read_vpc_rules egress_rules get_text
  desired_egress_rules template = do
    config ← asks E (λ r. r.config)
    vpc ←
        if str_eq config.deployment_type converged_deployment_type then pure [] else read_vpc_rules
    refresh_new_secret Slots.dead_mans_snitch_secret "Unable to get DMS secret: "
    dms ← asks E (λ r. r.dead_mans_snitch_secret.body)
    snitch_url ←
        require_text (get_text "SNITCH_URL" dms) "DMS secret does not contain a SNITCH_URL entry"
    snitch ←
        host_of snitch_url "Unable to parse DMS url" "DMS snitch url does not have a valid hostname"
    refresh_new_secret Slots.smtp_secret "Unable to get SMTP secret: "
    smtp_data ← asks E (λ r. r.smtp_secret.body)
    smtp ← require_text (get_text "host" smtp_data) "smtp secret does not contain a host entry"
    rhobs ←
        host_of config.rhobs_endpoint "Unable to parse RHOBS url"
          "RHOBS url does not have a valid hostname"
    sso ←
        host_of config.rhsso_token_endpoint "Unable to parse RHSSOTokenEndpoint url"
          "RHSSOTokenEndpoint url does not have a valid hostname"
    pure (egress_rules snitch smtp rhobs sso vpc template)

  abbrev pub with_network_policy_rules : List EgressRule → Reconciler → Reconciler
  with_network_policy_rules rules r = record r {
    egress_network_policy = record r.egress_network_policy { body = rules };
  }

  abbrev pub with_firewall_rules : List EgressRule → Reconciler → Reconciler
  with_firewall_rules rules r = record r {
    egress_firewall = record r.egress_firewall { body = rules };
  }

  unfoldable pub mutate_egress_network_policy : M E (Unit {0})
  mutate_egress_network_policy = do
    own E Slots.egress_network_policy
    rules ← desired_egress_rules egress_network_policy_template
    assign E (with_network_policy_rules rules)

  unfoldable pub mutate_egress_firewall : M E (Unit {0})
  mutate_egress_firewall = do
    own E Slots.egress_firewall
    rules ← desired_egress_rules egress_firewall_template
    assign E (with_firewall_rules rules)

  module _ (create_or_update : CreateOrUpdate E) where
    unfoldable pub reconcile_egress_network_policy : M E (Unit {0})
    reconcile_egress_network_policy = do
      crds ← asks E (λ r. r.config.available_crds)
      when (is_available egress_network_policy_crd crds) (
          wrap "Failed to update egressNetworkPolicy: " (
            create_or_update Kind.egress_network_policy Slots.egress_network_policy
              mutate_egress_network_policy))

    unfoldable pub reconcile_egress_firewall : M E (Unit {0})
    reconcile_egress_firewall = do
      crds ← asks E (λ r. r.config.available_crds)
      when (is_available egress_firewall_crd crds) (
          wrap "Failed to update egressFirewall: "
            (create_or_update Kind.egress_firewall Slots.egress_firewall mutate_egress_firewall))
