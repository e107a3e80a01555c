-- ===== src/Controllers/Egress/Traffic.antt =====
-- What the egress rules mean for traffic. A destination and what a rule's selectors match are those
-- of the cluster's network, and parameters; it applies the first rule that matches.
use ocs_osd_deployer.Base.{
  String, ◌≡◌, refl, Bool, true, false, not, ◌&&◌, ◌||◌, List, [], ◌∷◌, ◌++◌, str_eq, arith,
  if◌then◌else◌,
}
use ocs_osd_deployer.Base.Lists.{any}
use ocs_osd_deployer.Kube.Network.{EgressRuleType, EgressRule, allow, deny}
use ocs_osd_deployer.Templates.Egress.{
  allow_dns, egress_network_policy_template, egress_firewall_template,
}
use ocs_osd_deployer.Controllers.Egress.{vpc_egress_rules, egress_rules}

module _ {Address : Type 0} (in_network : String → Address → Bool)
    (has_name : String → Address → Bool) where
  -- A rule selects by network if it names one, else by name.
  abbrev selects : EgressRule → Address → Bool
  selects rule a =
      if str_eq rule.cidr_selector ""
      then has_name rule.dns_name a
      else in_network rule.cidr_selector a

  abbrev is_allow : EgressRuleType → Bool
  is_allow allow = true
  is_allow deny = false

  -- The first rule that selects the address decides; without one, traffic passes.
  unfoldable pub passes : List EgressRule → Address → Bool
  passes [] a = true
  passes (rule ∷ rules) a =
      let rest = passes rules a in if selects rule a then is_allow rule.rule_type else rest

  -- What is meant: the named hosts, and the networks that are not empty.
  unfoldable pub is_meant : (hosts networks : List String) → Address → Bool
  is_meant hosts networks a =
      any (λ host. has_name host a) hosts
      || any (λ network. not (str_eq network "") && in_network network a) networks

  abbrev named : List String → List EgressRule
  named [] = []
  named (host ∷ hosts) = allow_dns host ∷ named hosts

  passes-named :
      (hosts : List String) (rules : List EgressRule) (a : Address)
      → passes (named hosts ++ rules) a ≡ any (λ host. has_name host a) hosts || passes rules a
  unfolding passes
  passes-named [] rules a = refl
  passes-named (host ∷ hosts) rules a = ground (arith, passes-named hosts rules a)

  passes-vpc :
      (cidrs : List String) (rules : List EgressRule) (a : Address)
      → passes (vpc_egress_rules cidrs ++ rules) a
        ≡ any (λ network. not (str_eq network "") && in_network network a) cidrs || passes rules a
  unfolding passes vpc_egress_rules
  passes-vpc [] rules a = refl
  passes-vpc (cidr ∷ cidrs) rules a = ground (arith, passes-vpc cidrs rules a)

  module _ (everywhere : (a : Address) → in_network "0.0.0.0/0" a ≡ true) where
    passes-template :
        (a : Address)
        → (passes egress_firewall_template a
            ≡ has_name "events.pagerduty.com" a || in_network "100.64.0.0/16" a)
          × (passes egress_network_policy_template a
              ≡ has_name "events.pagerduty.com" a || in_network "100.64.0.0/16" a)
    unfolding passes egress_firewall_template egress_network_policy_template
    passes-template a = ground (arith, everywhere a)

    -- For any networks of the VPC, and for the firewall as for the network policy, the rules let
    -- just that traffic to an IPv4 address pass that is meant to: to the four hosts of the
    -- configuration and the one of the template, to the template's network, and to the networks
    -- of the VPC.
    pub egress_rules-is_meant :
        (snitch smtp rhobs sso : String) (cidrs : List String) (a : Address)
        → let hosts = snitch ∷ smtp ∷ rhobs ∷ sso ∷ "events.pagerduty.com" ∷ [] in
          let meant = is_meant hosts ("100.64.0.0/16" ∷ cidrs) a in
          let rules = egress_rules snitch smtp rhobs sso (vpc_egress_rules cidrs) in
          (passes (rules egress_firewall_template) a ≡ meant)
          × (passes (rules egress_network_policy_template) a ≡ meant)
    unfolding egress_rules is_meant
    egress_rules-is_meant snitch smtp rhobs sso cidrs a =
        let hosts = snitch ∷ smtp ∷ rhobs ∷ sso ∷ [] in
        (
          ground (
            arith,
            passes-named hosts (vpc_egress_rules cidrs ++ egress_firewall_template) a,
            passes-vpc cidrs egress_firewall_template a,
            passes-template a,
          ),
          ground (
            arith,
            passes-named hosts (vpc_egress_rules cidrs ++ egress_network_policy_template) a,
            passes-vpc cidrs egress_network_policy_template a,
            passes-template a,
          ),
        )
