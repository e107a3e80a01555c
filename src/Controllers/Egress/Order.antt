-- ===== src/Controllers/Egress/Order.antt =====
-- The order of the egress rules.
use ocs_osd_deployer.Base.{String, ◌≡◌, refl, ap, List, [], ◌∷◌, ◌++◌, arith}
use ocs_osd_deployer.Base.Lists.{All}
use ocs_osd_deployer.Kube.Network.{EgressRule, allow, deny}
use ocs_osd_deployer.Templates.Egress.{
  allow_dns, allow_cidr, egress_network_policy_template, egress_firewall_template,
}
use ocs_osd_deployer.Controllers.Egress.{vpc_egress_rules, egress_rules}

abbrev Allows : EgressRule → Type 0
Allows rule = rule.rule_type ≡ allow

abbrev pub deny_all : EgressRule
deny_all = record { rule_type = deny; cidr_selector = "0.0.0.0/0"; dns_name = "" }

-- Only the last rule denies, and it denies everything.
abbrev pub DeniesRestLast : List EgressRule → Type 0
DeniesRestLast rules =
    (allowed : List EgressRule) × All Allows allowed × (rules ≡ allowed ++ (deny_all ∷ []))

vpc_egress_rules-Allows : (cidrs : List String) → All Allows (vpc_egress_rules cidrs)
unfolding vpc_egress_rules
vpc_egress_rules-Allows [] = tt
vpc_egress_rules-Allows (cidr ∷ cidrs) = ground (arith, vpc_egress_rules-Allows cidrs)

append-DeniesRestLast :
    (vpc rules : List EgressRule)
    → All Allows vpc
    → DeniesRestLast rules
    → DeniesRestLast (vpc ++ rules)
append-DeniesRestLast [] rules h d = d
append-DeniesRestLast (rule ∷ vpc) rules (h, hs) d =
    let (allowed, all, e) = append-DeniesRestLast vpc rules hs d in
    (rule ∷ allowed, (h, all), ap (λ r. rule ∷ r) e)

firewall-DeniesRestLast : DeniesRestLast egress_firewall_template
unfolding egress_firewall_template
firewall-DeniesRestLast =
    (allow_dns "events.pagerduty.com" ∷ allow_cidr "100.64.0.0/16" ∷ [], (refl, (refl, tt)), refl)

network_policy-DeniesRestLast : DeniesRestLast egress_network_policy_template
unfolding egress_network_policy_template
network_policy-DeniesRestLast =
    (allow_dns "events.pagerduty.com" ∷ allow_cidr "100.64.0.0/16" ∷ [], (refl, (refl, tt)), refl)

module _ (snitch smtp rhobs sso : String) where
  -- Whatever the networks of the VPC are, the rules for the firewall and those for the network
  -- policy allow all but the last one, which denies every address.
  pub egress_rules-DeniesRestLast :
      (cidrs : List String)
      → DeniesRestLast
          (egress_rules snitch smtp rhobs sso (vpc_egress_rules cidrs) egress_firewall_template)
        × DeniesRestLast (
            egress_rules snitch smtp rhobs sso
              (vpc_egress_rules cidrs)
              egress_network_policy_template)
  unfolding egress_rules
  egress_rules-DeniesRestLast cidrs =
      let hosts = allow_dns snitch ∷ allow_dns smtp ∷ allow_dns rhobs ∷ allow_dns sso ∷ [] in
      let vpc = vpc_egress_rules cidrs in
      let lift = λ (rules : List EgressRule) (d : DeniesRestLast rules).
        append-DeniesRestLast hosts (vpc ++ rules) (refl, (refl, (refl, (refl, tt))))
          (append-DeniesRestLast vpc rules (vpc_egress_rules-Allows cidrs) d) in
      (lift _ firewall-DeniesRestLast, lift _ network_policy-DeniesRestLast)
