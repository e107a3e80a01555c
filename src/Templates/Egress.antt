-- ===== src/Templates/Egress.antt =====
-- templates/egressnetworkpolicy.go and templates/egressfirewall.go.
use ocs_osd_deployer.Base.{String, List, [], ◌∷◌}
use ocs_osd_deployer.Kube.Network.{EgressRule, allow, deny}

abbrev pub allow_dns : String → EgressRule
allow_dns host = record { rule_type = allow; cidr_selector = ""; dns_name = host }

abbrev pub allow_cidr : String → EgressRule
allow_cidr cidr = record { rule_type = allow; cidr_selector = cidr; dns_name = "" }

unfoldable pub egress_network_policy_template : List EgressRule
egress_network_policy_template =
    allow_dns "events.pagerduty.com"
    ∷ allow_cidr "100.64.0.0/16"
    ∷ (record { rule_type = deny; cidr_selector = "0.0.0.0/0"; dns_name = "" })
    ∷ []

unfoldable pub egress_firewall_template : List EgressRule
egress_firewall_template =
    allow_dns "events.pagerduty.com"
    ∷ allow_cidr "100.64.0.0/16"
    ∷ (record { rule_type = deny; cidr_selector = "0.0.0.0/0"; dns_name = "" })
    ∷ []
