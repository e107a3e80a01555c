-- ===== src/Tests/Traffic.antt =====
-- The traffic that the egress rules let pass.
use ocs_osd_deployer.Base.{
  String, ◌≡◌, refl, true, false, Bool, List, [], ◌∷◌, str_eq, if◌then◌else◌,
}
use ocs_osd_deployer.Kube.Network.{EgressRule}
use ocs_osd_deployer.Controllers.Egress.{vpc_egress_rules, egress_rules}
use ocs_osd_deployer.Templates.Egress.{egress_network_policy_template, egress_firewall_template}
use ocs_osd_deployer.Controllers.Egress.Traffic.{passes, is_meant, egress_rules-is_meant}

-- A network where texts stand for themselves, and one text for all addresses.
abbrev in_network : String → String → Bool
in_network network a = if str_eq network "0.0.0.0/0" then true else str_eq network a

abbrev has_name : String → String → Bool
has_name host a = str_eq host a

abbrev rules : List EgressRule → List EgressRule
rules = egress_rules "snitch" "smtp" "rhobs" "sso" (vpc_egress_rules ("10.0.0.0/16" ∷ "" ∷ []))

egress_rules-is_meant_example :
    let meant =
      is_meant in_network has_name
        ("snitch" ∷ "smtp" ∷ "rhobs" ∷ "sso" ∷ "events.pagerduty.com" ∷ [])
        ("100.64.0.0/16" ∷ "10.0.0.0/16" ∷ "" ∷ [])
        "10.0.0.0/16" in
    (passes in_network has_name (rules egress_firewall_template) "10.0.0.0/16" ≡ meant)
    × (passes in_network has_name (rules egress_network_policy_template) "10.0.0.0/16" ≡ meant)
egress_rules-is_meant_example =
    egress_rules-is_meant in_network has_name (λ a. refl) "snitch" "smtp" "rhobs" "sso"
      ("10.0.0.0/16" ∷ "" ∷ []) "10.0.0.0/16"

-- Another network is not reached.
other_denied : passes in_network has_name (rules egress_firewall_template) "10.9.0.0/16" ≡ false
unfolding passes egress_rules vpc_egress_rules egress_firewall_template
other_denied = refl
