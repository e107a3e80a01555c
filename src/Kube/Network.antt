-- ===== src/Kube/Network.antt =====
-- Network policies, and the rules of an egress network policy and of an egress firewall, which
-- have the same fields.
use ocs_osd_deployer.Base.{ℕ, String, Option, List}
use ocs_osd_deployer.Base.Dict.{Dict}
use ocs_osd_deployer.Kube.Storage.{LabelSelector}

pub data EgressRuleType : Type 0 where
  allow deny : EgressRuleType

pub record EgressRule : Type 0 where
  pub rule_type : EgressRuleType
  pub cidr_selector : String
  pub dns_name : String

pub record NetworkPolicyPeer : Type 0 where
  pub pod_selector : Option LabelSelector
  pub namespace_selector : Option LabelSelector

pub record NetworkPolicyPort : Type 0 where
  pub port : ℕ
  pub protocol : String

pub record IngressRule : Type 0 where
  pub ports : List NetworkPolicyPort
  pub peers : List NetworkPolicyPeer

pub record NetworkPolicySpec : Type 0 where
  pub pod_selector : LabelSelector
  pub ingress : List IngressRule
  pub policy_types : List String

pub record ServicePort : Type 0 where
  pub name : String
  pub protocol : String
  pub port : ℕ
  pub target_port : String

pub record ServiceSpec : Type 0 where
  pub ports : List ServicePort
  pub selector : Dict String
