-- ===== src/Templates/NetworkPolicies.antt =====
-- templates/networkpolicy.go, cephnetworkpolicy.go, providerapiservernetworkpolicy.go and
-- prometheusproxynetworkpolicy.go.
use ocs_osd_deployer.Base.{ℕ, String, none, some, List, [], ◌∷◌}
use ocs_osd_deployer.Kube.Storage.{op_in, LabelSelector}
use ocs_osd_deployer.Kube.Network.{IngressRule, NetworkPolicySpec}

abbrev pub kube_rbac_proxy_port_number : ℕ
kube_rbac_proxy_port_number = 9339

abbrev every_pod : LabelSelector
every_pod = record { match_labels = []; match_expressions = [] }

abbrev pods_with : String → List String → LabelSelector
pods_with key values = record {
  match_labels = [];
  match_expressions = (record { key = key; operator = op_in; values = values }) ∷ [];
}

abbrev tcp_port : ℕ → IngressRule
tcp_port port = record { ports = (record { port = port; protocol = "TCP" }) ∷ []; peers = [] }

unfoldable pub network_policy_template : NetworkPolicySpec
network_policy_template = record {
  pod_selector = every_pod;
  ingress =
      (record {
        ports = [];
        peers = (record { pod_selector = some every_pod; namespace_selector = none }) ∷ [];
      })
      ∷ [];
  policy_types = "Ingress" ∷ [];
}

unfoldable pub ceph_network_policy_template : NetworkPolicySpec
ceph_network_policy_template = record {
  pod_selector = pods_with "app" (
      "rook-ceph-mds" ∷ "rook-ceph-osd" ∷ "rook-ceph-mgr" ∷ "rook-ceph-mon"
      ∷ "rook-ceph-crashcollector" ∷ []);
  ingress =
      (record {
        ports = [];
        peers =
            (record {
              pod_selector = none;
              namespace_selector = some (record {
                match_labels = ("policy-group.network.openshift.io/host-network", "") ∷ [];
                match_expressions = [];
              });
            })
            ∷ [];
      })
      ∷ [];
  policy_types = "Ingress" ∷ [];
}

unfoldable pub provider_api_server_network_policy_template : NetworkPolicySpec
provider_api_server_network_policy_template = record {
  pod_selector = pods_with "app" ("ocsProviderApiServer" ∷ []);
  ingress = tcp_port 50051 ∷ [];
  policy_types = "Ingress" ∷ [];
}

unfoldable pub prometheus_proxy_network_policy_template : NetworkPolicySpec
prometheus_proxy_network_policy_template = record {
  pod_selector = pods_with "prometheus" ("managed-ocs-prometheus" ∷ []);
  ingress = tcp_port kube_rbac_proxy_port_number ∷ [];
  policy_types = "Ingress" ∷ [];
}
