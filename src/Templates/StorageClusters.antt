-- ===== src/Templates/StorageClusters.antt =====
-- templates/convergedstoragecluster.go, providerstoragecluster.go and consumerstoragecluster.go.
-- `commonTSC` and `gp2` are shared by the templates; the code copies them deeply before use.
use ocs_osd_deployer.Base.{ℕ, String, true, false, none, some, [], ◌∷◌}
use ocs_osd_deployer.Base.Dict.{Dict}
use ocs_osd_deployer.Base.Int.{pos}
use ocs_osd_deployer.Kube.Storage.{
  ResourceRequirements, op_exists, op_does_not_exist, LabelSelector, VolumeClaim,
  TopologySpreadConstraint, StorageDeviceSet, ExternalStorage, ManagedResources, StorageClusterSpec,
}
use ocs_osd_deployer.Utils.Resources.{must_parse, get_resource_requirements}

abbrev pub provider_osd_size_in_tib : ℕ
provider_osd_size_in_tib = 4

abbrev osd_pod_selector : LabelSelector
osd_pod_selector = record {
  match_labels = [];
  match_expressions = (record { key = "ceph.rook.io/pvc"; operator = op_exists; values = [] }) ∷ [];
}

abbrev pub common_tsc : TopologySpreadConstraint
common_tsc = record {
  max_skew = 1;
  topology_key = "topology.kubernetes.io/zone";
  when_unsatisfiable = "DoNotSchedule";
  label_selector = osd_pod_selector;
}

abbrev pub prepare_placement_tsc : TopologySpreadConstraint
prepare_placement_tsc = record {
  max_skew = 1;
  topology_key = "kubernetes.io/hostname";
  when_unsatisfiable = "DoNotSchedule";
  label_selector = osd_pod_selector;
}

abbrev worker_selector : LabelSelector
worker_selector = record {
  match_labels = [];
  match_expressions =
      (record { key = "node-role.kubernetes.io/worker"; operator = op_exists; values = [] })
      ∷ (record {
        key = "node-role.kubernetes.io/infra";
        operator = op_does_not_exist;
        values = [];
      })
      ∷ [];
}

abbrev ceph_resources : Dict ResourceRequirements
ceph_resources =
    ("mds", get_resource_requirements "mds")
    ∷ ("mgr", get_resource_requirements "mgr")
    ∷ ("mon", get_resource_requirements "mon")
    ∷ ("crashcollector", get_resource_requirements "crashcollector")
    ∷ []

abbrev data_claim : String → VolumeClaim
data_claim size = record {
  storage_class_name = "gp2";
  access_modes = "ReadWriteOnce" ∷ [];
  volume_mode = some "Block";
  requests = ("storage", must_parse size) ∷ [];
}

abbrev no_external_storage : ExternalStorage
no_external_storage = record {
  enable = false;
  storage_provider_kind = "";
  storage_provider_endpoint = "";
  onboarding_ticket = "";
  requested_capacity = none;
}

abbrev no_managed_resources : ManagedResources
no_managed_resources = record {
  block_pools_reconcile_strategy = "";
  block_pools_disable_storage_class = false;
  block_pools_disable_snapshot_class = false;
  filesystems_disable_storage_class = false;
  filesystems_disable_snapshot_class = false;
}

abbrev converged_device_set : StorageDeviceSet
converged_device_set = record {
  name = "default";
  count = pos 1;
  data_pvc_template = data_claim "1Ti";
  placement = [];
  prepare_placement = [];
  portable = true;
  replica = 3;
  resources = get_resource_requirements "sds";
}

unfoldable pub converged_storage_cluster_template : StorageClusterSpec
converged_storage_cluster_template = record {
  label_selector = some worker_selector;
  manage_nodes = false;
  mon_pvc_template = some (record {
    storage_class_name = "gp2";
    access_modes = "ReadWriteOnce" ∷ [];
    volume_mode = none;
    requests = [];
  });
  resources = ceph_resources;
  storage_device_sets = converged_device_set ∷ [];
  multi_cloud_gateway = some "ignore";
  external_storage = no_external_storage;
  host_network = false;
  allow_remote_storage_consumers = false;
  managed_resources = no_managed_resources;
}

-- The size of a data claim is `fmt.Sprintf("%dTi", ProviderOSDSizeInTiB)`.
unfoldable pub provider_storage_cluster_template : StorageClusterSpec
provider_storage_cluster_template = record {
  label_selector = some worker_selector;
  manage_nodes = false;
  mon_pvc_template = some (record {
    storage_class_name = "gp2";
    access_modes = "ReadWriteOnce" ∷ [];
    volume_mode = none;
    requests = ("storage", must_parse "50Gi") ∷ [];
  });
  resources = ceph_resources;
  storage_device_sets =
      (record converged_device_set {
        data_pvc_template = data_claim "4Ti";
        placement = common_tsc ∷ [];
        prepare_placement = common_tsc ∷ prepare_placement_tsc ∷ [];
      })
      ∷ [];
  multi_cloud_gateway = some "ignore";
  external_storage = no_external_storage;
  host_network = true;
  allow_remote_storage_consumers = true;
  managed_resources = record {
    block_pools_reconcile_strategy = "ignore";
    block_pools_disable_storage_class = true;
    block_pools_disable_snapshot_class = true;
    filesystems_disable_storage_class = true;
    filesystems_disable_snapshot_class = true;
  };
}

unfoldable pub consumer_storage_cluster_template : StorageClusterSpec
consumer_storage_cluster_template = record {
  label_selector = none;
  manage_nodes = false;
  mon_pvc_template = none;
  resources = [];
  storage_device_sets = [];
  multi_cloud_gateway = some "ignore";
  external_storage = record {
    enable = true;
    storage_provider_kind = "ocs";
    storage_provider_endpoint = "";
    onboarding_ticket = "";
    requested_capacity = some (must_parse "0");
  };
  host_network = false;
  allow_remote_storage_consumers = false;
  managed_resources = no_managed_resources;
}
