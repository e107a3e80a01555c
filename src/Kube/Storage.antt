-- ===== src/Kube/Storage.antt =====
-- The fields of `ocsv1.StorageCluster` and of pods that the program and its templates set.
use ocs_osd_deployer.Base.{ℕ, String, Bool, Option, List}
use ocs_osd_deployer.Base.Dict.{Dict}
use ocs_osd_deployer.Base.Int.{ℤ}

-- A `resource.Quantity`, by the text that it was parsed from.
pub record Quantity : Type 0 where
  pub text : String

pub record ResourceRequirements : Type 0 where
  pub limits : Dict Quantity
  pub requests : Dict Quantity

pub data SelectorOperator : Type 0 where
  op_in op_exists op_does_not_exist : SelectorOperator

pub record LabelRequirement : Type 0 where
  pub key : String
  pub operator : SelectorOperator
  pub values : List String

pub record LabelSelector : Type 0 where
  pub match_labels : Dict String
  pub match_expressions : List LabelRequirement

-- The specification of a `PersistentVolumeClaim`.
pub record VolumeClaim : Type 0 where
  pub storage_class_name : String
  pub access_modes : List String
  pub volume_mode : Option String
  pub requests : Dict Quantity

pub record TopologySpreadConstraint : Type 0 where
  pub max_skew : ℕ
  pub topology_key : String
  pub when_unsatisfiable : String
  pub label_selector : LabelSelector

pub record StorageDeviceSet : Type 0 where
  pub name : String
  pub count : ℤ
  pub data_pvc_template : VolumeClaim
  pub placement : List TopologySpreadConstraint
  pub prepare_placement : List TopologySpreadConstraint
  pub portable : Bool
  pub replica : ℕ
  pub resources : ResourceRequirements

pub record ExternalStorage : Type 0 where
  pub enable : Bool
  pub storage_provider_kind : String
  pub storage_provider_endpoint : String
  pub onboarding_ticket : String
  pub requested_capacity : Option Quantity

pub record ManagedResources : Type 0 where
  pub block_pools_reconcile_strategy : String
  pub block_pools_disable_storage_class : Bool
  pub block_pools_disable_snapshot_class : Bool
  pub filesystems_disable_storage_class : Bool
  pub filesystems_disable_snapshot_class : Bool

pub record StorageClusterSpec : Type 0 where
  pub label_selector : Option LabelSelector
  pub manage_nodes : Bool
  pub mon_pvc_template : Option VolumeClaim
  pub resources : Dict ResourceRequirements
  pub storage_device_sets : List StorageDeviceSet
  -- `MultiCloudGateway.ReconcileStrategy`, if the pointer is not nil
  pub multi_cloud_gateway : Option String
  pub external_storage : ExternalStorage
  pub host_network : Bool
  pub allow_remote_storage_consumers : Bool
  pub managed_resources : ManagedResources
