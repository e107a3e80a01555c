-- ===== src/Kube/Workload.antt =====
-- Containers, deployments and operator resources.
use ocs_osd_deployer.Base.{ℕ, String, Option, List}
use ocs_osd_deployer.Base.Int.{ℤ}
use ocs_osd_deployer.Kube.Storage.{ResourceRequirements}

pub record VolumeMount : Type 0 where
  pub name : String
  pub mount_path : String

-- A volume from a secret or from a config map.
pub data VolumeSource : Type 0 where
  from_secret : String → VolumeSource
  from_config_map : String → VolumeSource

pub record Volume : Type 0 where
  pub name : String
  pub source : VolumeSource

pub record ContainerPort : Type 0 where
  pub name : String
  pub container_port : ℕ

pub record Container : Type 0 where
  pub name : String
  pub image : String
  pub args : List String
  pub ports : List ContainerPort
  pub volume_mounts : List VolumeMount
  pub resources : ResourceRequirements

-- A `StrategyDeploymentSpec` of a cluster service version.
pub record DeploymentSpec : Type 0 where
  pub name : String
  pub replicas : Option ℤ
  pub containers : List Container

pub record Subscription : Type 0 where
  pub package_name : String
  pub channel : String
