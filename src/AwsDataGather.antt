-- ===== src/AwsDataGather.antt =====
-- cmd/awsDataGather/main.go: the data that is gathered; the children are the times between two
-- attempts, the start, an attempt and the loop.
pub mod Backoff
pub mod Gather
pub mod Start
pub mod Stored
pub mod Rounds
use ocs_osd_deployer.Base.{String, Bool, true, false, ◌≡◌, none, List, [], ◌∷◌}
use ocs_osd_deployer.Kube.Object.{Kind, Object, ObjectMeta, OwnerReference}
use ocs_osd_deployer.Utils.Imds.{cidr_key}

-- The function that `gatherAndSaveData` passes to `CreateOrUpdate`, with the deployment's name and
-- identity and the text that was fetched.
unfoldable pub mutate_data :
    (deployment : ObjectMeta) → String → Object Kind.config_map → Object Kind.config_map
mutate_data deployment cidr obj = record obj {
  metadata = record obj.metadata {
    owner_references =
        (record {
          api_version = "apps/v1";
          kind = "Deployment";
          name = deployment.name;
          uid = deployment.uid;
        })
        ∷ [];
  };
  body = (cidr_key, cidr) ∷ [];
}
