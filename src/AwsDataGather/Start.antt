-- ===== src/AwsDataGather/Start.antt =====
-- What `main` has found when the loop begins.
use ocs_osd_deployer.Base.{String, ◌<>◌, ◌≡◌, refl, true, false, some}
use ocs_osd_deployer.Base.Dict.{Dict, lookup}
use ocs_osd_deployer.Base.Text.{has_char}
use ocs_osd_deployer.Kube.Env.{Env}
use ocs_osd_deployer.Utils.Imds.{Http}
use ocs_osd_deployer.Utils.PodName.{deployment_name-pod_name}
use ocs_osd_deployer.AwsDataGather.Gather.{Client, found_or_exit, set_up}

module _ (E : Env) (client : Client E) (http : Http) where
  -- In a pod <deployment>-<hash>-<uid> of a namespace, whose last two sections hold no hyphen, and
  -- with both variables set and a client, the program looks up this deployment in this namespace,
  -- and starts the loop with what is found or exits with the error.
  pub set_up-get_deployment :
      (d h u namespace : String) (variables : Dict String) (c : E.Cluster)
      → has_char b'-' h ≡ false
      → has_char b'-' u ≡ false
      → lookup "NAMESPACE" variables ≡ some namespace
      → lookup "POD_NAME" variables ≡ some ((d <> ("-" <> h)) <> ("-" <> u))
      → set_up E client http variables true c ≡ found_or_exit (client.get_deployment d namespace c)
  unfolding set_up
  set_up-get_deployment d h u namespace variables c hh hu has_namespace has_name =
      rw (set_up, has_namespace, has_name, deployment_name-pod_name d h u hh hu) refl
