-- ===== src/Controllers/Prometheus/Missing.antt =====
-- `reconcilePrometheus` where the deployer's cluster service version lacks the manager's
-- deployment.
use ocs_osd_deployer.Base.{◌≡◌, ◌≢◌, refl, none, List, [], ◌∷◌, eq_iff, arith}
use ocs_osd_deployer.Base.Lists.{All}
use ocs_osd_deployer.Kube.Exec.{ok, crash, panic, ◌>>=◌}
use ocs_osd_deployer.Kube.Workload.{DeploymentSpec}
use ocs_osd_deployer.Kube.Object.{Kind, Object}
use ocs_osd_deployer.Kube.Env.{Env}
use ocs_osd_deployer.Controllers.State.{World, deployer_csv_prefix}
use ocs_osd_deployer.Controllers.Actions.{own, assign}
use ocs_osd_deployer.Controllers.Slots
use ocs_osd_deployer.Controllers.Operators.{get_csv_by_prefix}
use ocs_osd_deployer.Controllers.Prometheus.{
  controller_deployment, kube_rbac_image, image_or_crash, label_prometheus, mutate_prometheus,
}

-- No deployment is the one of the controller's manager.
abbrev pub LacksManager : List DeploymentSpec → Type 0
LacksManager deployments = All (λ d. d.name ≢ "ocs-osd-controller-manager") deployments

controller_deployment-LacksManager :
    (ds : List DeploymentSpec) → LacksManager ds → controller_deployment ds ≡ none
unfolding controller_deployment
controller_deployment-LacksManager [] h = refl
controller_deployment-LacksManager (d ∷ ds) (ne, rest) =
    ground (
      arith,
      controller_deployment-LacksManager ds rest,
      eq_iff d.name "ocs-osd-controller-manager",
    )

image-LacksManager :
    (E : Env) (ds : List DeploymentSpec)
    → LacksManager ds
    → image_or_crash E (kube_rbac_image ds) ≡ crash
unfolding kube_rbac_image image_or_crash
image-LacksManager E ds l = rw (image_or_crash, controller_deployment-LacksManager ds l) refl

module _ (E : Env) (w w1 w2 : World E) (csv : Object Kind.cluster_service_version) where
  -- If the Prometheus resource can be owned and the deployer's cluster service version is found,
  -- and none of its deployments is the manager's, then the function that is passed to
  -- `CreateOrUpdate` panics.
  pub mutate_prometheus-panics :
      own E Slots.prometheus w ≡ (ok tt, w1)
      → get_csv_by_prefix E deployer_csv_prefix (assign E (label_prometheus E) w1).1 ≡ (ok csv, w2)
      → LacksManager csv.body
      → (mutate_prometheus E w).0 ≡ panic
  unfolding mutate_prometheus assign ◌>>=◌
  mutate_prometheus-panics h k l = rw (h, k, image-LacksManager E csv.body l) refl
