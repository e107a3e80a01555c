-- ===== src/Controllers/Operators.antt =====
-- Cluster service versions, the ODF subscription and OCSInitialization: `reconcileCSV`,
-- `updateOCSCSV`, `updateMCGCSV`, `getCSVByPrefix`, `deleteCSVByPrefix`, `removeOLMComponents`,
-- `reconcileODFSubscription` and `reconcileOCSInitialization`.
pub mod Converge
pub mod Deletion
use ocs_osd_deployer.Base.{
  String, ◌<>◌, Bool, true, false, not, ◌&&◌, ◌||◌, Option, none, some, List, [], ◌∷◌, str_eq,
  starts_with, if◌then◌else◌,
}
use ocs_osd_deployer.Base.Int.{ℤ, pos, leb_ℤ}
use ocs_osd_deployer.Kube.Exec.{
  Result, Error, ok, err, panic, message, is_not_found, pure, raise, crash, attempt, wrap, when,
  for_each, ◌>>=◌, ◌>>◌,
}
use ocs_osd_deployer.Kube.Exec
use ocs_osd_deployer.Kube.Storage.{ResourceRequirements}
use ocs_osd_deployer.Kube.Workload.{Container, DeploymentSpec}
use ocs_osd_deployer.Kube.Object.{Kind, Object}
use ocs_osd_deployer.Kube.Env.{Env}
use ocs_osd_deployer.Utils.Resources.{get_resource_requirements}
use ocs_osd_deployer.Controllers.State.{
  ocs_operator_name, mcg_operator_name, deployer_csv_prefix, odf_olm_package_name,
}
use ocs_osd_deployer.Controllers.Actions.{M, list, update, delete, or_raise}

abbrev pub desired_odf_subscription_channel : String
desired_odf_subscription_channel = "stable-4.11"

-- A changed value, and whether something was changed.
abbrev pub Changed : Type 0 → Type 0
Changed A = A × Bool

-- A loop that changes each element in turn; `isChanged` is set by any of them.
unfoldable pub change_each : {A : Type 0} → (A → Changed A) → List A → Changed (List A)
change_each f [] = ([], false)
change_each f (x ∷ xs) = let (x', c) = f x in let (xs', d) = change_each f xs in (x' ∷ xs', c || d)

-- `!(replicas == nil) && *replicas <= 0`, the negation of the code's test
abbrev pub is_scaled_down : Option ℤ → Bool
is_scaled_down none = false
is_scaled_down (some n) = leb_ℤ n (pos 0)

unfoldable pub scale_down : DeploymentSpec → Changed DeploymentSpec
scale_down deployment =
    if str_eq deployment.name "noobaa-operator" && not (is_scaled_down deployment.replicas)
    then (record deployment { replicas = some (pos 0) }, true)
    else (deployment, false)

abbrev pub is_ocs_container : String → Bool
is_ocs_container name =
    str_eq name "ocs-operator"
    || str_eq name "rook-ceph-operator"
    || str_eq name "ocs-metrics-exporter"

abbrev pub find_csv :
    List (Object Kind.cluster_service_version)
    → String
    → Option (Object Kind.cluster_service_version)
find_csv [] prefix = none
find_csv (csv ∷ csvs) prefix =
    if starts_with csv.metadata.name prefix then some csv else find_csv csvs prefix

module _ (E : Env) where
  -- The cases of the `switch` do the same with the name that they matched.
  unfoldable pub set_requirements : Container → Changed Container
  set_requirements container =
      let resources : ResourceRequirements = get_resource_requirements container.name in
      if is_ocs_container container.name && not (E.same_requirements container.resources resources)
      then (record container { resources = resources }, true)
      else (container, false)

  unfoldable pub set_deployment_requirements : DeploymentSpec → Changed DeploymentSpec
  unfolding change_each set_requirements
  set_deployment_requirements deployment =
      let (containers, c) = change_each set_requirements deployment.containers in
      (record deployment { containers = containers }, c)

  -- The update is issued only if something was changed.
  abbrev pub update_if_changed :
      Object Kind.cluster_service_version → Changed (List DeploymentSpec) → String → M E (Unit {0})
  update_if_changed csv (deployments, is_changed) problem =
      when is_changed (wrap problem (update E (record csv { body = deployments })) >> pure tt)

  unfoldable pub update_ocs_csv : Object Kind.cluster_service_version → M E (Unit {0})
  unfolding change_each
  update_ocs_csv csv =
      update_if_changed csv (change_each set_deployment_requirements csv.body)
        "Failed to update OCS CSV: "

  unfoldable pub update_mcg_csv : Object Kind.cluster_service_version → M E (Unit {0})
  unfolding change_each
  update_mcg_csv csv =
      update_if_changed csv (change_each scale_down csv.body) "Failed to update MCG CSV: "

  unfoldable pub reconcile_one_csv : Object Kind.cluster_service_version → M E (Unit {0})
  reconcile_one_csv csv =
      if starts_with csv.metadata.name ocs_operator_name
      then wrap "Failed to update OCS CSV: " (update_ocs_csv csv)
      else if starts_with csv.metadata.name mcg_operator_name
      then wrap "Failed to update MCG CSV: " (update_mcg_csv csv)
      else pure tt

  unfoldable pub reconcile_csv : M E (Unit {0})
  reconcile_csv = do
    csvs ← wrap "unable to list csv resources: " (list E Kind.cluster_service_version)
    for_each csvs reconcile_one_csv

  -- `none` is the NotFound error that the method makes itself.
  unfoldable pub get_csv_by_prefix : String → M E (Object Kind.cluster_service_version)
  get_csv_by_prefix prefix = do
    csvs ← wrap "unable to list csv resources: " (list E Kind.cluster_service_version)
    or_raise (find_csv csvs prefix) Exec.not_found

  unfoldable pub delete_found : Result (Object Kind.cluster_service_version) → M E (Unit {0})
  delete_found (ok csv) = delete E csv
  delete_found (err e) = if is_not_found e then pure tt else raise e
  delete_found panic = crash

  unfoldable pub delete_csv_by_prefix : String → M E (Unit {0})
  unfolding delete_found
  delete_csv_by_prefix prefix = do found ← attempt (get_csv_by_prefix prefix); delete_found found

  unfoldable pub remove_olm_components : M E (Unit {0})
  remove_olm_components = wrap "Unable to delete csv: " (delete_csv_by_prefix deployer_csv_prefix)

  abbrev find_subscription : List (Object Kind.subscription) → Option (Object Kind.subscription)
  find_subscription [] = none
  find_subscription (sub ∷ subs) =
      if str_eq sub.body.package_name odf_olm_package_name then some sub else find_subscription subs

  abbrev on_channel : Object Kind.subscription → Object Kind.subscription
  on_channel sub = record sub {
    body = record sub.body { channel = desired_odf_subscription_channel };
  }

  unfoldable pub reconcile_odf_subscription : M E (Unit {0})
  reconcile_odf_subscription = do
    subs ← wrap "Unable to list subscriptions " (list E Kind.subscription)
    sub ←
        or_raise (find_subscription subs)
          (message ("Failed to find package name " <> odf_olm_package_name))
    if str_eq sub.body.channel desired_odf_subscription_channel
        then pure tt
        else (wrap ("Failed to update " <> (odf_olm_package_name <> " subscription "))
              (update E (on_channel sub))
            >> pure tt)

  -- The body of the resource is `Spec.EnableCephTools`; the first resource alone is looked at.
  unfoldable pub enable_ceph_tools : List (Object Kind.ocs_initialization) → M E (Unit {0})
  enable_ceph_tools [] = pure tt
  enable_ceph_tools (obj ∷ _) =
      if obj.body then pure tt else (update E (record obj { body = true }) >> pure tt)

  unfoldable pub reconcile_ocs_initialization : M E (Unit {0})
  unfolding enable_ceph_tools
  reconcile_ocs_initialization = do
    objs ← wrap "Could to list OCSInitialization resources: " (list E Kind.ocs_initialization)
    enable_ceph_tools objs
