-- ===== src/Controllers/StorageCluster.antt =====
-- `reconcileStorageCluster` and the three functions that compute the desired storage cluster.
pub mod Count
pub mod Bounds
pub mod Desired
pub mod Meaning
pub mod Shape
pub mod Kinds
pub mod Granted
pub mod Strict
pub mod Settles
use ocs_osd_deployer.Base.{
  ℕ, String, ◌<>◌, Bool, true, false, Option, none, some, List, [], ◌∷◌, str_eq, if◌then◌else◌,
}
use ocs_osd_deployer.Base.Dict.{Dict, lookup, get_text}
use ocs_osd_deployer.Base.Int.{ℤ, pos}
use ocs_osd_deployer.Base.Text.{atoi, parse_bool}
use ocs_osd_deployer.Api.{reconcile_strategy_strict}
use ocs_osd_deployer.Kube.Storage.{Quantity, StorageDeviceSet, StorageClusterSpec}
use ocs_osd_deployer.Kube.Exec.{
  Result, ok, err, panic, Exec, message, pure, raise, lift, ◌>>=◌, ◌>>◌,
}
use ocs_osd_deployer.Kube.Object.{Kind}
use ocs_osd_deployer.Kube.Env.{Env}
use ocs_osd_deployer.Templates.StorageClusters.{
  converged_storage_cluster_template, provider_storage_cluster_template,
  consumer_storage_cluster_template,
}
use ocs_osd_deployer.Controllers.State.{
  Reconciler, converged_deployment_type, consumer_deployment_type, provider_deployment_type,
  storage_size_key, storage_unit_key, enable_mcg_key, device_set_name,
}
use ocs_osd_deployer.Controllers.Actions.{M, asks, assign, own, CreateOrUpdate}
use ocs_osd_deployer.Controllers.Slots
use Count.{provider_device_set_count, device_set_count}

-- `findStorageDeviceSet`: the first set of the name.
unfoldable pub find_storage_device_set : List StorageDeviceSet → String → Option StorageDeviceSet
find_storage_device_set [] name = none
find_storage_device_set (item ∷ items) name =
    if str_eq item.name name then some item else find_storage_device_set items name

-- The count of the set of that name, or 0.
unfoldable pub current_count : List StorageDeviceSet → ℤ
unfolding find_storage_device_set
current_count sets = elim (find_storage_device_set sets device_set_name) [
  | none ↦ pos 0
  | some set ↦ set.count
]

-- A write through the pointer that `findStorageDeviceSet` returns. The write panics if the pointer
-- is nil: `none`.
unfoldable pub set_count : List StorageDeviceSet → String → ℤ → Option (List StorageDeviceSet)
set_count [] name count = none
set_count (item ∷ items) name count =
    let rest = set_count items name count in
    if str_eq item.name name
    then some (record item { count = count } ∷ items)
    else elim rest [ none ↦ none | some items' ↦ some (item ∷ items') ]

-- `ensureMCGDeployment`: enabling writes through a pointer, which panics if it is nil; nothing else
-- is changed, also where the gateway is on and should be off.
unfoldable pub ensure_mcg_deployment : StorageClusterSpec → Bool → Result StorageClusterSpec
ensure_mcg_deployment spec mcg_enable = elim spec.multi_cloud_gateway [
  | none ↦ panic
  | some _ ↦ ok (if mcg_enable then record spec { multi_cloud_gateway = some "manage" } else spec)
]

infixl 6 ◌then_try◌
-- A chain of results.
abbrev ◌then_try◌ : {A B : Type 0} → Result A → (A → Result B) → Result B
ok a then_try f = f a
err e then_try f = err e
panic then_try f = panic

abbrev or_message : {A : Type 0} → Option A → String → Result A
or_message (some a) text = ok a
or_message none text = err (message text)

-- The text of the parameter that turns the gateway on, which is off if it is not given.
abbrev pub enable_mcg_text : Dict String → String
enable_mcg_text params = elim (lookup enable_mcg_key params) [ none ↦ "false" | some text ↦ text ]

unfoldable pub apply_mcg : Dict String → StorageClusterSpec → Result StorageClusterSpec
unfolding ensure_mcg_deployment parse_bool lookup
apply_mcg params spec =
    or_message (parse_bool (enable_mcg_text params))
      ("Invalid Enable MCG value: " <> enable_mcg_text params)
    then_try ensure_mcg_deployment spec

abbrev size_of : Dict String → Result ℤ
size_of params =
    or_message (atoi (get_text storage_size_key params))
      ("Invalid storage cluster size value: " <> get_text storage_size_key params)

-- The template with the count in its device set.
unfoldable pub with_count : StorageClusterSpec → ℤ → Result StorageClusterSpec
unfolding set_count
with_count template count = elim (set_count template.storage_device_sets device_set_name count) [
  | none ↦ panic
  | some sets ↦ ok (record template { storage_device_sets = sets })
]

-- `current` are the device sets of the storage cluster as it was read.
unfoldable pub desired_converged_storage_cluster :
    Dict String → List StorageDeviceSet → Result StorageClusterSpec
desired_converged_storage_cluster params current = size_of params then_try λ size.
    with_count converged_storage_cluster_template (device_set_count size (current_count current))
    then_try apply_mcg params

unfoldable pub desired_provider_storage_cluster :
    Dict String → List StorageDeviceSet → Result StorageClusterSpec
desired_provider_storage_cluster params current = size_of params then_try λ size.
    with_count provider_storage_cluster_template
      (device_set_count (provider_device_set_count size) (current_count current))
    then_try apply_mcg params

abbrev pub onboarding_ticket_key : String
onboarding_ticket_key = "onboarding-ticket"

abbrev pub storage_provider_endpoint_key : String
storage_provider_endpoint_key = "storage-provider-endpoint"

module _ (E : Env) where
  -- A text that is no quantity, and a negative one, are refused alike.
  requested_capacity : String → Result Quantity
  requested_capacity text =
      let invalid : Result Quantity =
        err (message ("Invalid storage cluster capacity value: " <> text)) in
      elim (E.parse_quantity text) [
        | none ↦ invalid
        | some q ↦ if E.is_negative q then invalid else ok q
      ]

  unfoldable pub desired_consumer_storage_cluster : Dict String → Result StorageClusterSpec
  unfolding requested_capacity
  desired_consumer_storage_cluster params =
      requested_capacity (get_text storage_size_key params <> get_text storage_unit_key params)
      then_try λ capacity. apply_mcg params (record consumer_storage_cluster_template {
        external_storage = record consumer_storage_cluster_template.external_storage {
          onboarding_ticket = get_text onboarding_ticket_key params;
          storage_provider_endpoint = get_text storage_provider_endpoint_key params;
          requested_capacity = some capacity;
        };
      })

  -- The `switch` on the deployment type.
  unfoldable pub desired_storage_cluster :
      String → Dict String → List StorageDeviceSet → Result StorageClusterSpec
  desired_storage_cluster deployment_type params current =
      if str_eq deployment_type converged_deployment_type
      then desired_converged_storage_cluster params current
      else if str_eq deployment_type consumer_deployment_type
      then desired_consumer_storage_cluster params
      else if str_eq deployment_type provider_deployment_type
      then desired_provider_storage_cluster params current
      else err (message ("Invalid deployment type value: " <> deployment_type))

  -- The desired specification for the fields of the reconciler.
  abbrev pub desired_for : Reconciler → Result StorageClusterSpec
  desired_for r =
      desired_storage_cluster r.config.deployment_type r.addon_params
        r.storage_cluster.body.spec.storage_device_sets

  abbrev with_spec : StorageClusterSpec → Reconciler → Reconciler
  with_spec spec r = record r {
    storage_cluster = record r.storage_cluster {
      body = record r.storage_cluster.body { spec = spec };
    };
  }

  -- The function that is passed to `CreateOrUpdate`.
  unfoldable pub mutate_storage_cluster : M E (Unit {0})
  mutate_storage_cluster = do
    own E Slots.storage_cluster
    strategy ← asks E (λ r. r.reconcile_strategy)
    if str_eq strategy reconcile_strategy_strict
        then (do result ← asks E desired_for; spec ← lift result; assign E (with_spec spec))
        else pure tt

  unfoldable pub reconcile_storage_cluster : CreateOrUpdate E → M E (Unit {0})
  reconcile_storage_cluster create_or_update =
      create_or_update Kind.storage_cluster Slots.storage_cluster mutate_storage_cluster
