-- ===== src/Controllers/Removal.antt =====
-- The end of the resource: `hasOCSVolumes`, `hasOCSStorageConsumers`, the uninstallation that
-- `reconcilePhases` starts and the branch for a deleted resource.
use ocs_osd_deployer.Base.{
  String, Bool, true, false, ◌||◌, none, some, List, [], ◌∷◌, str_eq, starts_with, if◌then◌else◌,
}
use ocs_osd_deployer.Kube.Exec.{pure, attempt, wrap, for_each, ◌>>=◌, ◌>>◌}
use ocs_osd_deployer.Kube.Object.{Kind, Object}
use ocs_osd_deployer.Kube.Env.{Env}
use ocs_osd_deployer.Utils.Slices.{contains, remove}
use ocs_osd_deployer.Controllers.State.{
  Reconciler, managed_ocs_finalizer, ocs_operator_name, consumer_deployment_type,
  converged_deployment_type, provider_deployment_type,
}
use ocs_osd_deployer.Controllers.Actions.{
  M, call, asks, assign, refresh, update_slot, delete, list, ignore_not_found,
}
use ocs_osd_deployer.Controllers.Slots
use ocs_osd_deployer.Controllers.Status.{verify_components_do_not_exist}
use ocs_osd_deployer.Controllers.Operators.{delete_csv_by_prefix}

-- `reconcile.Result`: nothing to do, or a new run after ten seconds.
pub data Requeue : Type 0 where
  done requeue_after_10s : Requeue

-- The storage classes whose provisioner has the prefix, by name.
unfoldable pub ocs_storage_classes : String → List (Object Kind.storage_class) → List String
ocs_storage_classes namespace [] = []
ocs_storage_classes namespace (c ∷ cs) =
    let rest = ocs_storage_classes namespace cs in
    if starts_with c.body namespace then c.metadata.name ∷ rest else rest

-- Some volume has one of the classes.
unfoldable pub uses_class : List String → List (Object Kind.persistent_volume) → Bool
unfolding contains
uses_class classes [] = false
uses_class classes (pv ∷ pvs) = if contains classes pv.body then true else uses_class classes pvs

abbrev pub with_finalizers : (List String → List String) → Reconciler → Reconciler
with_finalizers f r = record r {
  managed_ocs = record r.managed_ocs {
    metadata = record r.managed_ocs.metadata { finalizers = f r.managed_ocs.metadata.finalizers };
  };
}

module _ (E : Env) where
  -- The client for this list is not bound to the namespace.
  unfoldable pub has_ocs_volumes : M E Bool
  has_ocs_volumes = do
    namespace ← asks E (λ r. r.namespace)
    classes ← wrap "unable to list storage classes: " (call E (E.list Kind.storage_class none none))
    volumes ←
        wrap "unable to list persistent volumes: "
          (call E (E.list Kind.persistent_volume none none))
    pure (uses_class (ocs_storage_classes namespace classes) volumes)

  abbrev is_nonempty : {A : Type 0} → List A → Bool
  is_nonempty [] = false
  is_nonempty (_ ∷ _) = true

  unfoldable pub has_ocs_storage_consumers : M E Bool
  has_ocs_storage_consumers = do
    consumers ←
        wrap "unable to list storage consumers: "
          (call E (E.list Kind.storage_consumer none (some 1)))
    pure (is_nonempty consumers)

  -- The `switch` before the deletion: whether data or clients are left.
  unfoldable pub is_in_use : String → M E Bool
  is_in_use deployment_type =
      if str_eq deployment_type converged_deployment_type
        || str_eq deployment_type consumer_deployment_type
      then has_ocs_volumes
      else if str_eq deployment_type provider_deployment_type
      then has_ocs_storage_consumers
      else pure false

  unfoldable pub delete_managed_ocs : M E Requeue
  delete_managed_ocs = do
    obj ← asks E Slots.managed_ocs.read
    wrap "unable to delete managedocs: " (delete E obj)
    found ← attempt (refresh E Slots.managed_ocs)
    ignore_not_found E found
    pure done

  unfoldable pub uninstall : M E Requeue
  unfolding delete_managed_ocs
  uninstall = do
    deployment_type ← asks E (λ r. r.config.deployment_type)
    found ← is_in_use deployment_type
    if found then pure requeue_after_10s else delete_managed_ocs

  -- A deleted resource: the operator and the finalizer go once the storage cluster is gone.
  unfoldable pub finish_deletion : M E (Unit {0})
  unfolding remove
  finish_deletion = do
    wrap "unable to delete csv: " (delete_csv_by_prefix E ocs_operator_name)
    assign E (with_finalizers (λ f. remove f managed_ocs_finalizer))
    wrap "failed to remove finalizer from managedOCS: " (update_slot E Slots.managed_ocs)

  unfoldable pub delete_storage : M E (Unit {0})
  delete_storage = do
    cluster ← asks E Slots.storage_cluster.read
    wrap "unable to delete storagecluster: " (delete E cluster)
    systems ← wrap "unable to list storageSystem resource: " (list E Kind.storage_system)
    for_each systems (λ system. wrap "unable to delete storageSystem: " (delete E system))

  unfoldable pub reconcile_deletion : M E Requeue
  unfolding finish_deletion delete_storage
  reconcile_deletion = do
    gone ← asks E verify_components_do_not_exist
    if gone then finish_deletion else delete_storage
    pure done
