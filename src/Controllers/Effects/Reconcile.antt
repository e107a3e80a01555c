-- ===== src/Controllers/Effects/Reconcile.antt =====
-- What a whole run writes, the deletions included.
use ocs_osd_deployer.Base.{String, Bool}
use ocs_osd_deployer.Kube.Exec.{Result, ok, err, panic}
use ocs_osd_deployer.Kube.Keeps.{keeps_rules}
use ocs_osd_deployer.Kube.Object.{Kind, Object}
use ocs_osd_deployer.Kube.Env.{Env}
use ocs_osd_deployer.Controllers.State.{Write, deleted}
use ocs_osd_deployer.Controllers.Actions.{emit, delete, CreateOrUpdate, IsCreateOrUpdate}
use ocs_osd_deployer.Controllers.Effects.{Spares}
use ocs_osd_deployer.Controllers.Effects.Calls.{spares_rules}
use ocs_osd_deployer.Controllers.Effects.Writes.{
  Allows, Statuses, WritesOnly, WritesOnly-emit, writes_rules,
}
use ocs_osd_deployer.Controllers.Effects.Run.{
  Spares-check_uninstall_condition, Spares-update_component_status, Spares-is_in_use,
  Spares-before_uninstall, Spares-start, Spares-first_error,
}
use ocs_osd_deployer.Controllers.Effects.Monitoring.{Spares-get_csv_by_prefix}
use ocs_osd_deployer.Controllers.Operators.{
  delete_found, delete_csv_by_prefix, remove_olm_components,
}
use ocs_osd_deployer.Controllers.Removal.{
  delete_managed_ocs, uninstall, finish_deletion, delete_storage, reconcile_deletion,
}
use ocs_osd_deployer.Controllers.Phases.{reconcile_existing, reconcile_phases, reconcile}

-- The kinds that the program deletes.
abbrev pub IsDeleted : Kind → Type 0
IsDeleted Kind.managed_ocs = Unit
IsDeleted Kind.storage_cluster = Unit
IsDeleted Kind.storage_system = Unit
IsDeleted Kind.cluster_service_version = Unit
IsDeleted _ = ⊥

-- A property of writes that the deletions have.
pub record Deletions (P : Write → Type 0) : Type 0 where
  pub deletes : (k : Kind) (name : String) → IsDeleted k → P (deleted k name)

module _ (E : Env) (P : Write → Type 0) (allowed : Allows P) (deletions : Deletions P) where
  Spares-deleted :
      (k : Kind) (name : String) → IsDeleted k → Spares E (WritesOnly E P) (emit E (deleted k name))
  Spares-deleted k name is = WritesOnly-emit E P (deleted k name) (deletions.deletes k name is)

  Spares-delete :
      {k : Kind} (obj : Object k) → IsDeleted k → Spares E (WritesOnly E P) (delete E obj)
  unfolding delete
  Spares-delete obj is = search (spares_rules, writes_rules, Spares-deleted) depth 20

  Spares-delete_found :
      (r : Result (Object Kind.cluster_service_version))
      → Spares E (WritesOnly E P) (delete_found E r)
  unfolding delete_found
  Spares-delete_found (ok csv) = search (Spares-delete)
  Spares-delete_found (err e) = search keeps_rules
  Spares-delete_found panic = search keeps_rules

  Spares-delete_csv_by_prefix :
      (prefix : String) → Spares E (WritesOnly E P) (delete_csv_by_prefix E prefix)
  unfolding delete_csv_by_prefix
  Spares-delete_csv_by_prefix prefix =
      search (spares_rules, writes_rules, Spares-get_csv_by_prefix, Spares-delete_found) depth 20

  Spares-remove_olm_components : Spares E (WritesOnly E P) (remove_olm_components E)
  unfolding remove_olm_components
  Spares-remove_olm_components =
      search (spares_rules, writes_rules, Spares-delete_csv_by_prefix) depth 20

  Spares-finish_deletion : Spares E (WritesOnly E P) (finish_deletion E)
  unfolding finish_deletion
  Spares-finish_deletion = search (spares_rules, writes_rules, Spares-delete_csv_by_prefix) depth 20

  Spares-delete_storage : Spares E (WritesOnly E P) (delete_storage E)
  unfolding delete_storage
  Spares-delete_storage = search (spares_rules, writes_rules, Spares-delete) depth 20

  Spares-reconcile_deletion : Spares E (WritesOnly E P) (reconcile_deletion E)
  unfolding reconcile_deletion
  Spares-reconcile_deletion =
      search (spares_rules, writes_rules, Spares-finish_deletion, Spares-delete_storage) depth 20

  Spares-delete_managed_ocs : Spares E (WritesOnly E P) (delete_managed_ocs E)
  unfolding delete_managed_ocs
  Spares-delete_managed_ocs = search (spares_rules, writes_rules, Spares-delete) depth 20

  Spares-uninstall : Spares E (WritesOnly E P) (uninstall E)
  unfolding uninstall
  Spares-uninstall =
      search (spares_rules, writes_rules, Spares-is_in_use, Spares-delete_managed_ocs) depth 20

  module _ (create_or_update : CreateOrUpdate E) (law : IsCreateOrUpdate E create_or_update) where
    Spares-reconcile_existing :
        (b : Bool) → Spares E (WritesOnly E P) (reconcile_existing E create_or_update b)
    unfolding reconcile_existing
    Spares-reconcile_existing b =
        search (spares_rules, writes_rules, Spares-before_uninstall, Spares-uninstall) depth 20

    Spares-reconcile_phases : Spares E (WritesOnly E P) (reconcile_phases E create_or_update)
    unfolding reconcile_phases
    Spares-reconcile_phases =
        search
          (
            spares_rules, writes_rules, Spares-check_uninstall_condition,
            Spares-update_component_status, Spares-reconcile_deletion, Spares-reconcile_existing,
            Spares-remove_olm_components,
          )
          depth 40

    -- A run keeps a property that all the writes of the program have.
    pub Spares-reconcile :
        Statuses P
        → (name namespace : String)
        → Spares E (WritesOnly E P) (reconcile E create_or_update name namespace)
    unfolding reconcile
    Spares-reconcile reported name namespace =
        search
          (spares_rules, writes_rules, Spares-start, Spares-reconcile_phases, Spares-first_error)
          depth 40
