-- ===== src/Tests/Runs.antt =====
-- Runs of the reconciler in the scene.
use ocs_osd_deployer.Base.{◌≡◌, refl, true, ◌⊎◌, ◌↔◌, [], ◌∷◌}
use ocs_osd_deployer.Base.Text.{atoi}
use ocs_osd_deployer.Base.Dict.{get_text}
use ocs_osd_deployer.Templates.StorageClusters.{converged_storage_cluster_template}
use ocs_osd_deployer.Api.{ready, reconcile_strategy_none, reconcile_strategy_strict}
use ocs_osd_deployer.Kube.Exec.{ok, err, message, ◌>>=◌}
use ocs_osd_deployer.Kube.Object.{Kind, Object}
use ocs_osd_deployer.Controllers.State.{World, status_updated}
use ocs_osd_deployer.Controllers.Actions.{
  own, asks, assign, call, get, refresh, emit, update, update_slot, ignore_not_found,
}
use ocs_osd_deployer.Controllers.Effects.Writes.{NoneDeleted, WritesOnly}
use ocs_osd_deployer.Controllers.StorageCluster.{
  mutate_storage_cluster, desired_storage_cluster, desired_converged_storage_cluster, with_count,
  apply_mcg,
}
use ocs_osd_deployer.Controllers.StorageCluster.Desired.{mutate_not_strict}
use ocs_osd_deployer.Controllers.StorageCluster.Settles.{mutate_storage_cluster-settles}
use ocs_osd_deployer.Controllers.Operators.{delete_csv_by_prefix}
use ocs_osd_deployer.Controllers.Operators.Deletion.{
  DeletesOnlyPrefix, delete_csv_by_prefix-only_prefix,
}
use ocs_osd_deployer.Controllers.Status.{
  storage_cluster_status, verify_components_do_not_exist, check_uninstall_condition, has_label,
  update_component_status,
}
use ocs_osd_deployer.Controllers.Status.Ready.{IsReadyAnswer, storage_cluster_status_ready}
use ocs_osd_deployer.Controllers.Removal.{reconcile_deletion}
use ocs_osd_deployer.Controllers.Phases.{
  before_uninstall, reconcile_existing, start, reconcile_phases, reconcile, prepare,
  ensure_finalizer, exists, params_or_raise,
}
use ocs_osd_deployer.Controllers.Phases.Deletes.{HasReason, reconcile-deletes_only_for_reason}
use ocs_osd_deployer.Controllers.Phases.Deletion.{IsStorageDeletion, reconcile_deletion-waits}
use ocs_osd_deployer.Controllers.Phases.Report.{reconcile-reports_status}
use ocs_osd_deployer.Readiness.{handle, handle_ready, AllReady}
use ocs_osd_deployer.Tests.Scene.{
  namespace, env, create_or_update, world, csv_obj, storage_cluster_obj, managed_ocs_obj,
}

abbrev strict_world : World env
strict_world = world ready reconcile_strategy_strict (("size", "4") ∷ [])

abbrev pub idle_world : World env
idle_world = world ready reconcile_strategy_none []

no_deletion : NoneDeleted env idle_world
unfolding WritesOnly
no_deletion = tt

reconcile-deletes_only_for_reason_example :
    NoneDeleted env (reconcile env create_or_update "managedocs" namespace idle_world).1
    ⊎ HasReason env create_or_update
        (start env create_or_update "managedocs" namespace idle_world).1
reconcile-deletes_only_for_reason_example =
    reconcile-deletes_only_for_reason env create_or_update (λ k slot mutate. refl) "managedocs"
      namespace idle_world no_deletion

reconcile_deletion-waits_example :
    IsStorageDeletion env strict_world (reconcile_deletion env strict_world).1
unfolding verify_components_do_not_exist
reconcile_deletion-waits_example = reconcile_deletion-waits env strict_world refl

mutate_not_strict_example :
    (mutate_storage_cluster env idle_world).1.reconciler.storage_cluster.body
    ≡ idle_world.reconciler.storage_cluster.body
mutate_not_strict_example = mutate_not_strict env idle_world (λ e. cc)

strict_succeeds : (mutate_storage_cluster env strict_world).0 ≡ ok tt
unfolding mutate_storage_cluster own asks assign desired_storage_cluster
    desired_converged_storage_cluster with_count apply_mcg atoi get_text
    converged_storage_cluster_template ◌>>=◌
strict_succeeds = refl

mutate_storage_cluster-settles_example :
    (mutate_storage_cluster env
      (mutate_storage_cluster env strict_world).1).1.reconciler.storage_cluster.body
    ≡ (mutate_storage_cluster env strict_world).1.reconciler.storage_cluster.body
mutate_storage_cluster-settles_example =
    mutate_storage_cluster-settles env strict_world strict_succeeds

abbrev operator_csv : Object Kind.cluster_service_version
operator_csv = csv_obj "ocs-operator.v4.11"

delete_csv_by_prefix-only_prefix_example :
    DeletesOnlyPrefix env "ocs-operator" idle_world
      (delete_csv_by_prefix env "ocs-operator" idle_world).1
delete_csv_by_prefix-only_prefix_example =
    delete_csv_by_prefix-only_prefix env "ocs-operator" idle_world

storage_cluster_status_ready_example :
    ((storage_cluster_status env idle_world).0 ≡ ok ready)
    ↔ IsReadyAnswer env idle_world (ok storage_cluster_obj)
storage_cluster_status_ready_example = storage_cluster_status_ready env idle_world

handle_ready_example :
    ((handle env "managedocs" namespace 0).0 ≡ 200) ↔ AllReady (ok (managed_ocs_obj ready))
handle_ready_example = handle_ready env "managedocs" namespace 0

abbrev started : World env
started = (start env create_or_update "managedocs" namespace idle_world).1

abbrev failed : World env
failed = (reconcile_phases env create_or_update started).1

starts : start env create_or_update "managedocs" namespace idle_world ≡ (ok tt, started)
unfolding start asks assign refresh get call ignore_not_found ◌>>=◌
starts = refl

fails :
    reconcile_phases env create_or_update started
    ≡ (err (message "Failed to get the addon parameters secret"), failed)
unfolding reconcile_phases start asks assign refresh get call ignore_not_found
    check_uninstall_condition has_label update_component_status reconcile_existing before_uninstall
    prepare ensure_finalizer params_or_raise update_slot update emit ◌>>=◌
fails = refl

exists_after : exists failed.reconciler ≡ true
unfolding reconcile_phases start asks assign refresh get call ignore_not_found
    check_uninstall_condition has_label update_component_status reconcile_existing before_uninstall
    prepare ensure_finalizer params_or_raise update_slot update emit ◌>>=◌
exists_after = refl

reconcile-reports_status_example :
    ((reconcile env create_or_update "managedocs" namespace idle_world).0
      ≡ err (message "Failed to get the addon parameters secret"))
    × ((reconcile env create_or_update "managedocs" namespace idle_world).1.journal
        ≡ status_updated Kind.managed_ocs failed.reconciler.managed_ocs.metadata.name
          ∷ failed.journal)
reconcile-reports_status_example =
    reconcile-reports_status env create_or_update "managedocs" namespace idle_world started failed
      (message "Failed to get the addon parameters secret") starts fails exists_after (λ e. cc)
