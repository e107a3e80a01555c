-- ===== src/Controllers/Phases/Finish.antt =====
-- The last run on a deleted resource, once its storage cluster is gone.
use ocs_osd_deployer.Base.{String, str_eq, ◌≡◌, refl, true, false, ◌∷◌, if◌then◌else◌}
use ocs_osd_deployer.Kube.Exec.{ok, wrap, wrap_result, continue, pure, ◌>>=◌}
use ocs_osd_deployer.Kube.Object.{Kind, Object}
use ocs_osd_deployer.Kube.Env.{Env}
use ocs_osd_deployer.Utils.Slices.{contains, remove, contains-remove}
use ocs_osd_deployer.Controllers.State.{World, updated, managed_ocs_finalizer, ocs_operator_name}
use ocs_osd_deployer.Controllers.Actions.{call, asks, assign, emit, update, update_slot}
use ocs_osd_deployer.Controllers.Status.{verify_components_do_not_exist}
use ocs_osd_deployer.Controllers.Operators.{delete_csv_by_prefix}
use ocs_osd_deployer.Controllers.Removal.{done, finish_deletion, reconcile_deletion}

-- The resource as it is sent: its own finalizer is taken out.
abbrev pub without_finalizer : Object Kind.managed_ocs → Object Kind.managed_ocs
without_finalizer obj = record obj {
  metadata = record obj.metadata {
    finalizers = remove obj.metadata.finalizers managed_ocs_finalizer;
  };
}

module _ (E : Env) (w : World E) where
  abbrev pub csv_deleted : World E
  csv_deleted = (delete_csv_by_prefix E ocs_operator_name w).1

  abbrev pub sent : Object Kind.managed_ocs
  sent = without_finalizer csv_deleted.reconciler.managed_ocs

  module _ (new : Object Kind.managed_ocs) where
    abbrev pub updated_world : World E
    updated_world = record csv_deleted {
      reconciler = record csv_deleted.reconciler { managed_ocs = new };
      cluster = (E.update Kind.managed_ocs sent csv_deleted.cluster).1;
      journal = updated Kind.managed_ocs sent.metadata.name ∷ csv_deleted.journal;
    }

    finish_deletion-updates :
        (delete_csv_by_prefix E ocs_operator_name w).0 ≡ ok tt
        → (E.update Kind.managed_ocs sent csv_deleted.cluster).0 ≡ ok new
        → finish_deletion E w ≡ (ok tt, updated_world)
    unfolding finish_deletion assign update_slot update asks emit call ◌>>=◌ wrap
    finish_deletion-updates h u = rw (h, wrap_result, continue, u) refl

    -- Once the storage cluster is gone, and if the API server lets the operator's cluster service
    -- version be deleted and the resource be updated, one run on a deleted resource finishes it:
    -- the run ends without an error, its last call updates the resource, and the object that is
    -- sent lacks the program's finalizer and has all others that it had.
    pub reconcile_deletion-finishes :
        verify_components_do_not_exist w.reconciler ≡ true
        → (delete_csv_by_prefix E ocs_operator_name w).0 ≡ ok tt
        → (E.update Kind.managed_ocs sent csv_deleted.cluster).0 ≡ ok new
        → (reconcile_deletion E w ≡ (ok done, updated_world))
          × ((name : String)
              → contains sent.metadata.finalizers name ≡ (
                  if str_eq managed_ocs_finalizer name
                  then false
                  else contains csv_deleted.reconciler.managed_ocs.metadata.finalizers name))
    unfolding reconcile_deletion asks pure ◌>>=◌
    reconcile_deletion-finishes gone h u = (
      rw (gone, finish_deletion-updates h u) refl,
      (λ name.
          contains-remove csv_deleted.reconciler.managed_ocs.metadata.finalizers
            managed_ocs_finalizer name),
    )
