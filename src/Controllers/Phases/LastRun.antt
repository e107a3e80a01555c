-- ===== src/Controllers/Phases/LastRun.antt =====
-- The whole of the last run on a deleted resource, the report of its status included.
use ocs_osd_deployer.Base.{String, str_eq, if◌then◌else◌, ◌≡◌, refl, ◌∙◌, Bool, true, false, ◌∷◌}
use ocs_osd_deployer.Kube.Exec
use ocs_osd_deployer.Kube.Exec.{
  Result, ok, err, panic, attempt, attempted, continue, pure, raise, crash, when, ◌>>=◌, ◌>>◌,
}
use ocs_osd_deployer.Kube.Object.{Kind, Object}
use ocs_osd_deployer.Kube.Env.{Env}
use ocs_osd_deployer.Utils.Slices.{contains}
use ocs_osd_deployer.Controllers.State.{
  World, updated, status_updated, managed_ocs_finalizer, ocs_operator_name,
}
use ocs_osd_deployer.Controllers.Actions.{
  asks, assign, call, emit, update_status_slot, CreateOrUpdate,
}
use ocs_osd_deployer.Controllers.Slots
use ocs_osd_deployer.Controllers.Operators.{delete_csv_by_prefix}
use ocs_osd_deployer.Controllers.Status.{check_uninstall_condition, update_component_status}
use ocs_osd_deployer.Controllers.Status.Missing.{storage_answer, missing-verify}
use ocs_osd_deployer.Controllers.Removal.{Requeue, done, reconcile_deletion}
use ocs_osd_deployer.Controllers.Phases.{
  is_deleted, exists, reconcile_phases, first_error, start, reconcile,
}
use ocs_osd_deployer.Controllers.Phases.Deletes.{branch}
use ocs_osd_deployer.Controllers.Phases.Finish.{
  csv_deleted, sent, updated_world, reconcile_deletion-finishes,
}

-- What a run returns whose phases had nothing more to do: the outcome of the call for the status.
abbrev pub outcome : Result (Object Kind.managed_ocs) → Result Requeue
outcome (ok obj) = ok done
outcome (err e) = err e
outcome panic = panic

module _ (E : Env) (create_or_update : CreateOrUpdate E) where
  branch-deleted :
      (asked deleted existing : Bool) (w : World E)
      → deleted ≡ true
      → branch E create_or_update asked deleted existing w ≡ reconcile_deletion E w
  branch-deleted asked true existing w is = refl
  branch-deleted asked false existing w is = absurd cc

  report-ends :
      (s : World E)
      → exists s.reconciler ≡ true
      → (answer : Result (Object Kind.managed_ocs))
      → (E.update_status Kind.managed_ocs s.reconciler.managed_ocs s.cluster).0 ≡ answer
      → let end =
          (asks E exists >>= λ existing.
          attempt (when existing (update_status_slot E Slots.managed_ocs)) >>= λ status.
          first_error E create_or_update (ok done) status)
            s in
        (end.0 ≡ outcome answer)
        × (end.1.journal
            ≡ status_updated Kind.managed_ocs s.reconciler.managed_ocs.metadata.name ∷ s.journal)
  unfolding asks attempt attempted update_status_slot emit call assign pure raise crash ◌>>=◌
  report-ends s there (ok obj) e = rw (there, e) (refl, refl)
  report-ends s there (err x) e = rw (there, e) (refl, refl)
  report-ends s there panic e = rw (there, e) (refl, refl)

  module _ (name namespace : String) (w begun asked_world decided : World E) (asked : Bool)
      (new : Object Kind.managed_ocs) where
    phases-finish :
        check_uninstall_condition E begun ≡ (ok asked, asked_world)
        → (storage_answer E asked_world).0 ≡ err Exec.not_found
        → update_component_status E asked_world ≡ (ok tt, decided)
        → is_deleted decided.reconciler ≡ true
        → (delete_csv_by_prefix E ocs_operator_name decided).0 ≡ ok tt
        → (E.update Kind.managed_ocs (sent E decided) (csv_deleted E decided).cluster).0 ≡ ok new
        → reconcile_phases E create_or_update begun ≡ (ok done, updated_world E decided new)
    unfolding reconcile_phases asks ◌>>=◌
    phases-finish checked gone read deleting operator answered =
        let missing = rw read at (missing-verify E asked_world gone) in
        rw (checked, continue, read)
          (branch-deleted asked _ _ decided deleting
            ∙ (reconcile_deletion-finishes E decided new missing operator answered).0)

    -- A run reads a resource that is being deleted, and the API server answers that the storage
    -- cluster is not found, lets the operator's cluster service version be deleted and the resource
    -- be updated, and the answer to the update has a uid: then, whatever the status of the other
    -- components is, the resource is sent without the program's finalizer and with all others that
    -- it had, the last two calls are the update of the resource and, after it, that of its status,
    -- and the run returns the outcome of the latter. So it ends with an error if the API server has
    -- removed the resource with its last finalizer and does not find it any more.
    pub reconcile-finishes :
        start E create_or_update name namespace w ≡ (ok tt, begun)
        → check_uninstall_condition E begun ≡ (ok asked, asked_world)
        → (storage_answer E asked_world).0 ≡ err Exec.not_found
        → update_component_status E asked_world ≡ (ok tt, decided)
        → is_deleted decided.reconciler ≡ true
        → (delete_csv_by_prefix E ocs_operator_name decided).0 ≡ ok tt
        → (E.update Kind.managed_ocs (sent E decided) (csv_deleted E decided).cluster).0 ≡ ok new
        → exists (updated_world E decided new).reconciler ≡ true
        → (let end = reconcile E create_or_update name namespace w in
            ((finalizer : String)
              → contains (sent E decided).metadata.finalizers finalizer ≡ (
                  if str_eq managed_ocs_finalizer finalizer
                  then false
                  else contains
                      (csv_deleted E decided).reconciler.managed_ocs.metadata.finalizers
                      finalizer))
            × (end.0
                ≡ outcome
                    (E.update_status Kind.managed_ocs new (updated_world E decided new).cluster).0)
            × (end.1.journal
                ≡ status_updated Kind.managed_ocs new.metadata.name
                  ∷ (updated Kind.managed_ocs (sent E decided).metadata.name
                      ∷ (csv_deleted E decided).journal)))
    unfolding reconcile ◌>>=◌
    reconcile-finishes starts checked gone read deleting operator answered there =
        let missing = rw read at (missing-verify E asked_world gone) in
        let (_, finalizers) = reconcile_deletion-finishes E decided new missing operator answered in
        let phases = phases-finish checked gone read deleting operator answered in
        let (result, journal) = report-ends (updated_world E decided new) there _ refl in
        rw (starts, phases) (finalizers, result, journal)
