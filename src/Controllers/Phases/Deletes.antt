-- ===== src/Controllers/Phases/Deletes.antt =====
-- Why a whole run may delete something.
use ocs_osd_deployer.Base.{String, ◌≡◌, refl, ◌⊎◌, inl, inr, Bool, true, false, if◌then◌else◌}
use ocs_osd_deployer.Kube.Exec.{Result, ok, attempt, when, pure, ◌>>=◌, ◌>>◌}
use ocs_osd_deployer.Kube.Keeps.{bind-guarded, attempt-guarded, guarded-bind}
use ocs_osd_deployer.Kube.Env.{Env}
use ocs_osd_deployer.Controllers.State.{World}
use ocs_osd_deployer.Controllers.Actions.{
  M, asks, update_status_slot, CreateOrUpdate, IsCreateOrUpdate,
}
use ocs_osd_deployer.Controllers.Effects.{Spares}
use ocs_osd_deployer.Controllers.Effects.Calls.{spares_rules}
use ocs_osd_deployer.Controllers.Effects.Writes.{
  WritesOnly-Reads, WritesOnly-Fields, WritesOnly-update_status_slot, NoDeletion, NoneDeleted,
  NoDeletion-Statuses,
}
use ocs_osd_deployer.Controllers.Effects.Run.{
  Spares-check_uninstall_condition, Spares-update_component_status, Spares-start,
  Spares-first_error,
}
use ocs_osd_deployer.Controllers.Slots
use ocs_osd_deployer.Controllers.Operators.{remove_olm_components}
use ocs_osd_deployer.Controllers.Status.{check_uninstall_condition, update_component_status}
use ocs_osd_deployer.Controllers.Removal.{Requeue, done, reconcile_deletion}
use ocs_osd_deployer.Controllers.Phases.{
  is_deleted, exists, before_uninstall, reconcile_existing, reconcile_phases, first_error, start,
  reconcile,
}
use ocs_osd_deployer.Controllers.Phases.Uninstall.{
  IsUninstallAllowed, reconcile_existing-deletes_only_if_free,
}

module _ (E : Env) (create_or_update : CreateOrUpdate E) where
  -- In the world after the component status: the resource is being deleted, or there is none and
  -- the uninstallation was asked for, or its uninstallation is allowed once all is reconciled.
  unfoldable pub IsDeletionAllowed : Bool → World E → Type 0
  unfolding IsUninstallAllowed
  IsDeletionAllowed asked w =
      (is_deleted w.reconciler ≡ true)
      ⊎ (((exists w.reconciler ≡ false) × (asked ≡ true))
          ⊎ ((exists w.reconciler ≡ true)
              × IsUninstallAllowed E asked (before_uninstall E create_or_update w).1))

  -- The answers on which the phases decide, from the world at their start.
  unfoldable pub HasReason : World E → Type 0
  HasReason w =
      (asked : Bool) × ((check_uninstall_condition E w).0 ≡ ok asked)
      × IsDeletionAllowed asked (update_component_status E (check_uninstall_condition E w).1).1

  abbrev pub branch : (asked deleted existing : Bool) → M E Requeue
  branch asked deleted existing =
      if deleted
      then reconcile_deletion E
      else if existing
      then reconcile_existing E create_or_update asked
      else if asked
      then (remove_olm_components E >> pure done)
      else pure done

  abbrev pub after_status : Bool → M E Requeue
  after_status asked = do
    deleted ← asks E is_deleted
    existing ← asks E exists
    branch asked deleted existing

module _ (E : Env) (create_or_update : CreateOrUpdate E)
    (law : IsCreateOrUpdate E create_or_update) where
  branch-guarded :
      (w : World E)
      → NoneDeleted E w
      → (asked deleted existing : Bool) → is_deleted w.reconciler ≡ deleted
      → exists w.reconciler ≡ existing
      → NoneDeleted E (branch E create_or_update asked deleted existing w).1
        ⊎ IsDeletionAllowed E create_or_update asked w
  unfolding IsDeletionAllowed pure
  branch-guarded w h asked true existing e f = inr (inl e)
  branch-guarded w h asked false true e f =
      elim (reconcile_existing-deletes_only_if_free E create_or_update law asked w h) [
        | inl none ↦ inl none
        | inr allowed ↦ inr (inr (inr (f, allowed)))
      ]
  branch-guarded w h true false false e f = inr (inr (inl (f, refl)))
  branch-guarded w h false false false e f = inl h

  -- From the world before the component status, with the answer that was given.
  after_status-guarded :
      (asked : Bool) (w : World E)
      → NoneDeleted E w
      → NoneDeleted E
          ((update_component_status E >>= λ _. after_status E create_or_update asked) w).1
        ⊎ IsDeletionAllowed E create_or_update asked (update_component_status E w).1
  unfolding asks ◌>>=◌
  after_status-guarded asked w h =
      bind-guarded (NoneDeleted E) _ (λ _. after_status E create_or_update asked)
        (update_component_status E) w
        (Spares-update_component_status E (NoneDeleted E) (WritesOnly-Reads E NoDeletion)
          (WritesOnly-Fields E NoDeletion))
        h
        (λ u e.
          branch-guarded (update_component_status E w).1
            ((Spares-update_component_status E (NoneDeleted E) (WritesOnly-Reads E NoDeletion)
                (WritesOnly-Fields E NoDeletion)).at
              w h)
            asked _ _ refl refl)

  phases-guarded :
      (w : World E)
      → NoneDeleted E w
      → NoneDeleted E (reconcile_phases E create_or_update w).1 ⊎ HasReason E create_or_update w
  unfolding reconcile_phases HasReason
  phases-guarded w h =
      bind-guarded (NoneDeleted E) _ _ (check_uninstall_condition E) w
        (Spares-check_uninstall_condition E (NoneDeleted E) (WritesOnly-Reads E NoDeletion)) h
        (λ asked e.
          elim (after_status-guarded asked (check_uninstall_condition E w).1 (
            (Spares-check_uninstall_condition E (NoneDeleted E) (WritesOnly-Reads E NoDeletion)).at
              w h)) [ inl none ↦ inl none | inr allowed ↦ inr (asked, e, allowed) ])

  report_keeps :
      (result : Result Requeue)
      → Spares E (NoneDeleted E) (
          asks E exists >>= λ existing.
          attempt (when existing (update_status_slot E Slots.managed_ocs)) >>= λ status.
          first_error E create_or_update result status)
  report_keeps result =
      search
        (
          spares_rules, Spares-first_error, WritesOnly-Reads, WritesOnly-Fields,
          WritesOnly-update_status_slot, NoDeletion-Statuses,
        )
        depth 20

  -- Where `CreateOrUpdate` does what its documentation says, a whole run, on any request and in any
  -- state whose journal has no deletion, adds none to it, unless the resource is found to be in
  -- deletion, or there is none and the uninstallation was asked for, or it was asked for on an
  -- existing resource, the components are ready once the resources are reconciled, and the search
  -- for volumes or consumers of the storage then answers that there are none.
  pub reconcile-deletes_only_for_reason :
      (name namespace : String) (w : World E)
      → NoneDeleted E w
      → NoneDeleted E (reconcile E create_or_update name namespace w).1
        ⊎ HasReason E create_or_update (start E create_or_update name namespace w).1
  unfolding reconcile
  reconcile-deletes_only_for_reason name namespace w h =
      bind-guarded (NoneDeleted E) _ _ (start E create_or_update name namespace) w
        (Spares-start E (NoneDeleted E) (WritesOnly-Reads E NoDeletion)
          (WritesOnly-Fields E NoDeletion) create_or_update name namespace)
        h
        (λ u e.
          let s = (start E create_or_update name namespace w).1 in
          guarded-bind (NoneDeleted E) _ (attempt (reconcile_phases E create_or_update)) _ s
            (attempt-guarded (NoneDeleted E) _ (reconcile_phases E create_or_update) s (
              phases-guarded s (
                (Spares-start E (NoneDeleted E) (WritesOnly-Reads E NoDeletion)
                    (WritesOnly-Fields E NoDeletion) create_or_update name namespace).at
                  w h)))
            report_keeps)
