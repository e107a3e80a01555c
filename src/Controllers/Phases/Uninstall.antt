-- ===== src/Controllers/Phases/Uninstall.antt =====
-- When a run deletes something: only where an uninstallation was asked for, the components are
-- ready, and no volume and no consumer is left.
use ocs_osd_deployer.Base.{if◌then◌else◌, ◌≡◌, refl, ◌⊎◌, inl, inr, Bool, true, false, ◌&&◌}
use ocs_osd_deployer.Kube.Exec.{ok, pure, ◌>>=◌}
use ocs_osd_deployer.Kube.Keeps.{Keeps, bind-guarded}
use ocs_osd_deployer.Kube.Env.{Env}
use ocs_osd_deployer.Controllers.State.{World}
use ocs_osd_deployer.Controllers.Actions.{asks, CreateOrUpdate, IsCreateOrUpdate}
use ocs_osd_deployer.Controllers.Effects.Writes.{
  WritesOnly-Reads, WritesOnly-Fields, WritesOnly-Footprint, NoDeletion, NoneDeleted,
  NoDeletion-Allows,
}
use ocs_osd_deployer.Controllers.Effects.Run.{Spares-is_in_use, Spares-before_uninstall}
use ocs_osd_deployer.Controllers.Status.{are_components_ready_for_uninstall}
use ocs_osd_deployer.Controllers.Removal.{
  done, requeue_after_10s, is_in_use, uninstall, delete_managed_ocs,
}
use ocs_osd_deployer.Controllers.Phases.{before_uninstall, reconcile_existing}

-- The request, the state of the components and the answer of `hasOCSVolumes` or
-- `hasOCSStorageConsumers`.
unfoldable pub IsUninstallAllowed : (E : Env) → Bool → World E → Type 0
IsUninstallAllowed E asked w =
    (asked ≡ true)
    × ((are_components_ready_for_uninstall w.reconciler ≡ true)
        × ((is_in_use E w.reconciler.config.deployment_type w).0 ≡ ok false))

module _ (E : Env) (create_or_update : CreateOrUpdate E)
    (law : IsCreateOrUpdate E create_or_update) where
  module _ (w : World E) (h : NoneDeleted E w) where
    -- Only `false` goes on to the deletion.
    decide :
        (found : Bool)
        → (is_in_use E w.reconciler.config.deployment_type w).0 ≡ ok found
        → NoneDeleted E
            ((if found then pure requeue_after_10s else delete_managed_ocs E)
              (is_in_use E w.reconciler.config.deployment_type w).1).1
          ⊎ ((is_in_use E w.reconciler.config.deployment_type w).0 ≡ ok false)
    unfolding ◌>>=◌
    decide true e = inl (
        (Spares-is_in_use E (NoneDeleted E) (WritesOnly-Reads E NoDeletion)
            w.reconciler.config.deployment_type).at
          w h)
    decide false e = inr e

    uninstall-guarded :
        NoneDeleted E (uninstall E w).1
        ⊎ ((is_in_use E w.reconciler.config.deployment_type w).0 ≡ ok false)
    unfolding uninstall asks ◌>>=◌
    uninstall-guarded =
        bind-guarded (NoneDeleted E) _
          (λ found. if found then pure requeue_after_10s else delete_managed_ocs E)
          (is_in_use E w.reconciler.config.deployment_type) w
          (Spares-is_in_use E (NoneDeleted E) (WritesOnly-Reads E NoDeletion) _) h
          (λ found e. decide found e)

    when_ready-guarded :
        (b ready : Bool)
        → are_components_ready_for_uninstall w.reconciler ≡ ready
        → NoneDeleted E ((if b && ready then uninstall E else pure done) w).1
          ⊎ IsUninstallAllowed E b w
    unfolding ◌>>=◌ IsUninstallAllowed
    when_ready-guarded true true e = elim uninstall-guarded [
      | inl d ↦ inl d
      | inr u ↦ inr (refl, (e, u))
    ]
    when_ready-guarded true false e = inl h
    when_ready-guarded false ready e = inl h

  NoneDeleted-before_uninstall : Keeps (NoneDeleted E) (before_uninstall E create_or_update)
  NoneDeleted-before_uninstall =
      Spares-before_uninstall E (NoneDeleted E)
        (WritesOnly-Footprint E NoDeletion NoDeletion-Allows) create_or_update law
        (WritesOnly-Fields E NoDeletion)

  module _ (b : Bool) (w : World E) (h : NoneDeleted E w) where
    -- A run of `reconcilePhases` on a resource that exists and is not deleted deletes nothing,
    -- unless it was asked to uninstall, the components are ready once the resources are reconciled,
    -- and the search for volumes or consumers of the storage then answers that there are none.
    pub reconcile_existing-deletes_only_if_free :
        NoneDeleted E (reconcile_existing E create_or_update b w).1
        ⊎ IsUninstallAllowed E b (before_uninstall E create_or_update w).1
    unfolding reconcile_existing asks ◌>>=◌
    reconcile_existing-deletes_only_if_free =
        bind-guarded (NoneDeleted E) _
          (λ _. asks E are_components_ready_for_uninstall >>= λ ready.
            if b && ready then uninstall E else pure done)
          (before_uninstall E create_or_update) w (NoneDeleted-before_uninstall) h
          (λ _ _.
            when_ready-guarded (before_uninstall E create_or_update w).1
              ((NoneDeleted-before_uninstall).at w h) b _ refl)
