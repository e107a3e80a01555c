-- ===== src/Controllers/Phases/Steady.antt =====
-- The component status that a run has read is the one that it reports.
use ocs_osd_deployer.Base.{String, str_eq, ◌≡◌, refl, ap, ◌∙◌, Bool, true, false, not}
use ocs_osd_deployer.Api.{ComponentStatusMap}
use ocs_osd_deployer.Kube.Exec.{ok, continue, pure, when, ◌>>=◌}
use ocs_osd_deployer.Kube.Keeps.{bind_from}
use ocs_osd_deployer.Kube.Env.{Env}
use ocs_osd_deployer.Controllers.State.{World}
use ocs_osd_deployer.Controllers.Actions.{M, asks, CreateOrUpdate, IsCreateOrUpdate}
use ocs_osd_deployer.Controllers.Effects.{reported, Footprint}
use ocs_osd_deployer.Controllers.Effects.Calls.{spares_rules}
use ocs_osd_deployer.Controllers.Effects.Run.{Spares-reconcile_resources, Spares-params_or_raise}
use ocs_osd_deployer.Controllers.Status.{check_uninstall_condition, update_component_status}
use ocs_osd_deployer.Controllers.Phases.{
  is_deleted, exists, has_finalizer, ensure_finalizer, prepare, before_uninstall,
  reconcile_existing, reconcile_phases,
}
use ocs_osd_deployer.Controllers.Phases.Deletes.{branch}

module _ (E : Env) (report : ComponentStatusMap × String) where
  -- The report would still be this one.
  abbrev Reports : World E → Type 0
  Reports w = reported w.reconciler ≡ report

  Reports-Footprint : Footprint E Reports
  Reports-Footprint = record {
    reads = record { calls = λ w cluster h. h; assigns = λ f kept w h. kept w.reconciler ∙ h };
    creates = λ k name is w h. h;
    updates = λ k name is w h. h;
  }

  -- With its finalizer the resource is not updated.
  when_missing :
      (present : Bool) (m : M E (Unit {0})) (w : World E)
      → present ≡ true
      → Reports w
      → Reports (when (not present) m w).1
  unfolding pure
  when_missing true m w there h = h
  when_missing false m w there h = absurd cc

  prepare-Reports :
      (w : World E) → has_finalizer w.reconciler ≡ true → Reports w → Reports (prepare E w).1
  unfolding prepare ensure_finalizer asks ◌>>=◌
  prepare-Reports w there h =
      bind_from Reports _ (ensure_finalizer E) w (when_missing _ _ w there h)
        (λ _. search (spares_rules, Reports-Footprint, Spares-params_or_raise) depth 40)

module _ (E : Env) (create_or_update : CreateOrUpdate E) (law : IsCreateOrUpdate E create_or_update)
    (w : World E) (there : has_finalizer w.reconciler ≡ true) where
  abbrev Stays : World E → Type 0
  Stays = Reports E (reported w.reconciler)

  before_uninstall-Reports : Stays (before_uninstall E create_or_update w).1
  unfolding before_uninstall
  before_uninstall-Reports =
      bind_from Stays _ (prepare E) w (prepare-Reports E (reported w.reconciler) w there refl)
        (λ _. search (spares_rules, Reports-Footprint, Spares-reconcile_resources) depth 40)

  reconcile_existing-Reports : Stays (reconcile_existing E create_or_update false w).1
  unfolding reconcile_existing
  reconcile_existing-Reports =
      bind_from Stays _ (before_uninstall E create_or_update) w before_uninstall-Reports
        (λ _. search (spares_rules, Reports-Footprint) depth 20)

  branch-Reports :
      (deleted existing : Bool)
      → deleted ≡ false
      → existing ≡ true
      → Stays (branch E create_or_update false deleted existing w).1
  branch-Reports false true d e = reconcile_existing-Reports
  branch-Reports true existing d e = absurd cc
  branch-Reports false false d e = absurd cc

module _ (E : Env) where
  -- The world after the component status, in a run that goes on to reconcile a resource which has
  -- its finalizer, without a request to uninstall.
  pub record IsSteady (begun decided : World E) : Type 0 where
    pub unasked : (check_uninstall_condition E begun).0 ≡ ok false
    pub read : update_component_status E (check_uninstall_condition E begun).1 ≡ (ok tt, decided)
    pub kept : is_deleted decided.reconciler ≡ false
    pub there : exists decided.reconciler ≡ true
    pub marked : has_finalizer decided.reconciler ≡ true

module _ (E : Env) (create_or_update : CreateOrUpdate E)
    (law : IsCreateOrUpdate E create_or_update) where
  module _ (s s3 : World E) (steady : IsSteady E s s3) where
    pub phases-Reports :
        reported (reconcile_phases E create_or_update s).1.reconciler ≡ reported s3.reconciler
    unfolding reconcile_phases asks ◌>>=◌
    phases-Reports =
        rw (steady.unasked, continue, steady.read)
          (branch-Reports E create_or_update law s3 steady.marked _ _ steady.kept steady.there)

    pub still_there :
        (s4 : World E)
        → reported s4.reconciler ≡ reported s3.reconciler
        → exists s4.reconciler ≡ true
    still_there s4 same = ap (λ p. not (str_eq p.1 "")) same ∙ steady.there
