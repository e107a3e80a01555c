-- ===== src/Tests/Lifecycle.antt =====
-- Runs of the reconciler in the phases of its lifecycle.
use ocs_osd_deployer.Base.{◌≡◌, refl}
use ocs_osd_deployer.Kube.Exec.{◌>>=◌}
use ocs_osd_deployer.Controllers.Actions.{
  asks, assign, get, refresh, call, update_slot, update, emit, ignore_not_found,
}
use ocs_osd_deployer.Controllers.Status.{
  check_uninstall_condition, update_component_status, has_label,
}
use ocs_osd_deployer.Controllers.Phases.{
  start, reconcile, before_uninstall, prepare, ensure_finalizer, params_or_raise,
}
use ocs_osd_deployer.Controllers.Lifecycle.{Phase, IsRun, phase}
use ocs_osd_deployer.Controllers.Lifecycle.Refines.{reconcile-IsRun}
use ocs_osd_deployer.Tests.Scene.{namespace, env, create_or_update}
use ocs_osd_deployer.Tests.Runs.{idle_world}

reconcile-IsRun_example :
    IsRun
      (phase env create_or_update "managedocs" namespace idle_world)
      (reconcile env create_or_update "managedocs" namespace idle_world).1.journal
reconcile-IsRun_example =
    reconcile-IsRun env create_or_update (λ k slot mutate. refl) "managedocs" namespace idle_world
      refl

-- The resource exists and nobody asked to uninstall.
idle_world-phase : phase env create_or_update "managedocs" namespace idle_world ≡ Phase.reconciling
unfolding phase start asks assign refresh get call ignore_not_found check_uninstall_condition
    has_label update_component_status before_uninstall prepare ensure_finalizer params_or_raise
    update_slot update emit ◌>>=◌
idle_world-phase = refl
