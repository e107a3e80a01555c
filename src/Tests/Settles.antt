-- ===== src/Tests/Settles.antt =====
-- The mutations of the monitoring objects, called twice.
use ocs_osd_deployer.Base.{◌≡◌, ap, sym, ◌∙◌, List, [], ◌∷◌}
use ocs_osd_deployer.Api.{ready, reconcile_strategy_strict}
use ocs_osd_deployer.Kube.Exec.{Result, ok}
use ocs_osd_deployer.Kube.Object.{ObjectMeta, OwnerReference}
use ocs_osd_deployer.Kube.Env.{Env}
use ocs_osd_deployer.Controllers.State.{World}
use ocs_osd_deployer.Controllers.Monitoring.{
  mutate_service, mutate_dms_rule, mutate_alertmanager, mutate_k8s_metrics,
}
use ocs_osd_deployer.Controllers.Settles.{IsOwning, mutate_monitoring-settles}
use ocs_osd_deployer.Tests.Scene.{env, reconciler}

abbrev references : ObjectMeta → List OwnerReference
references owner =
    record {
      api_version = "ocs.openshift.io/v1alpha1";
      kind = "ManagedOCS";
      name = owner.name;
      uid = "";
    }
    ∷ []

abbrev refer : ObjectMeta → ObjectMeta → Result ObjectMeta
refer owner obj = ok (record obj { owner_references = references owner })

abbrev owning_env : Env
owning_env = record env { set_controller_reference = refer }

abbrev owning_world : World owning_env
owning_world = record {
  reconciler = reconciler ready reconcile_strategy_strict [];
  cluster = 0;
  journal = [];
}

refer-owned :
    (owner before after : ObjectMeta)
    → refer owner before ≡ ok after
    → references owner ≡ after.owner_references
refer-owned owner before after h =
    let written : record before { owner_references = references owner } ≡ after = cc in
    ap (λ (m : ObjectMeta). m.owner_references) written

refer-IsOwning : IsOwning owning_env
refer-IsOwning owner before after h meta same_name same_namespace same_owners =
    ap (λ (references : List OwnerReference). ok (record meta { owner_references = references }))
      (refer-owned owner before after h ∙ sym same_owners)

mutate_monitoring-settles_example :
    (mutate_service owning_env (mutate_service owning_env owning_world).1
      ≡ mutate_service owning_env owning_world)
    × (mutate_dms_rule owning_env (mutate_dms_rule owning_env owning_world).1
        ≡ mutate_dms_rule owning_env owning_world)
    × (mutate_alertmanager owning_env (mutate_alertmanager owning_env owning_world).1
        ≡ mutate_alertmanager owning_env owning_world)
    × (mutate_k8s_metrics owning_env (mutate_k8s_metrics owning_env owning_world).1
        ≡ mutate_k8s_metrics owning_env owning_world)
mutate_monitoring-settles_example = mutate_monitoring-settles owning_env refer-IsOwning owning_world
