-- ===== src/Tests/Probe.antt =====
-- A run and the probe in a cluster that stores the resource.
use ocs_osd_deployer.Base.{String, ◌≡◌, ◌↔◌, refl, [], ◌∷◌}
use ocs_osd_deployer.Api.{ready, pending, reconcile_strategy_strict}
use ocs_osd_deployer.Kube.Exec.{Result, ok, err, message, ◌>>=◌}
use ocs_osd_deployer.Kube.Exec
use ocs_osd_deployer.Kube.Object.{Kind, Object}
use ocs_osd_deployer.Kube.Env.{Env}
use ocs_osd_deployer.Utils.Slices.{contains}
use ocs_osd_deployer.Controllers.State.{World, managed_ocs_finalizer}
use ocs_osd_deployer.Controllers.Actions.{
  CreateOrUpdate, documented, asks, assign, get, refresh, call, ignore_not_found,
}
use ocs_osd_deployer.Controllers.Status.{
  components, check_uninstall_condition, update_component_status, has_label,
}
use ocs_osd_deployer.Controllers.Phases.{
  start, reconcile, reconcile_phases, reconcile_existing, before_uninstall, prepare,
  ensure_finalizer, params_or_raise,
}
use ocs_osd_deployer.Controllers.Phases.Steady.{IsSteady}
use ocs_osd_deployer.Controllers.Phases.Probe.{IsStored, handle-reconcile}
use ocs_osd_deployer.Readiness.{handle}
use ocs_osd_deployer.Tests.Scene.{namespace, env, managed_ocs_obj, storage_cluster_obj, reconciler}

abbrev resource : Object Kind.managed_ocs
resource = record (managed_ocs_obj pending) {
  metadata = record (managed_ocs_obj pending).metadata { finalizers = managed_ocs_finalizer ∷ [] };
}

abbrev read :
    (k : Kind)
    → String
    → String
    → Object Kind.managed_ocs
    → Result (Object k) × Object Kind.managed_ocs
read Kind.managed_ocs name ns stored = (ok stored, stored)
read Kind.storage_cluster name ns stored = (ok storage_cluster_obj, stored)
read k name ns stored = (err Exec.not_found, stored)

abbrev report :
    (k : Kind) → Object k → Object Kind.managed_ocs → Result (Object k) × Object Kind.managed_ocs
report Kind.managed_ocs obj stored = (ok obj, obj)
report k obj stored = (err Exec.not_found, stored)

-- The cluster is the resource.
abbrev storing : Env
storing = record {
  Cluster = Object Kind.managed_ocs;
  get = read;
  list = λ k ns limit stored. (ok [], stored);
  create = λ k obj stored. (ok obj, stored);
  update = λ k obj stored. (ok obj, stored);
  update_status = report;
  delete = λ k obj stored. (ok tt, stored);
  set_controller_reference = env.set_controller_reference;
  same_object = env.same_object;
  same_requirements = env.same_requirements;
  parse_quantity = env.parse_quantity;
  is_negative = env.is_negative;
  hostname = env.hostname;
  read_file = env.read_file;
  yaml_relabel_configs = env.yaml_relabel_configs;
  yaml_requirements = env.yaml_requirements;
  json_texts = env.json_texts;
}

abbrev write : CreateOrUpdate storing
write k slot mutate = documented storing slot mutate

abbrev first : World storing
first = record {
  reconciler = reconciler pending reconcile_strategy_strict [];
  cluster = resource;
  journal = [];
}

abbrev begun : World storing
begun = (start storing write "managedocs" namespace first).1

abbrev decided : World storing
decided = (update_component_status storing (check_uninstall_condition storing begun).1).1

abbrev ended : World storing
ended = (reconcile_phases storing write begun).1

starts : start storing write "managedocs" namespace first ≡ (ok tt, begun)
unfolding start asks assign refresh get call ignore_not_found ◌>>=◌
starts = refl

steady : IsSteady storing begun decided
unfolding start asks assign refresh get call ignore_not_found check_uninstall_condition
    update_component_status has_label contains ◌>>=◌
steady = record { unasked = refl; read = refl; kept = refl; there = refl; marked = refl }

runs :
    reconcile_phases storing write begun
    ≡ (err (message "Failed to get the addon parameters secret"), ended)
unfolding start asks assign refresh get call ignore_not_found check_uninstall_condition
    update_component_status has_label contains reconcile_phases reconcile_existing before_uninstall
    prepare ensure_finalizer params_or_raise ◌>>=◌
runs = refl

stored : IsStored storing "managedocs" namespace ended.reconciler.managed_ocs ended.cluster
stored = record {
  answer = ended.reconciler.managed_ocs;
  answered = refl;
  found = ended.reconciler.managed_ocs;
  finds = refl;
  same = refl;
}

handle-reconcile_example :
    ((handle storing "managedocs" namespace
        (reconcile storing write "managedocs" namespace first).1.cluster).0
      ≡ 200)
    ↔ (components decided.reconciler
        ≡ record { storage_cluster = ready; prometheus = ready; alertmanager = ready })
handle-reconcile_example =
    handle-reconcile storing write (λ k slot mutate. refl) "managedocs" namespace first begun
      decided ended _ starts steady runs (λ e. cc) stored
