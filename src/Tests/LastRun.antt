-- ===== src/Tests/LastRun.antt =====
-- The last run on a deleted resource, in a cluster that removes the resource with its finalizer.
use ocs_osd_deployer.Base.{String, str_eq, if◌then◌else◌, ℕ, ◌≡◌, refl, true, false, some, [], ◌∷◌}
use ocs_osd_deployer.Api.{pending, reconcile_strategy_strict}
use ocs_osd_deployer.Kube.Exec
use ocs_osd_deployer.Kube.Exec.{Result, ok, err, attempt, attempted, wrap, wrap_result, ◌>>=◌}
use ocs_osd_deployer.Kube.Object.{Kind, Object}
use ocs_osd_deployer.Kube.Env.{Env}
use ocs_osd_deployer.Utils.Slices.{contains}
use ocs_osd_deployer.Controllers.State.{
  World, updated, status_updated, managed_ocs_finalizer, ocs_operator_name,
}
use ocs_osd_deployer.Controllers.Actions.{
  CreateOrUpdate, documented, asks, assign, get, refresh, call, ignore_not_found, delete, list,
  emit, or_raise,
}
use ocs_osd_deployer.Controllers.Status.{
  check_uninstall_condition, update_component_status, has_label,
}
use ocs_osd_deployer.Controllers.Status.Missing.{storage_answer}
use ocs_osd_deployer.Controllers.Operators.{delete_csv_by_prefix, get_csv_by_prefix, delete_found}
use ocs_osd_deployer.Controllers.Phases.{start, reconcile, is_deleted, exists}
use ocs_osd_deployer.Controllers.Phases.Finish.{csv_deleted, sent, updated_world}
use ocs_osd_deployer.Controllers.Phases.LastRun.{reconcile-finishes}
use ocs_osd_deployer.Tests.Scene.{namespace, env, managed_ocs_obj, reconciler}

abbrev resource : Object Kind.managed_ocs
resource = record (managed_ocs_obj pending) {
  metadata = record (managed_ocs_obj pending).metadata {
    finalizers = managed_ocs_finalizer ∷ [];
    deletion_timestamp = some "2023-01-01T00:00:00Z";
  };
}

abbrev read : (k : Kind) → String → String → ℕ → Result (Object k) × ℕ
read Kind.managed_ocs name ns n = (ok resource, n)
read k name ns n = (err Exec.not_found, n)

abbrev leaving : Env
leaving = record env { get = read; update_status = λ k obj n. (err Exec.not_found, n) }

abbrev write : CreateOrUpdate leaving
write k slot mutate = documented leaving slot mutate

abbrev first : World leaving
first = record {
  reconciler = reconciler pending reconcile_strategy_strict [];
  cluster = 0;
  journal = [];
}

abbrev begun : World leaving
begun = (start leaving write "managedocs" namespace first).1

abbrev asked_world : World leaving
asked_world = (check_uninstall_condition leaving begun).1

abbrev decided : World leaving
decided = (update_component_status leaving asked_world).1

abbrev answer : Object Kind.managed_ocs
answer = sent leaving decided

starts : start leaving write "managedocs" namespace first ≡ (ok tt, begun)
unfolding start asks assign refresh get call ignore_not_found ◌>>=◌
starts = refl

checked : check_uninstall_condition leaving begun ≡ (ok false, asked_world)
unfolding start asks assign refresh get call ignore_not_found check_uninstall_condition has_label
    ◌>>=◌
checked = refl

status_read : update_component_status leaving asked_world ≡ (ok tt, decided)
unfolding start asks assign refresh get call ignore_not_found check_uninstall_condition
    update_component_status has_label ◌>>=◌
status_read = refl

operator_deleted : (delete_csv_by_prefix leaving ocs_operator_name decided).0 ≡ ok tt
unfolding start asks assign refresh get call ignore_not_found check_uninstall_condition
    update_component_status has_label delete_csv_by_prefix get_csv_by_prefix delete_found delete
    list emit or_raise attempt attempted wrap wrap_result ◌>>=◌
operator_deleted = refl

gone : (storage_answer leaving asked_world).0 ≡ err Exec.not_found
gone = refl

deleting : is_deleted decided.reconciler ≡ true
unfolding start asks assign refresh get call ignore_not_found check_uninstall_condition
    update_component_status has_label ◌>>=◌
deleting = refl

there : exists (updated_world leaving decided answer).reconciler ≡ true
unfolding start asks assign refresh get call ignore_not_found check_uninstall_condition
    update_component_status has_label delete_csv_by_prefix get_csv_by_prefix delete_found delete
    list emit or_raise attempt attempted wrap wrap_result ◌>>=◌
there = refl

reconcile-finishes_example :
    let end = reconcile leaving write "managedocs" namespace first in
    ((finalizer : String)
      → contains (sent leaving decided).metadata.finalizers finalizer ≡ (
          if str_eq managed_ocs_finalizer finalizer
          then false
          else contains
              (csv_deleted leaving decided).reconciler.managed_ocs.metadata.finalizers
              finalizer))
    × (end.0 ≡ err Exec.not_found)
    × (end.1.journal
        ≡ status_updated Kind.managed_ocs answer.metadata.name
          ∷ (updated Kind.managed_ocs (sent leaving decided).metadata.name
              ∷ (csv_deleted leaving decided).journal))
reconcile-finishes_example =
    reconcile-finishes leaving write "managedocs" namespace first begun asked_world decided false
      answer starts checked gone status_read deleting operator_deleted refl there
