-- ===== src/Controllers/Status/Missing.antt =====
-- A storage cluster that is gone is seen to be gone.
use ocs_osd_deployer.Base.{◌≡◌, refl, ap, ◌∙◌, true}
use ocs_osd_deployer.Api.{not_found}
use ocs_osd_deployer.Kube.Exec
use ocs_osd_deployer.Kube.Exec.{Result, ok, err, ◌>>=◌}
use ocs_osd_deployer.Kube.Keeps.{bind_then, bind_from}
use ocs_osd_deployer.Kube.Object.{Kind, Object}
use ocs_osd_deployer.Kube.Env.{Env}
use ocs_osd_deployer.Controllers.State.{World}
use ocs_osd_deployer.Controllers.Actions.{asks, assign, call, get, refresh}
use ocs_osd_deployer.Controllers.Effects.{Reads}
use ocs_osd_deployer.Controllers.Effects.Calls.{spares_rules}
use ocs_osd_deployer.Controllers.Effects.Run.{Spares-component_status}
use ocs_osd_deployer.Controllers.Status.{
  components, storage_cluster_status, set_components, update_component_status,
  verify_components_do_not_exist,
}

module _ (E : Env) where
  abbrev StorageGone : World E → Type 0
  StorageGone w = (components w.reconciler).storage_cluster ≡ not_found

  StorageGone-Reads : Reads E StorageGone
  StorageGone-Reads = record {
    calls = λ w cluster h. h;
    assigns = λ f kept w h. ap (λ p. p.0.storage_cluster) (kept w.reconciler) ∙ h;
  }

  module _ (w : World E) where
    abbrev pub storage_answer : Result (Object Kind.storage_cluster) × E.Cluster
    storage_answer =
        let meta = w.reconciler.storage_cluster.metadata in
        E.get Kind.storage_cluster meta.name meta.namespace w.cluster

    missing_status :
        storage_answer.0 ≡ err Exec.not_found
        → storage_cluster_status E w ≡ (ok not_found, record w { cluster = storage_answer.1 })
    unfolding storage_cluster_status refresh get call asks assign ◌>>=◌
    missing_status gone = rw gone refl

    pub update_component_status-StorageGone :
        storage_answer.0 ≡ err Exec.not_found → StorageGone (update_component_status E w).1
    unfolding update_component_status set_components assign
    update_component_status-StorageGone gone =
        bind_then StorageGone _ (storage_cluster_status E) w not_found _ (missing_status gone) (
          bind_from StorageGone _ (set_components E (λ c. record c { storage_cluster = not_found }))
            (record w { cluster = storage_answer.1 }) refl
            (λ _. search (spares_rules, StorageGone-Reads, Spares-component_status) depth 30))

    pub missing-verify :
        storage_answer.0 ≡ err Exec.not_found
        → verify_components_do_not_exist (update_component_status E w).1.reconciler ≡ true
    unfolding verify_components_do_not_exist
    missing-verify gone = rw (update_component_status-StorageGone gone) refl
