-- ===== src/Controllers/Phases.antt =====
-- `Reconcile` and `reconcilePhases`, and the two checks before an uninstallation.
pub mod Uninstall
pub mod Deletes
pub mod Deletion
pub mod Finish
pub mod LastRun
pub mod Report
pub mod Steady
pub mod Probe
pub mod Volumes
use ocs_osd_deployer.Base.{
  ℕ, String, ◌<>◌, Bool, true, false, not, ◌&&◌, ◌||◌, Option, none, some, List, [], ◌∷◌, ◌++◌,
  str_eq, starts_with, if◌then◌else◌,
}
use ocs_osd_deployer.Base.Dict.{Dict, insert}
use ocs_osd_deployer.Base.Text.{to_lower}
use ocs_osd_deployer.Api.{ReconcileStrategy, reconcile_strategy_none, reconcile_strategy_strict}
use ocs_osd_deployer.Kube.Exec.{
  Error, Result, ok, err, panic, message, is_not_found, pure, raise, crash, attempt, wrap, when,
  for_each, ◌>>=◌, ◌>>◌,
}
use ocs_osd_deployer.Kube.Object.{Kind, Object}
use ocs_osd_deployer.Kube.Env.{Env}
use ocs_osd_deployer.Utils.Slices.{contains, remove}
use ocs_osd_deployer.Controllers.State.{
  Config, Reconciler, World, managed_ocs_finalizer, ocs_operator_name, storage_size_key,
  storage_unit_key, consumer_deployment_type, converged_deployment_type, provider_deployment_type,
}
use ocs_osd_deployer.Controllers.Actions.{
  M, call, asks, assign, get, refresh, update, update_slot, update_status_slot, delete, list,
  ignore_not_found, CreateOrUpdate,
}
use ocs_osd_deployer.Controllers.Slots
use ocs_osd_deployer.Controllers.Removal.{
  Requeue, done, requeue_after_10s, with_finalizers, uninstall, reconcile_deletion,
}
use ocs_osd_deployer.Controllers.Init.{init_reconciler, new_object}
use ocs_osd_deployer.Controllers.Status.{
  update_component_status, verify_components_do_not_exist, are_components_ready_for_uninstall,
  check_uninstall_condition,
}
use ocs_osd_deployer.Controllers.StorageCluster.{reconcile_storage_cluster}
use ocs_osd_deployer.Controllers.Egress.{reconcile_egress_firewall, reconcile_egress_network_policy}
use ocs_osd_deployer.Controllers.Policies.{
  reconcile_ingress_network_policy, reconcile_ceph_ingress_network_policy,
  reconcile_provider_api_server_network_policy, reconcile_prometheus_proxy_network_policy,
}
use ocs_osd_deployer.Controllers.Operators.{
  reconcile_odf_subscription, reconcile_csv, reconcile_ocs_initialization, delete_csv_by_prefix,
  remove_olm_components,
}
use ocs_osd_deployer.Controllers.ConfigMaps.{
  reconcile_rook_ceph_operator_config, reconcile_onboarding_validation_secret,
  reconcile_csi_kms_connection_details_config_map, reconcile_alert_relabel_config_secret,
  reconcile_prometheus_kube_rbac_config_map,
}
use ocs_osd_deployer.Controllers.Prometheus.{reconcile_prometheus}
use ocs_osd_deployer.Controllers.Monitoring.{
  reconcile_prometheus_service, reconcile_alertmanager, reconcile_k8s_metrics_service_monitor,
  reconcile_monitoring_resources, reconcile_dms_prometheus_rule,
}
use ocs_osd_deployer.Controllers.Alerts.{reconcile_alertmanager_config}

-- "none" in any case; anything else is strict.
unfoldable pub effective_strategy : ReconcileStrategy → ReconcileStrategy
unfolding to_lower
effective_strategy strategy =
    if str_eq (to_lower strategy) reconcile_strategy_none
    then reconcile_strategy_none
    else reconcile_strategy_strict

-- The entries of the secret, copied one by one.
abbrev pub add_params : Dict String → Dict String → Dict String
add_params [] params = params
add_params ((key, value) ∷ entries) params = add_params entries (insert key value params)

-- The parameters of a run: a consumer's size is overridden.
unfoldable pub override_params : String → Dict String → Dict String
unfolding insert
override_params deployment_type params =
    if str_eq deployment_type consumer_deployment_type
    then insert storage_unit_key "Ti" (insert storage_size_key "1024" params)
    else params

abbrev pub is_deleted : Reconciler → Bool
is_deleted r = elim r.managed_ocs.metadata.deletion_timestamp [ none ↦ false | some _ ↦ true ]

abbrev pub exists : Reconciler → Bool
exists r = not (str_eq r.managed_ocs.metadata.uid "")

abbrev pub has_finalizer : Reconciler → Bool
has_finalizer r = contains r.managed_ocs.metadata.finalizers managed_ocs_finalizer

abbrev report_strategy : Reconciler → Reconciler
report_strategy r = record r {
  managed_ocs = record r.managed_ocs {
    body = record r.managed_ocs.body {
      status = record r.managed_ocs.body.status { reconcile_strategy = r.reconcile_strategy };
    };
  };
}

module _ (E : Env) where
  unfoldable pub ensure_finalizer : M E (Unit {0})
  unfolding contains
  ensure_finalizer = do
    present ← asks E has_finalizer
    when (not present) (do
      assign E (with_finalizers (λ f. f ++ (managed_ocs_finalizer ∷ [])))
      wrap "failed to update managedOCS with finalizer: " (update_slot E Slots.managed_ocs))

  -- The error of the call is replaced by one of the code's own.
  unfoldable pub params_or_raise : Result (Object Kind.secret) → M E (Object Kind.secret)
  params_or_raise (ok secret) = pure secret
  params_or_raise (err e) = raise (message "Failed to get the addon parameters secret")
  params_or_raise panic = crash

  -- The finalizer, the strategy and the parameters of a run.
  unfoldable pub prepare : M E (Unit {0})
  unfolding ensure_finalizer effective_strategy params_or_raise
  prepare = do
    ensure_finalizer
    assign E (λ r. record r {
      reconcile_strategy = effective_strategy r.managed_ocs.body.reconcile_strategy;
    })
    config ← asks E (λ r. r.config)
    namespace ← asks E (λ r. r.namespace)
    found ←
        attempt (get E (new_object {k = Kind.secret} config.addon_param_secret_name namespace []))
    secret ← params_or_raise found
    assign E (λ r. record r {
      addon_params = override_params config.deployment_type (add_params secret.body r.addon_params);
    })

  module _ (create_or_update : CreateOrUpdate E) where
    -- The resources in the order of the code; the first error ends the run.
    unfoldable pub reconcile_resources : M E (Unit {0})
    reconcile_resources = do
      reconcile_odf_subscription E
      reconcile_rook_ceph_operator_config E
      reconcile_onboarding_validation_secret E create_or_update
      reconcile_storage_cluster E create_or_update
      reconcile_csv E
      reconcile_csi_kms_connection_details_config_map E create_or_update
      reconcile_alert_relabel_config_secret E create_or_update
      reconcile_prometheus_kube_rbac_config_map E create_or_update
      reconcile_prometheus_service E create_or_update
      reconcile_prometheus E create_or_update
      reconcile_alertmanager E create_or_update
      reconcile_alertmanager_config E create_or_update
      reconcile_k8s_metrics_service_monitor E create_or_update
      reconcile_monitoring_resources E
      reconcile_dms_prometheus_rule E create_or_update
      reconcile_ocs_initialization E
      reconcile_prometheus_proxy_network_policy E create_or_update
      reconcile_egress_firewall E create_or_update
      reconcile_egress_network_policy E create_or_update
      reconcile_ingress_network_policy E create_or_update
      reconcile_ceph_ingress_network_policy E create_or_update
      reconcile_provider_api_server_network_policy E create_or_update

    -- What a run does before it looks at a request to uninstall.
    unfoldable pub before_uninstall : M E (Unit {0})
    before_uninstall = do prepare; reconcile_resources; assign E report_strategy

    unfoldable pub reconcile_existing : Bool → M E Requeue
    reconcile_existing initiate_uninstall = do
      before_uninstall
      ready ← asks E are_components_ready_for_uninstall
      if initiate_uninstall && ready then uninstall E else pure done

    unfoldable pub reconcile_phases : M E Requeue
    reconcile_phases = do
      initiate_uninstall ← check_uninstall_condition E
      update_component_status E
      deleted ← asks E is_deleted
      existing ← asks E exists
      if deleted
          then reconcile_deletion E
          else if existing
          then reconcile_existing initiate_uninstall
          else if initiate_uninstall
          then (remove_olm_components E >> pure done)
          else pure done

    -- The error of the phases goes before that of the status.
    abbrev pub first_error : Result Requeue → Result (Unit {0}) → M E Requeue
    first_error (err e) status = raise e
    first_error (ok result) (err e) = raise e
    first_error (ok result) (ok _) = pure result
    first_error (ok result) panic = crash
    first_error panic status = crash

    -- The empty fields, and the resource of the request, if it is there.
    unfoldable pub start : String → String → M E (Unit {0})
    unfolding init_reconciler
    start name namespace = do
      assign E (init_reconciler name namespace)
      found ← attempt (refresh E Slots.managed_ocs)
      ignore_not_found E found

    unfoldable pub reconcile : String → String → M E Requeue
    unfolding start
    reconcile name namespace = do
      start name namespace
      result ← attempt reconcile_phases
      existing ← asks E exists
      status ← attempt (when existing (update_status_slot E Slots.managed_ocs))
      first_error result status
