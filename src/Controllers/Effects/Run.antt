-- ===== src/Controllers/Effects/Run.antt =====
-- What the phases of a run write.
use ocs_osd_deployer.Base.{String, Option}
use ocs_osd_deployer.Kube.Exec.{Result, ok, err, panic}
use ocs_osd_deployer.Kube.Keeps.{keeps_rules}
use ocs_osd_deployer.Kube.Object.{Kind, Object}
use ocs_osd_deployer.Kube.Env.{Env}
use ocs_osd_deployer.Base.Int.{ℤ}
use ocs_osd_deployer.Controllers.State.{Reconciler, Slot, World}
use ocs_osd_deployer.Controllers.Actions.{CreateOrUpdate, IsCreateOrUpdate}
use ocs_osd_deployer.Controllers.Effects.{Footprint, Reads, Fields, Spares, KeepsSlot}
use ocs_osd_deployer.Controllers.Effects.Calls.{spares_rules}
use ocs_osd_deployer.Controllers.Effects.Resources.{
  Spares-reconcile_rook_ceph_operator_config, Spares-reconcile_storage_cluster,
  Spares-reconcile_egress_network_policy, Spares-reconcile_egress_firewall,
  Spares-reconcile_ingress_network_policy, Spares-reconcile_ceph_ingress_network_policy,
  Spares-reconcile_provider_api_server_network_policy,
  Spares-reconcile_prometheus_proxy_network_policy, Spares-reconcile_onboarding_validation_secret,
  Spares-reconcile_csi_kms_connection_details_config_map,
  Spares-reconcile_alert_relabel_config_secret, Spares-reconcile_prometheus_kube_rbac_config_map,
}
use ocs_osd_deployer.Controllers.Effects.Monitoring.{
  Spares-reconcile_csv, Spares-reconcile_odf_subscription, Spares-reconcile_ocs_initialization,
  Spares-reconcile_monitoring_resources, Spares-reconcile_prometheus_service,
  Spares-reconcile_prometheus, Spares-reconcile_dms_prometheus_rule, Spares-reconcile_alertmanager,
  Spares-reconcile_k8s_metrics_service_monitor, Spares-reconcile_alertmanager_config,
}
use ocs_osd_deployer.Controllers.Status.{
  storage_cluster_status, stateful_set_status, component_status, set_components,
  update_component_status, check_uninstall_condition,
}
use ocs_osd_deployer.Controllers.Removal.{
  has_ocs_volumes, has_ocs_storage_consumers, is_in_use, Requeue,
}
use ocs_osd_deployer.Controllers.Phases.{
  ensure_finalizer, params_or_raise, prepare, reconcile_resources, before_uninstall, first_error,
  start,
}

module _ (E : Env) (I : World E → Type 0) (reads : Reads E I) where
  pub Spares-check_uninstall_condition : Spares E I (check_uninstall_condition E)
  unfolding check_uninstall_condition
  Spares-check_uninstall_condition = search spares_rules depth 20

  Spares-storage_cluster_status : Spares E I (storage_cluster_status E)
  unfolding storage_cluster_status
  Spares-storage_cluster_status = search spares_rules depth 20

  Spares-stateful_set_status :
      (name : String) (replicas : Reconciler → Option ℤ) (r : Result (Unit {0}))
      → Spares E I (stateful_set_status E name replicas r)
  unfolding stateful_set_status
  Spares-stateful_set_status name replicas (ok u) = search spares_rules depth 20
  Spares-stateful_set_status name replicas (err e) = search spares_rules depth 20
  Spares-stateful_set_status name replicas panic = search spares_rules depth 20

  pub Spares-component_status :
      {k : Kind} (slot : Slot k) (name : String) (replicas : Reconciler → Option ℤ)
      → KeepsSlot slot
      → Spares E I (component_status E slot name replicas)
  unfolding component_status
  Spares-component_status slot name replicas foreign =
      search (spares_rules, Spares-stateful_set_status) depth 20

  Spares-has_ocs_volumes : Spares E I (has_ocs_volumes E)
  unfolding has_ocs_volumes
  Spares-has_ocs_volumes = search spares_rules depth 20

  Spares-has_ocs_storage_consumers : Spares E I (has_ocs_storage_consumers E)
  unfolding has_ocs_storage_consumers
  Spares-has_ocs_storage_consumers = search spares_rules depth 20

  pub Spares-is_in_use : (t : String) → Spares E I (is_in_use E t)
  unfolding is_in_use
  Spares-is_in_use t =
      search (spares_rules, Spares-has_ocs_volumes, Spares-has_ocs_storage_consumers) depth 20

  module _ (fields : Fields E I) where
    pub Spares-update_component_status : Spares E I (update_component_status E)
    unfolding update_component_status set_components
    Spares-update_component_status =
        search (spares_rules, Spares-storage_cluster_status, Spares-component_status) depth 40

    module _ (create_or_update : CreateOrUpdate E) where
      pub Spares-start :
          (name namespace : String) → Spares E I (start E create_or_update name namespace)
      unfolding start
      Spares-start name namespace = search spares_rules depth 20

module _ (E : Env) (I : World E → Type 0) where
  pub Spares-params_or_raise : (r : Result (Object Kind.secret)) → Spares E I (params_or_raise E r)
  unfolding params_or_raise
  Spares-params_or_raise (ok secret) = search keeps_rules
  Spares-params_or_raise (err e) = search keeps_rules
  Spares-params_or_raise panic = search keeps_rules

  module _ (create_or_update : CreateOrUpdate E) where
    pub Spares-first_error :
        (r : Result Requeue) (status : Result (Unit {0}))
        → Spares E I (first_error E create_or_update r status)
    Spares-first_error (err e) status = search keeps_rules
    Spares-first_error (ok result) (err e) = search keeps_rules
    Spares-first_error (ok result) (ok u) = search keeps_rules
    Spares-first_error (ok result) panic = search keeps_rules
    Spares-first_error panic status = search keeps_rules

module _ (E : Env) (I : World E → Type 0) (allowed : Footprint E I) (fields : Fields E I) where
  pub Spares-ensure_finalizer : Spares E I (ensure_finalizer E)
  unfolding ensure_finalizer
  Spares-ensure_finalizer = search spares_rules depth 20

  pub Spares-prepare : Spares E I (prepare E)
  unfolding prepare
  Spares-prepare = search (spares_rules, Spares-ensure_finalizer, Spares-params_or_raise) depth 40

module _ (E : Env) (I : World E → Type 0) (allowed : Footprint E I)
    (create_or_update : CreateOrUpdate E) (law : IsCreateOrUpdate E create_or_update) where
  pub Spares-reconcile_resources : Spares E I (reconcile_resources E create_or_update)
  unfolding reconcile_resources
  Spares-reconcile_resources =
      search
        (
          spares_rules, Spares-reconcile_odf_subscription,
          Spares-reconcile_rook_ceph_operator_config, Spares-reconcile_onboarding_validation_secret,
          Spares-reconcile_storage_cluster, Spares-reconcile_csv,
          Spares-reconcile_csi_kms_connection_details_config_map,
          Spares-reconcile_alert_relabel_config_secret,
          Spares-reconcile_prometheus_kube_rbac_config_map, Spares-reconcile_prometheus_service,
          Spares-reconcile_prometheus, Spares-reconcile_alertmanager,
          Spares-reconcile_alertmanager_config, Spares-reconcile_k8s_metrics_service_monitor,
          Spares-reconcile_monitoring_resources, Spares-reconcile_dms_prometheus_rule,
          Spares-reconcile_ocs_initialization, Spares-reconcile_prometheus_proxy_network_policy,
          Spares-reconcile_egress_firewall, Spares-reconcile_egress_network_policy,
          Spares-reconcile_ingress_network_policy, Spares-reconcile_ceph_ingress_network_policy,
          Spares-reconcile_provider_api_server_network_policy,
        )
        depth 60

  pub Spares-before_uninstall : Fields E I → Spares E I (before_uninstall E create_or_update)
  unfolding before_uninstall
  Spares-before_uninstall fields =
      search (spares_rules, Spares-prepare, Spares-reconcile_resources) depth 20
