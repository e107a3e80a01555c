-- ===== src/Controllers/Effects/Monitoring.antt =====
-- What the methods that reconcile operators and monitoring write.
use ocs_osd_deployer.Base.{String, Option, none, some, List, [], ◌∷◌}
use ocs_osd_deployer.Base.Dict.{Dict}
use ocs_osd_deployer.Kube.Keeps.{keeps_rules}
use ocs_osd_deployer.Kube.Object.{Kind, Object}
use ocs_osd_deployer.Kube.Env.{Env}
use ocs_osd_deployer.Controllers.State.{Slot, World}
use ocs_osd_deployer.Controllers.Actions.{M, CreateOrUpdate, IsCreateOrUpdate}
use ocs_osd_deployer.Controllers.Effects.{Footprint, Reads, Spares, KeepsSlot}
use ocs_osd_deployer.Controllers.Effects.Calls.{spares_rules, Spares-create_or_update}
use ocs_osd_deployer.Controllers.Effects.{IsCreated, IsUpdated}
use ocs_osd_deployer.Controllers.Effects.Resources.{Spares-require_text, Spares-refresh_new_secret}
use ocs_osd_deployer.Controllers.Operators.{
  update_ocs_csv, update_mcg_csv, reconcile_one_csv, reconcile_csv, get_csv_by_prefix,
  reconcile_odf_subscription, enable_ceph_tools, reconcile_ocs_initialization,
}
use ocs_osd_deployer.Controllers.Prometheus.{
  require_entry, use_rhobs_secret, set_remote_write, image_or_crash, mutate_prometheus,
  reconcile_prometheus,
}
use ocs_osd_deployer.Controllers.Monitoring.{
  mutate_service, mutate_dms_rule, mutate_alertmanager, mutate_k8s_metrics, label_one, label_all,
  reconcile_monitoring_resources, reconcile_prometheus_service, reconcile_dms_prometheus_rule,
  reconcile_alertmanager, reconcile_k8s_metrics_service_monitor,
}
use ocs_osd_deployer.Controllers.Alerts.{
  read_smtp, read_receiver_values, mutate_alertmanager_config, reconcile_alertmanager_config,
}

module _ (E : Env) (I : World E → Type 0) (reads : Reads E I) where
  pub Spares-get_csv_by_prefix : (prefix : String) → Spares E I (get_csv_by_prefix E prefix)
  unfolding get_csv_by_prefix
  Spares-get_csv_by_prefix prefix = search spares_rules depth 40

module _ (E : Env) (I : World E → Type 0) (allowed : Footprint E I) where
  pub Spares-update_ocs_csv :
      (csv : Object Kind.cluster_service_version) → Spares E I (update_ocs_csv E csv)
  unfolding update_ocs_csv
  Spares-update_ocs_csv csv = search spares_rules depth 40

  pub Spares-update_mcg_csv :
      (csv : Object Kind.cluster_service_version) → Spares E I (update_mcg_csv E csv)
  unfolding update_mcg_csv
  Spares-update_mcg_csv csv = search spares_rules depth 40

  pub Spares-reconcile_one_csv :
      (csv : Object Kind.cluster_service_version) → Spares E I (reconcile_one_csv E csv)
  unfolding reconcile_one_csv
  Spares-reconcile_one_csv csv =
      search (spares_rules, Spares-update_ocs_csv, Spares-update_mcg_csv) depth 40

  pub Spares-reconcile_csv : Spares E I (reconcile_csv E)
  unfolding reconcile_csv
  Spares-reconcile_csv = search (spares_rules, Spares-reconcile_one_csv) depth 40

  pub Spares-reconcile_odf_subscription : Spares E I (reconcile_odf_subscription E)
  unfolding reconcile_odf_subscription
  Spares-reconcile_odf_subscription = search spares_rules depth 40

  Spares-enable_ceph_tools :
      (objs : List (Object Kind.ocs_initialization)) → Spares E I (enable_ceph_tools E objs)
  unfolding enable_ceph_tools
  Spares-enable_ceph_tools [] = search keeps_rules
  Spares-enable_ceph_tools (obj ∷ _) = search spares_rules depth 20

  pub Spares-reconcile_ocs_initialization : Spares E I (reconcile_ocs_initialization E)
  unfolding reconcile_ocs_initialization
  Spares-reconcile_ocs_initialization = search (spares_rules, Spares-enable_ceph_tools) depth 40

  pub Spares-require_entry :
      (key : String) (values : Dict String) → Spares E I (require_entry E key values)
  unfolding require_entry
  Spares-require_entry key values = search spares_rules depth 40

  pub Spares-use_rhobs_secret : Spares E I (use_rhobs_secret E)
  unfolding use_rhobs_secret
  Spares-use_rhobs_secret = search (spares_rules) depth 40

  pub Spares-set_remote_write : Spares E I (set_remote_write E)
  unfolding set_remote_write
  Spares-set_remote_write = search (spares_rules, Spares-use_rhobs_secret) depth 40

  Spares-image_or_crash : (o : Option String) → Spares E I (image_or_crash E o)
  unfolding image_or_crash
  Spares-image_or_crash none = search keeps_rules
  Spares-image_or_crash (some image) = search keeps_rules

  pub Spares-mutate_prometheus : Spares E I (mutate_prometheus E)
  unfolding mutate_prometheus
  Spares-mutate_prometheus =
      search
        (spares_rules, Spares-get_csv_by_prefix, Spares-image_or_crash, Spares-set_remote_write)
        depth 40

  pub Spares-mutate_service : Spares E I (mutate_service E)
  unfolding mutate_service
  Spares-mutate_service = search spares_rules depth 40

  pub Spares-mutate_dms_rule : Spares E I (mutate_dms_rule E)
  unfolding mutate_dms_rule
  Spares-mutate_dms_rule = search spares_rules depth 40

  pub Spares-mutate_alertmanager : Spares E I (mutate_alertmanager E)
  unfolding mutate_alertmanager
  Spares-mutate_alertmanager = search spares_rules depth 40

  pub Spares-mutate_k8s_metrics : Spares E I (mutate_k8s_metrics E)
  unfolding mutate_k8s_metrics
  Spares-mutate_k8s_metrics = search spares_rules depth 40

  Spares-label_one : {k : Kind} (obj : Object k) → IsUpdated k → Spares E I (label_one E obj)
  unfolding label_one
  Spares-label_one obj is = search spares_rules depth 20

  pub Spares-label_all :
      (k : Kind) (problem : String) → IsUpdated k → Spares E I (label_all E k problem)
  unfolding label_all
  Spares-label_all k problem is = search (spares_rules, Spares-label_one) depth 40

  pub Spares-reconcile_monitoring_resources : Spares E I (reconcile_monitoring_resources E)
  unfolding reconcile_monitoring_resources
  Spares-reconcile_monitoring_resources = search (spares_rules, Spares-label_all) depth 40

  pub Spares-read_smtp : Spares E I (read_smtp E)
  unfolding read_smtp
  Spares-read_smtp = search (spares_rules, Spares-require_text, Spares-refresh_new_secret) depth 40

  pub Spares-read_receiver_values : Spares E I (read_receiver_values E)
  unfolding read_receiver_values
  Spares-read_receiver_values =
      search (spares_rules, Spares-require_text, Spares-refresh_new_secret, Spares-read_smtp) depth
        40

  pub Spares-mutate_alertmanager_config : Spares E I (mutate_alertmanager_config E)
  unfolding mutate_alertmanager_config
  Spares-mutate_alertmanager_config = search (spares_rules, Spares-read_receiver_values) depth 40

module _ (E : Env) (I : World E → Type 0) (allowed : Footprint E I)
    (create_or_update : CreateOrUpdate E) (law : IsCreateOrUpdate E create_or_update) where
  create-Spares :
      (k : Kind) (slot : Slot k) (mutate : M E (Unit {0}))
      → KeepsSlot slot
      → IsCreated k
      → IsUpdated k
      → Spares E I mutate
      → Spares E I (create_or_update k slot mutate)
  create-Spares = Spares-create_or_update E I allowed create_or_update law

  pub Spares-reconcile_prometheus_service :
      Spares E I (reconcile_prometheus_service E create_or_update)
  unfolding reconcile_prometheus_service
  Spares-reconcile_prometheus_service =
      search (spares_rules, create-Spares, Spares-mutate_service) depth 20

  pub Spares-reconcile_prometheus : Spares E I (reconcile_prometheus E create_or_update)
  unfolding reconcile_prometheus
  Spares-reconcile_prometheus =
      search (spares_rules, create-Spares, Spares-mutate_prometheus) depth 20

  pub Spares-reconcile_dms_prometheus_rule :
      Spares E I (reconcile_dms_prometheus_rule E create_or_update)
  unfolding reconcile_dms_prometheus_rule
  Spares-reconcile_dms_prometheus_rule =
      search (spares_rules, create-Spares, Spares-mutate_dms_rule) depth 20

  pub Spares-reconcile_alertmanager : Spares E I (reconcile_alertmanager E create_or_update)
  unfolding reconcile_alertmanager
  Spares-reconcile_alertmanager =
      search (spares_rules, create-Spares, Spares-mutate_alertmanager) depth 20

  pub Spares-reconcile_k8s_metrics_service_monitor :
      Spares E I (reconcile_k8s_metrics_service_monitor E create_or_update)
  unfolding reconcile_k8s_metrics_service_monitor
  Spares-reconcile_k8s_metrics_service_monitor =
      search (spares_rules, create-Spares, Spares-mutate_k8s_metrics) depth 20

  pub Spares-reconcile_alertmanager_config :
      Spares E I (reconcile_alertmanager_config E create_or_update)
  unfolding reconcile_alertmanager_config
  Spares-reconcile_alertmanager_config =
      search (spares_rules, create-Spares, Spares-mutate_alertmanager_config) depth 20
