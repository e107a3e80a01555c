-- ===== src/Controllers/Status.antt =====
-- `updateComponentStatus`, `verifyComponentsDoNotExist`, `areComponentsReadyForUninstall` and
-- `checkUninstallCondition`.
pub mod Ready
pub mod Missing
use ocs_osd_deployer.Base.{
  String, ◌<>◌, Bool, true, false, ◌&&◌, Option, none, some, [], str_eq, if◌then◌else◌,
}
use ocs_osd_deployer.Base.Dict.{lookup}
use ocs_osd_deployer.Base.Int.{ℤ, pos, leb_ℤ}
use ocs_osd_deployer.Api.{
  ComponentState, ready, pending, not_found, unknown, ComponentStatusMap, is_ready,
}
use ocs_osd_deployer.Api
use ocs_osd_deployer.Kube.Exec.{Result, ok, err, panic, is_not_found, pure, attempt, ◌>>=◌, ◌>>◌}
use ocs_osd_deployer.Kube.Object.{Kind, Object}
use ocs_osd_deployer.Kube.Env.{Env}
use ocs_osd_deployer.Controllers.State.{Reconciler, prometheus_name, alertmanager_name, Slot}
use ocs_osd_deployer.Controllers.Actions.{M, asks, assign, get, refresh}
use ocs_osd_deployer.Controllers.Slots
use ocs_osd_deployer.Controllers.Init.{new_object}

-- `a == b` of two replica counts
abbrev eq_ℤ : ℤ → ℤ → Bool
eq_ℤ a b = leb_ℤ a b && leb_ℤ b a

abbrev pub components : Reconciler → ComponentStatusMap
components r = r.managed_ocs.body.status.components

-- A write to `managedOCS.Status.Components`.
abbrev pub with_components : (ComponentStatusMap → ComponentStatusMap) → Reconciler → Reconciler
with_components f r =
    let status = r.managed_ocs.body.status in
    record r {
      managed_ocs = record r.managed_ocs {
        body = record r.managed_ocs.body {
          status = record status { components = f status.components };
        };
      };
    }

-- The state for a component that could not be read.
missing_state : {A : Type 0} → ComponentState → Result A → ComponentState
missing_state found (ok _) = found
missing_state found (err e) = if is_not_found e then not_found else unknown
missing_state found panic = unknown

storage_cluster_state : String → ComponentState
storage_cluster_state phase = if str_eq phase "Ready" then ready else pending

-- The state of a component that runs as a stateful set: the ready replicas are compared with the
-- desired ones, of which there is one if the resource does not say.
pub stateful_set_state : Option ℤ → Result (Object Kind.stateful_set) → ComponentState
stateful_set_state replicas (ok set) =
    if eq_ℤ set.body (elim replicas [ none ↦ pos 1 | some n ↦ n ]) then ready else pending
stateful_set_state replicas (err e) = pending
stateful_set_state replicas panic = pending

module _ (E : Env) where
  unfoldable pub storage_cluster_status : M E ComponentState
  unfolding missing_state storage_cluster_state
  storage_cluster_status = do
    found ← attempt (refresh E Slots.storage_cluster)
    phase ← asks E (λ r. r.storage_cluster.body.phase)
    pure (missing_state (storage_cluster_state phase) found)

  -- The stateful set is read only if the resource itself was found.
  unfoldable pub stateful_set_status :
      String → (Reconciler → Option ℤ) → Result (Unit {0}) → M E ComponentState
  unfolding missing_state stateful_set_state
  stateful_set_status name replicas (ok _) = do
    namespace ← asks E (λ r. r.namespace)
    found ← attempt (get E (new_object {k = Kind.stateful_set} name namespace (pos 0)))
    desired ← asks E replicas
    pure (stateful_set_state desired found)
  stateful_set_status name replicas r = pure (missing_state pending r)

  unfoldable pub component_status :
      {k : Kind} → Slot k → String → (Reconciler → Option ℤ) → M E ComponentState
  unfolding stateful_set_status
  component_status slot name replicas = do
    found ← attempt (refresh E slot)
    stateful_set_status name replicas found

  unfoldable pub set_components : (ComponentStatusMap → ComponentStatusMap) → M E (Unit {0})
  set_components f = assign E (with_components f)

  unfoldable pub update_component_status : M E (Unit {0})
  unfolding storage_cluster_status component_status set_components
  update_component_status = do
    storage_cluster ← storage_cluster_status
    set_components (λ c. record c { storage_cluster = storage_cluster })
    prometheus ←
        component_status Slots.prometheus ("prometheus-" <> prometheus_name)
          (λ r. r.prometheus.body.replicas)
    set_components (λ c. record c { prometheus = prometheus })
    alertmanager ←
        component_status Slots.alertmanager ("alertmanager-" <> alertmanager_name)
          (λ r. r.alertmanager.body.replicas)
    set_components (λ c. record c { alertmanager = alertmanager })

unfoldable pub verify_components_do_not_exist : Reconciler → Bool
verify_components_do_not_exist r = Api.is_not_found (components r).storage_cluster

unfoldable pub are_components_ready_for_uninstall : Reconciler → Bool
are_components_ready_for_uninstall r =
    let c = components r in
    is_ready c.storage_cluster && is_ready c.prometheus && is_ready c.alertmanager

-- A config map that cannot be read, for whatever reason, is no request to uninstall.
unfoldable pub has_label : String → Result (Object Kind.config_map) → Bool
has_label key (ok map) = elim (lookup key map.metadata.labels) [ none ↦ false | some _ ↦ true ]
has_label key _ = false

module _ (E : Env) where
  unfoldable pub check_uninstall_condition : M E Bool
  unfolding has_label
  check_uninstall_condition = do
    name ← asks E (λ r. r.config.addon_config_map_name)
    namespace ← asks E (λ r. r.namespace)
    found ← attempt (get E (new_object {k = Kind.config_map} name namespace []))
    key ← asks E (λ r. r.config.addon_config_map_delete_label_key)
    pure (has_label key found)
