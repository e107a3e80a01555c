-- ===== src/Api.antt =====
-- The ManagedOCS resource of api/v1alpha1/managedocs_types.go.
use ocs_osd_deployer.Base.{String, Bool, true, false}

-- A Go text type; any text may stand in a resource.
abbrev pub ReconcileStrategy : Type 0
ReconcileStrategy = String

abbrev pub reconcile_strategy_none : ReconcileStrategy
reconcile_strategy_none = "none"

abbrev pub reconcile_strategy_strict : ReconcileStrategy
reconcile_strategy_strict = "strict"

-- `unset` is the empty text that a new resource has.
pub data ComponentState : Type 0 where
  unset ready pending not_found unknown : ComponentState

-- `state == v1.ComponentReady`
abbrev pub is_ready : ComponentState → Bool
is_ready ready = true
is_ready _ = false

-- `state == v1.ComponentNotFound`
abbrev pub is_not_found : ComponentState → Bool
is_not_found not_found = true
is_not_found _ = false

pub record ComponentStatusMap : Type 0 where
  pub storage_cluster : ComponentState
  pub prometheus : ComponentState
  pub alertmanager : ComponentState

pub record ManagedOcsStatus : Type 0 where
  pub reconcile_strategy : ReconcileStrategy
  pub components : ComponentStatusMap

pub record ManagedOcs : Type 0 where
  pub reconcile_strategy : ReconcileStrategy
  pub status : ManagedOcsStatus

abbrev pub no_components : ComponentStatusMap
no_components = record { storage_cluster = unset; prometheus = unset; alertmanager = unset }

abbrev pub new_managed_ocs : ManagedOcs
new_managed_ocs = record {
  reconcile_strategy = "";
  status = record { reconcile_strategy = ""; components = no_components };
}
