-- ===== src/Controllers/Effects.antt =====
-- What the actions of the reconciler write: an action whose writes all have a property.
pub mod Calls
pub mod Writes
pub mod Resources
pub mod Monitoring
pub mod Run
pub mod Reconcile
pub mod Quiet
use ocs_osd_deployer.Base.{◌≡◌, String, Bool, Option, none, some, List, ◌∷◌, if◌then◌else◌}
use ocs_osd_deployer.Base.Lists.{All}
use ocs_osd_deployer.Kube.Exec.{
  Error, is_not_found, Result, ok, err, panic, Exec, pure, raise, ◌>>=◌, ◌>>◌,
}
use ocs_osd_deployer.Kube.Keeps.{Keeps, keeps_rules, Keeps-bind, Keeps-if}
use ocs_osd_deployer.Kube.Object.{Kind, Object, ObjectMeta}
use ocs_osd_deployer.Kube.Env.{Env}
use ocs_osd_deployer.Controllers.State.{
  Reconciler, World, Slot, Write, created, updated, status_updated, deleted,
}
use ocs_osd_deployer.Api.{ComponentStatusMap}
use ocs_osd_deployer.Controllers.Status.{components}
use ocs_osd_deployer.Controllers.Actions.{
  M, or_raise, call, asks, assign, emit, get, refresh, update, update_slot, update_status_slot,
  create_slot, ignore_not_found, delete, list, own, check_key, create_after, write_after,
  documented, CreateOrUpdate, IsCreateOrUpdate,
}

-- The kinds that `ctrl.CreateOrUpdate` is called for.
abbrev pub IsCreated : Kind → Type 0
IsCreated Kind.storage_cluster = Unit
IsCreated Kind.prometheus = Unit
IsCreated Kind.alertmanager = Unit
IsCreated Kind.alertmanager_config = Unit
IsCreated Kind.prometheus_rule = Unit
IsCreated Kind.service_monitor = Unit
IsCreated Kind.secret = Unit
IsCreated Kind.config_map = Unit
IsCreated Kind.service = Unit
IsCreated Kind.network_policy = Unit
IsCreated Kind.egress_network_policy = Unit
IsCreated Kind.egress_firewall = Unit
IsCreated _ = ⊥

-- Those, and the kinds that are updated in place.
abbrev pub IsUpdated : Kind → Type 0
IsUpdated Kind.managed_ocs = Unit
IsUpdated Kind.pod_monitor = Unit
IsUpdated Kind.ocs_initialization = Unit
IsUpdated Kind.cluster_service_version = Unit
IsUpdated Kind.subscription = Unit
IsUpdated k = IsCreated k

-- What the report at the end of a run goes by: the status of the components, and the uid, which
-- tells whether the resource exists.
abbrev pub reported : Reconciler → ComponentStatusMap × String
reported r = (components r, r.managed_ocs.metadata.uid)

-- The assignment leaves that alone.
abbrev pub KeepsReport : (Reconciler → Reconciler) → Type 0
KeepsReport f = (r : Reconciler) → reported (f r) ≡ reported r

-- So does every assignment to the field.
abbrev pub KeepsSlot : {k : Kind} → Slot k → Type 0
KeepsSlot {k} slot = (obj : Object k) → KeepsReport (slot.write obj)

module _ (E : Env) (I : World E → Type 0) where
  -- What an invariant allows: calls that write nothing and changes of the fields, but for what
  -- is reported.
  pub record Reads : Type 0 where
    pub calls : (w : World E) (cluster : E.Cluster) → I w → I (record w { cluster = cluster })
    pub assigns :
        (f : Reconciler → Reconciler)
        → KeepsReport f
        → (w : World E) → I w
        → I (record w { reconciler = f w.reconciler })

  -- Changes of all the fields.
  pub record Fields : Type 0 where
    pub assigns_any :
        (f : Reconciler → Reconciler) (w : World E)
        → I w
        → I (record w { reconciler = f w.reconciler })

  -- What the methods which reconcile resources do.
  pub record Footprint : Type 0 where
    pub reads : Reads
    pub creates :
        (k : Kind) (name : String)
        → IsCreated k
        → (w : World E) → I w
        → I (record w { journal = created k name ∷ w.journal })
    pub updates :
        (k : Kind) (name : String)
        → IsUpdated k
        → (w : World E) → I w
        → I (record w { journal = updated k name ∷ w.journal })

  pub Footprint-Reads : Footprint → Reads
  Footprint-Reads allowed = allowed.reads

  abbrev pub Spares : {A : Type 0} → M E A → Type 0
  Spares m = Keeps I m

  module _ {A : Type 0} where
    pub Spares-call : Reads → (f : E.Cluster → Result A × E.Cluster) → Spares (call E f)
    unfolding call
    Spares-call reads f = record { at = λ s h. reads.calls s (f s.cluster).1 h }

    pub Spares-asks : (f : Reconciler → A) → Spares (asks E f)
    unfolding asks
    Spares-asks f = record { at = λ s h. h }

    pub Spares-or_raise : (o : Option A) (e : Error) → Spares (or_raise o e)
    unfolding or_raise
    Spares-or_raise none e = search keeps_rules
    Spares-or_raise (some a) e = search keeps_rules

  pub Spares-assign : Reads → (f : Reconciler → Reconciler) → KeepsReport f → Spares (assign E f)
  unfolding assign
  Spares-assign reads f foreign = record { at = λ s h. reads.assigns f foreign s h }

  pub Spares-assign_any : Fields → (f : Reconciler → Reconciler) → Spares (assign E f)
  unfolding assign
  Spares-assign_any fields f = record { at = λ s h. fields.assigns_any f s h }

  module _ (allowed : Footprint) where
    pub Spares-created : (k : Kind) (name : String) → IsCreated k → Spares (emit E (created k name))
    unfolding emit
    Spares-created k name is = record { at = λ s h. allowed.creates k name is s h }

    pub Spares-updated : (k : Kind) (name : String) → IsUpdated k → Spares (emit E (updated k name))
    unfolding emit
    Spares-updated k name is = record { at = λ s h. allowed.updates k name is s h }

pub ruleset primitives = (
  keeps_rules, Footprint-Reads, Spares-call, Spares-asks, Spares-or_raise, Spares-assign,
  Spares-assign_any, Spares-created, Spares-updated,
)
