-- ===== src/Controllers/Effects/Writes.antt =====
-- Invariants on the journal: every call that was issued has a property.
use ocs_osd_deployer.Base.{String}
use ocs_osd_deployer.Base.Lists.{All}
use ocs_osd_deployer.Kube.Object.{Kind}
use ocs_osd_deployer.Kube.Env.{Env}
use ocs_osd_deployer.Controllers.State.{
  World, Slot, Write, created, updated, status_updated, deleted,
}
use ocs_osd_deployer.Controllers.Actions.{emit, update_status_slot}
use ocs_osd_deployer.Controllers.Effects.{
  IsCreated, IsUpdated, Reads, Fields, Footprint, Spares, primitives,
}

-- A property of the writes of the methods that reconcile resources.
pub record Allows (P : Write → Type 0) : Type 0 where
  pub creates : (k : Kind) (name : String) → IsCreated k → P (created k name)
  pub updates : (k : Kind) (name : String) → IsUpdated k → P (updated k name)

-- A property that the report of the status respects.
pub record Statuses (P : Write → Type 0) : Type 0 where
  pub statuses : (name : String) → P (status_updated Kind.managed_ocs name)

-- Every call in the journal has the property.
unfoldable pub WritesOnly : (E : Env) → (Write → Type 0) → World E → Type 0
WritesOnly E P w = All P w.journal

abbrev pub NoDeletion : Write → Type 0
NoDeletion (deleted k name) = ⊥
NoDeletion _ = Unit

abbrev pub NoneDeleted : (E : Env) → World E → Type 0
NoneDeleted E w = WritesOnly E NoDeletion w

pub NoDeletion-Allows : Allows NoDeletion
NoDeletion-Allows = record { creates = λ k name is. tt; updates = λ k name is. tt }

pub NoDeletion-Statuses : Statuses NoDeletion
NoDeletion-Statuses = record { statuses = λ name. tt }

module _ (E : Env) (P : Write → Type 0) where
  pub WritesOnly-Reads : Reads E (WritesOnly E P)
  unfolding WritesOnly
  WritesOnly-Reads = record { calls = λ w cluster h. h; assigns = λ f foreign w h. h }

  pub WritesOnly-Fields : Fields E (WritesOnly E P)
  unfolding WritesOnly
  WritesOnly-Fields = record { assigns_any = λ f w h. h }

  pub WritesOnly-Footprint : Allows P → Footprint E (WritesOnly E P)
  unfolding WritesOnly
  WritesOnly-Footprint allowed = record {
    reads = WritesOnly-Reads;
    creates = λ k name is w h. (allowed.creates k name is, h);
    updates = λ k name is w h. (allowed.updates k name is, h);
  }

  pub WritesOnly-emit : (x : Write) → P x → Spares E (WritesOnly E P) (emit E x)
  unfolding emit WritesOnly
  WritesOnly-emit x d = record { at = λ s h. (d, h) }

  WritesOnly-reported :
      Statuses P
      → (name : String) → Spares E (WritesOnly E P) (emit E (status_updated Kind.managed_ocs name))
  WritesOnly-reported reported name =
      WritesOnly-emit (status_updated Kind.managed_ocs name) (reported.statuses name)

  pub WritesOnly-update_status_slot :
      Statuses P
      → (slot : Slot Kind.managed_ocs) → Spares E (WritesOnly E P) (update_status_slot E slot)
  unfolding update_status_slot
  WritesOnly-update_status_slot reported slot =
      search (primitives, WritesOnly-Reads, WritesOnly-Fields, WritesOnly-reported) depth 12

pub ruleset writes_rules =
    (WritesOnly-Reads, WritesOnly-Fields, WritesOnly-Footprint, WritesOnly-update_status_slot)
