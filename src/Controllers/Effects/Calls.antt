-- ===== src/Controllers/Effects/Calls.antt =====
-- What the calls of the API server keep.
use ocs_osd_deployer.Kube.Exec.{is_not_found, Result, ok, err, panic, raise}
use ocs_osd_deployer.Kube.Keeps.{keeps_rules, Keeps-bind, Keeps-if}
use ocs_osd_deployer.Kube.Object.{Kind, Object, ObjectMeta}
use ocs_osd_deployer.Kube.Env.{Env}
use ocs_osd_deployer.Controllers.State.{World, Slot}
use ocs_osd_deployer.Controllers.Actions.{
  M, get, refresh, update, update_slot, create_slot, ignore_not_found, list, own, check_key,
  create_after, write_after, documented, CreateOrUpdate, IsCreateOrUpdate,
}
use ocs_osd_deployer.Controllers.Effects.{
  IsCreated, IsUpdated, KeepsSlot, Reads, Fields, Footprint, Spares, Spares-asks, primitives,
}

module _ (E : Env) (I : World E → Type 0) (reads : Reads E I) where
  pub Spares-list : (k : Kind) → Spares E I (list E k)
  unfolding list
  Spares-list k = search primitives depth 8

  module _ {k : Kind} where
    pub Spares-get : (obj : Object k) → Spares E I (get E obj)
    unfolding get
    Spares-get obj = search primitives

    pub Spares-refresh : (slot : Slot k) → KeepsSlot slot → Spares E I (refresh E slot)
    unfolding refresh
    Spares-refresh slot foreign = search (primitives, Spares-get)

    pub Spares-refresh_any : Fields E I → (slot : Slot k) → Spares E I (refresh E slot)
    unfolding refresh
    Spares-refresh_any fields slot = search (primitives, Spares-get)

    pub Spares-own : (slot : Slot k) → KeepsSlot slot → Spares E I (own E slot)
    unfolding own
    Spares-own slot foreign = search primitives depth 12

module _ (E : Env) (I : World E → Type 0) where
  pub Spares-ignore_not_found : (r : Result (Unit {0})) → Spares E I (ignore_not_found E r)
  unfolding ignore_not_found
  Spares-ignore_not_found (ok u) = search keeps_rules
  Spares-ignore_not_found (err e) = search keeps_rules
  Spares-ignore_not_found panic = search keeps_rules

  pub Spares-check_key :
      {k : Kind} (slot : Slot k) (key : ObjectMeta) → Spares E I (check_key E slot key)
  unfolding check_key
  Spares-check_key slot key = search primitives depth 12

module _ (E : Env) (I : World E → Type 0) (allowed : Footprint E I) {k : Kind} where
  pub Spares-update : (obj : Object k) → IsUpdated k → Spares E I (update E obj)
  unfolding update
  Spares-update obj is = search primitives

  pub Spares-update_slot :
      (slot : Slot k) → KeepsSlot slot → IsUpdated k → Spares E I (update_slot E slot)
  unfolding update_slot
  Spares-update_slot slot foreign is = search (primitives, Spares-update)

  pub Spares-update_slot_any :
      Fields E I → (slot : Slot k) → IsUpdated k → Spares E I (update_slot E slot)
  unfolding update_slot
  Spares-update_slot_any fields slot is = search (primitives, Spares-update)

  pub Spares-create_slot :
      (slot : Slot k) → KeepsSlot slot → IsCreated k → Spares E I (create_slot E slot)
  unfolding create_slot
  Spares-create_slot slot foreign is = search primitives depth 12

pub ruleset spares_rules = (
  primitives, Spares-get, Spares-refresh, Spares-refresh_any, Spares-update, Spares-update_slot,
  Spares-update_slot_any, Spares-create_slot, Spares-own, Spares-check_key, Spares-list,
  Spares-ignore_not_found,
)

module _ (E : Env) (I : World E → Type 0) (allowed : Footprint E I) {k : Kind} (slot : Slot k)
    (mutate : M E (Unit {0})) (foreign : KeepsSlot slot) (c : IsCreated k) (u : IsUpdated k)
    (m : Spares E I mutate) where
  Spares-write_after :
      (key : ObjectMeta) (r : Result (Unit {0})) → Spares E I (write_after E slot mutate key r)
  unfolding write_after
  Spares-write_after key (ok _) =
      Keeps-bind _ _ (Spares-asks E I slot.read)
        (λ existing. Keeps-bind _ _ m (λ _. search spares_rules depth 20))
  Spares-write_after key (err e) =
      Keeps-if (is_not_found e) (create_after E slot mutate key) (raise e)
        (Keeps-bind _ _ m (λ _. search spares_rules depth 20)) (search keeps_rules)
  Spares-write_after key panic = search keeps_rules

  Spares-documented : Spares E I (documented E slot mutate)
  unfolding documented
  Spares-documented = search (spares_rules, Spares-write_after) depth 20

module _ (E : Env) (I : World E → Type 0) (allowed : Footprint E I)
    (create_or_update : CreateOrUpdate E) (law : IsCreateOrUpdate E create_or_update) where
  pub Spares-create_or_update :
      (k : Kind) (slot : Slot k) (mutate : M E (Unit {0}))
      → KeepsSlot slot
      → IsCreated k
      → IsUpdated k
      → Spares E I mutate
      → Spares E I (create_or_update k slot mutate)
  Spares-create_or_update k slot mutate foreign c u m =
      rw (law k slot mutate) (Spares-documented E I allowed slot mutate foreign c u m)
