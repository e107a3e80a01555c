-- ===== src/Controllers/Lifecycle.antt =====
-- The lifecycle of the resource, as a specification of `Reconcile`: the phase of a run, and the
-- calls that a run of the phase may issue, in which order.
pub mod Endings
pub mod Refines
use ocs_osd_deployer.Base.{
  String, ◌≡◌, ◌⊎◌, Bool, true, false, ◌&&◌, not, List, [], ◌∷◌, starts_with, if◌then◌else◌,
}
use ocs_osd_deployer.Base.Lists.{All}
use ocs_osd_deployer.Kube.Exec.{Result, ok, err, panic}
use ocs_osd_deployer.Kube.Object.{Kind}
use ocs_osd_deployer.Kube.Env.{Env}
use ocs_osd_deployer.Controllers.State.{
  World, Write, created, updated, status_updated, deleted, ocs_operator_name, deployer_csv_prefix,
}
use ocs_osd_deployer.Controllers.Actions.{CreateOrUpdate}
use ocs_osd_deployer.Controllers.Effects.{IsCreated, IsUpdated}
use ocs_osd_deployer.Controllers.Status.{
  check_uninstall_condition, update_component_status, verify_components_do_not_exist,
  are_components_ready_for_uninstall,
}
use ocs_osd_deployer.Controllers.Removal.{is_in_use}
use ocs_osd_deployer.Controllers.Phases.{is_deleted, exists, before_uninstall, start}
use ocs_osd_deployer.Controllers.Phases.Deletion.{DeletesStorage}

-- `interrupted`: the resource could not be read, or a call panicked before the decision. `idle`:
-- there is no resource and nothing was asked. `removing`: there is no resource and the
-- uninstallation was asked for. The next two are those of a deleted resource, the last two those of
-- an existing one.
pub data Phase : Type 0 where
  interrupted idle removing deleting_storage finishing reconciling uninstalling : Phase

-- A resource is created or updated.
abbrev pub Reconciles : Write → Type 0
Reconciles (created k name) = IsCreated k
Reconciles (updated k name) = IsUpdated k
Reconciles _ = ⊥

-- Nothing, or the deletion of one cluster service version of the prefix.
abbrev pub DeletesOne : String → List Write → Type 0
DeletesOne prefix journal =
    (journal ≡ [])
    ⊎ ((name : String) × (starts_with name prefix ≡ true)
        × (journal ≡ deleted Kind.cluster_service_version name ∷ []))

-- The operator goes first, and then the resource is updated.
abbrev pub Finishes : List Write → Type 0
Finishes journal =
    DeletesOne ocs_operator_name journal
    ⊎ ((name : String) × (before : List Write) × DeletesOne ocs_operator_name before
        × (journal ≡ updated Kind.managed_ocs name ∷ before))

-- All is reconciled first, and then the resource is deleted.
abbrev pub Uninstalls : List Write → Type 0
Uninstalls journal =
    (name : String) × (before : List Write) × All Reconciles before
    × (journal ≡ deleted Kind.managed_ocs name ∷ before)

-- The status may be written once, as the last call.
abbrev pub Reported : (List Write → Type 0) → List Write → Type 0
Reported P journal =
    P journal
    ⊎ ((name : String) × (before : List Write) × P before
        × (journal ≡ status_updated Kind.managed_ocs name ∷ before))

-- The journal of a run of each phase, the last call first.
abbrev pub IsRun : Phase → List Write → Type 0
IsRun Phase.interrupted journal = Reported (λ j. j ≡ []) journal
IsRun Phase.idle journal = journal ≡ []
IsRun Phase.removing journal = DeletesOne deployer_csv_prefix journal
IsRun Phase.deleting_storage journal = Reported (All DeletesStorage) journal
IsRun Phase.finishing journal = Reported Finishes journal
IsRun Phase.reconciling journal = Reported (All Reconciles) journal
IsRun Phase.uninstalling journal = Reported Uninstalls journal

-- The phase after an action that must succeed first.
abbrev pub phase_after : {A : Type 0} → Result A → (A → Phase) → Phase
phase_after (ok a) next = next a
phase_after _ next = Phase.interrupted

abbrev pub says_free : Result Bool → Bool
says_free (ok found) = not found
says_free _ = false

abbrev pub succeeded : {A : Type 0} → Result A → Bool
succeeded (ok _) = true
succeeded _ = false

-- From the world after all is reconciled: no data and no client is left.
abbrev pub is_free : (E : Env) → World E → Bool
is_free E w = says_free (is_in_use E w.reconciler.config.deployment_type w).0

module _ (E : Env) (create_or_update : CreateOrUpdate E) where
  -- The phase of an existing resource.
  abbrev pub existing_phase : Bool → World E → Phase
  existing_phase asked w =
      let (answer, after) = before_uninstall E create_or_update w in
      if succeeded answer
        && (asked && are_components_ready_for_uninstall after.reconciler && is_free E after)
      then Phase.uninstalling
      else Phase.reconciling

  -- From the world after the component status.
  abbrev pub decided : Bool → World E → Phase
  decided asked w =
      if is_deleted w.reconciler
      then (if verify_components_do_not_exist w.reconciler
          then Phase.finishing
          else Phase.deleting_storage)
      else if exists w.reconciler
      then existing_phase asked w
      else if asked
      then Phase.removing
      else Phase.idle

  -- The phase of the run that starts here on the request.
  unfoldable pub phase : String → String → World E → Phase
  phase name namespace w =
      let (begun, w1) = start E create_or_update name namespace w in
      phase_after begun (λ _.
        let (answer, w2) = check_uninstall_condition E w1 in
        phase_after answer (λ asked.
          let (reported, w3) = update_component_status E w2 in
          phase_after reported (λ _. decided asked w3)))
