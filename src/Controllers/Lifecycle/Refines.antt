-- ===== src/Controllers/Lifecycle/Refines.antt =====
-- `Reconcile` implements the lifecycle.
use ocs_osd_deployer.Base.{
  String, ◌≡◌, refl, ◌∙◌, inl, inr, Bool, true, false, List, [], ◌∷◌, if◌then◌else◌,
}
use ocs_osd_deployer.Kube.Exec.{Result, ok, err, panic, attempt, when, continue, pure, ◌>>=◌}
use ocs_osd_deployer.Kube.Keeps.{bind_ends, attempted-keeps}
use ocs_osd_deployer.Kube.Object.{Kind}
use ocs_osd_deployer.Kube.Env.{Env}
use ocs_osd_deployer.Controllers.State.{World, Write, status_updated}
use ocs_osd_deployer.Controllers.Actions.{
  M, asks, update_status_slot, CreateOrUpdate, IsCreateOrUpdate,
}
use ocs_osd_deployer.Controllers.Slots
use ocs_osd_deployer.Controllers.Effects.Run.{
  Spares-start, Spares-check_uninstall_condition, Spares-update_component_status,
  Spares-first_error,
}
use ocs_osd_deployer.Controllers.Effects.Quiet.{
  Same, Quiet, Quiet-Reads, Quiet-Fields, update_status_slot-journal,
}
use ocs_osd_deployer.Controllers.Status.{
  check_uninstall_condition, update_component_status, verify_components_do_not_exist,
}
use ocs_osd_deployer.Controllers.Removal.{Requeue}
use ocs_osd_deployer.Controllers.Phases.{exists, reconcile_phases, first_error, start, reconcile}
use ocs_osd_deployer.Controllers.Phases.Deletes.{branch}
use ocs_osd_deployer.Controllers.Lifecycle.{
  Phase, Reported, IsRun, phase_after, existing_phase, decided, phase,
}
use ocs_osd_deployer.Controllers.Lifecycle.Endings.{
  Leaves, removing-Leaves, deleting-Leaves, finishing-Leaves, existing-Leaves,
}

module _ (E : Env) where
  -- What runs before the decision writes nothing; if it fails, the run is interrupted.
  continue-Leaves :
      {A B : Type 0} (answer : Result A) (f : A → M E B) (g : A → Phase) (w : World E)
      → w.journal ≡ []
      → ((a : A) → Leaves E (g a) (f a w).1)
      → Leaves E (phase_after answer g) (continue answer f w).1
  unfolding ◌>>=◌
  continue-Leaves (ok a) f g w new next = next a
  continue-Leaves (err e) f g w new next = new
  continue-Leaves panic f g w new next = new

  begun-IsRun :
      {A : Type 0} (answer : Result (Unit {0})) (f : M E A) (p : Phase) (w : World E)
      → w.journal ≡ []
      → IsRun p (f w).1.journal
      → IsRun (phase_after answer (λ _. p)) (continue answer (λ _. f) w).1.journal
  unfolding ◌>>=◌
  begun-IsRun (ok u) f p w new is = is
  begun-IsRun (err e) f p w new is = inl new
  begun-IsRun panic f p w new is = inl new

  Leaves-IsRun : (p : Phase) (w : World E) → Leaves E p w → IsRun p w.journal
  Leaves-IsRun Phase.idle w left = left.0
  Leaves-IsRun Phase.removing w left = left.0
  Leaves-IsRun Phase.interrupted w left = inl left
  Leaves-IsRun Phase.deleting_storage w left = inl left
  Leaves-IsRun Phase.finishing w left = inl left
  Leaves-IsRun Phase.reconciling w left = inl left
  Leaves-IsRun Phase.uninstalling w left = inl left

module _ (E : Env) (create_or_update : CreateOrUpdate E) (law : IsCreateOrUpdate E create_or_update)
    (w : World E) (new : w.journal ≡ []) where
  branch-Leaves :
      (asked deleted existing : Bool)
      → exists w.reconciler ≡ existing
      → (gone : Bool) → verify_components_do_not_exist w.reconciler ≡ gone
      → Leaves E
          (if deleted
            then (if gone then Phase.finishing else Phase.deleting_storage)
            else if existing
            then existing_phase E create_or_update asked w
            else if asked
            then Phase.removing
            else Phase.idle)
          (branch E create_or_update asked deleted existing w).1
  unfolding pure
  branch-Leaves asked true existing e true g = finishing-Leaves E w new g
  branch-Leaves asked true existing e false g = deleting-Leaves E w new g
  branch-Leaves asked false true e gone g = existing-Leaves E create_or_update law asked w new
  branch-Leaves true false false e gone g = removing-Leaves E w new e
  branch-Leaves false false false e gone g = (new, e)

module _ (E : Env) (create_or_update : CreateOrUpdate E)
    (law : IsCreateOrUpdate E create_or_update) where
  -- The phase from the world after the start.
  abbrev phase_from : World E → Phase
  phase_from w =
      let (answer, w2) = check_uninstall_condition E w in
      phase_after answer (λ asked.
        let (reported, w3) = update_component_status E w2 in
        phase_after reported (λ _. decided E create_or_update asked w3))

  phases-Leaves :
      (w : World E)
      → w.journal ≡ []
      → Leaves E (phase_from w) (reconcile_phases E create_or_update w).1
  unfolding reconcile_phases asks ◌>>=◌
  phases-Leaves w new =
      let (answer, w2) = check_uninstall_condition E w in
      let new2 = (Spares-check_uninstall_condition E (Same E []) (Quiet-Reads E [])).at w new in
      let (reported, w3) = update_component_status E w2 in
      let new3 =
        (Spares-update_component_status E (Same E []) (Quiet-Reads E []) (Quiet-Fields E [])).at w2
          new2 in
      continue-Leaves E answer _ _ w2 new2 (λ asked.
        continue-Leaves E reported _ _ w3 new3
          (λ _. branch-Leaves E create_or_update law w3 new3 asked _ _ refl _ refl))

  -- One call for the status, if the resource exists, and none after it.
  status-Reported :
      (P : List Write → Type 0) (result : Result Requeue) (existing : Bool) (w : World E)
      → P w.journal
      → Reported P
          ((attempt (when existing (update_status_slot E Slots.managed_ocs)) >>= λ status.
              first_error E create_or_update result status)
            w).1.journal
  unfolding attempt pure ◌>>=◌
  status-Reported P result true w left =
      let now =
        status_updated Kind.managed_ocs w.reconciler.managed_ocs.metadata.name ∷ w.journal in
      let written = update_status_slot-journal E Slots.managed_ocs w in
      let reported =
        attempted-keeps (λ (s : World E). s.journal ≡ now)
          (update_status_slot E Slots.managed_ocs w).0 (update_status_slot E Slots.managed_ocs w).1
          written in
      inr (
        w.reconciler.managed_ocs.metadata.name,
        w.journal,
        left,
        bind_ends (λ (s : World E). s.journal ≡ now) _
            (attempt (update_status_slot E Slots.managed_ocs)) w reported
            (λ status _.
              (Spares-first_error E (Same E now) create_or_update result status).at _ reported),
      )
  status-Reported P result false w left = inl (
      rw ((Spares-first_error E (Same E w.journal) create_or_update result (ok tt)).at w refl) left)

  no_status :
      (result : Result Requeue) (existing : Bool) (w : World E)
      → existing ≡ false
      → ((attempt (when existing (update_status_slot E Slots.managed_ocs)) >>= λ status.
            first_error E create_or_update result status)
          w).1.journal
        ≡ w.journal
  unfolding attempt pure ◌>>=◌
  no_status result true w absent = absurd cc
  no_status result false w absent =
      (Spares-first_error E (Same E w.journal) create_or_update result (ok tt)).at w refl

  report-IsRun :
      (p : Phase) (result : Result Requeue) (w : World E)
      → Leaves E p w
      → IsRun p
          ((asks E exists >>= λ existing.
              attempt (when existing (update_status_slot E Slots.managed_ocs)) >>= λ status.
              first_error E create_or_update result status)
            w).1.journal
  unfolding asks ◌>>=◌
  report-IsRun Phase.idle result w left = no_status result _ w left.1 ∙ left.0
  report-IsRun Phase.removing result w left = rw (no_status result _ w left.1) left.0
  report-IsRun Phase.interrupted result w left = status-Reported _ result _ w left
  report-IsRun Phase.deleting_storage result w left = status-Reported _ result _ w left
  report-IsRun Phase.finishing result w left = status-Reported _ result _ w left
  report-IsRun Phase.reconciling result w left = status-Reported _ result _ w left
  report-IsRun Phase.uninstalling result w left = status-Reported _ result _ w left

  -- The phases and the report, after the start.
  after_start-IsRun :
      (w : World E)
      → w.journal ≡ []
      → IsRun
          (phase_from w)
          ((attempt (reconcile_phases E create_or_update) >>= λ result.
              asks E exists >>= λ existing.
              attempt (when existing (update_status_slot E Slots.managed_ocs)) >>= λ status.
              first_error E create_or_update result status)
            w).1.journal
  unfolding attempt
  after_start-IsRun w new =
      let p = phase_from w in
      let (result, s) = reconcile_phases E create_or_update w in
      let left = attempted-keeps (Leaves E p) result s (phases-Leaves w new) in
      bind_ends (λ (s : World E). IsRun p s.journal) _
        (attempt (reconcile_phases E create_or_update)) w (Leaves-IsRun E p _ left)
        (λ result _. report-IsRun p result _ left)

  start-Quiet : (name namespace : String) → Quiet E [] (start E create_or_update name namespace)
  start-Quiet = Spares-start E (Same E []) (Quiet-Reads E []) (Quiet-Fields E []) create_or_update

  -- Where `CreateOrUpdate` does what its documentation says, the calls of a run that change the
  -- cluster, recorded from its start, are those of its phase, in the order of the phase, whether
  -- the run returns, fails or panics on the way: none where it breaks off before it has read what
  -- it decides on; none where there is no resource and no request; the deployer's own cluster
  -- service version at most where there is none and the uninstallation was asked for; deletions of
  -- the storage alone while a deleted resource has a storage cluster; after that the deletion of
  -- the operator before the update of the resource; creations and updates on an existing one, and
  -- then, as the last of them, the deletion of the resource, which is issued where the
  -- reconciliation succeeded, the uninstallation was asked for, the components are ready and the
  -- search for volumes or consumers answers that there are none. The status is written at most once
  -- and last, and not at all where there is no resource.
  pub reconcile-IsRun :
      (name namespace : String) (w : World E)
      → w.journal ≡ []
      → IsRun
          (phase E create_or_update name namespace w)
          (reconcile E create_or_update name namespace w).1.journal
  unfolding phase reconcile ◌>>=◌
  reconcile-IsRun name namespace w new =
      let (begun, s) = start E create_or_update name namespace w in
      begun-IsRun E begun _ _ s ((start-Quiet name namespace).at w new)
        (after_start-IsRun s ((start-Quiet name namespace).at w new))
