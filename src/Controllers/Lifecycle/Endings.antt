-- ===== src/Controllers/Lifecycle/Endings.antt =====
-- What each branch of `reconcilePhases` leaves behind.
use mathlib.Core.List.{append-nil}
use ocs_osd_deployer.Base.{
  Option, none, some, String, ◌≡◌, refl, ap, ◌∙◌, inl, inr, Bool, true, false, ◌&&◌, [], ◌∷◌, ◌++◌,
  if◌then◌else◌,
}
use ocs_osd_deployer.Base.Lists.{All}
use ocs_osd_deployer.Kube.Exec.{
  Error, Result, ok, err, panic, continue, pure, wrap, attempt, ◌>>=◌, ◌>>◌,
}
use ocs_osd_deployer.Kube.Keeps.{Keeps, keeps_rules, bind_ends}
use ocs_osd_deployer.Kube.Object.{Kind, Object}
use ocs_osd_deployer.Kube.Env.{Env}
use ocs_osd_deployer.Controllers.State.{
  Reconciler, World, Write, deleted, ocs_operator_name, deployer_csv_prefix,
}
use ocs_osd_deployer.Controllers.Actions.{
  M, call, or_raise, ignore_not_found, list, asks, assign, emit, CreateOrUpdate, IsCreateOrUpdate,
  refresh, delete,
}
use ocs_osd_deployer.Controllers.Slots
use ocs_osd_deployer.Controllers.Effects.Writes.{
  Allows, WritesOnly, WritesOnly-Footprint, WritesOnly-Fields,
}
use ocs_osd_deployer.Controllers.Effects.Calls.{spares_rules}
use ocs_osd_deployer.Controllers.Effects.Run.{Spares-before_uninstall, Spares-is_in_use}
use ocs_osd_deployer.Controllers.Effects.Quiet.{
  Same, Quiet, Quiet-Reads, Quiet-Fields, update_slot-journal, delete-journal,
}
use ocs_osd_deployer.Controllers.Operators.{
  delete_found, get_csv_by_prefix, delete_csv_by_prefix, remove_olm_components,
}
use ocs_osd_deployer.Controllers.Operators.Deletion.{
  DeletesOnlyPrefix, delete_csv_by_prefix-only_prefix,
}
use ocs_osd_deployer.Controllers.Status.{
  verify_components_do_not_exist, are_components_ready_for_uninstall,
}
use ocs_osd_deployer.Controllers.Removal.{
  done, requeue_after_10s, is_in_use, finish_deletion, delete_managed_ocs, uninstall,
  reconcile_deletion,
}
use ocs_osd_deployer.Controllers.Phases.{exists, before_uninstall, reconcile_existing}
use ocs_osd_deployer.Controllers.Phases.Deletion.{
  DeletesStorage, IsStorageDeletion, reconcile_deletion-waits,
}
use ocs_osd_deployer.Controllers.Lifecycle.{
  Phase, Reconciles, DeletesOne, Finishes, Uninstalls, succeeded, is_free, says_free,
  existing_phase,
}

-- The world after the phases, before the report.
abbrev pub Leaves : (E : Env) → Phase → World E → Type 0
Leaves E Phase.interrupted w = w.journal ≡ []
Leaves E Phase.idle w = (w.journal ≡ []) × (exists w.reconciler ≡ false)
Leaves E Phase.removing w = DeletesOne deployer_csv_prefix w.journal × (exists w.reconciler ≡ false)
Leaves E Phase.deleting_storage w = All DeletesStorage w.journal
Leaves E Phase.finishing w = Finishes w.journal
Leaves E Phase.reconciling w = All Reconciles w.journal
Leaves E Phase.uninstalling w = Uninstalls w.journal

Reconciles-Allows : Allows Reconciles
Reconciles-Allows = record { creates = λ k name is. is; updates = λ k name is. is }

module _ (E : Env) (w : World E) (new : w.journal ≡ []) where
  deletes_one : (prefix : String) → DeletesOne prefix (delete_csv_by_prefix E prefix w).1.journal
  unfolding DeletesOnlyPrefix
  deletes_one prefix = elim (delete_csv_by_prefix-only_prefix E prefix w) [
    | inl same ↦ inl (same ∙ new)
    | inr (name, is, e) ↦
        inr (name, is, e ∙ ap (λ j. deleted Kind.cluster_service_version name ∷ j) new)
  ]

  pub deleting-Leaves :
      verify_components_do_not_exist w.reconciler ≡ false
      → Leaves E Phase.deleting_storage (reconcile_deletion E w).1
  unfolding IsStorageDeletion
  deleting-Leaves there =
      let (_, writes, all, e) = reconcile_deletion-waits E w there in
      rw (e ∙ ap (λ j. writes ++ j) new ∙ append-nil writes) all

  finish-Leaves : Finishes (finish_deletion E w).1.journal
  unfolding finish_deletion assign wrap ◌>>=◌
  finish-Leaves =
      let one = deletes_one ocs_operator_name in
      let s1 = (delete_csv_by_prefix E ocs_operator_name w).1 in
      bind_ends (λ (s : World E). Finishes s.journal) _
        (wrap "unable to delete csv: " (delete_csv_by_prefix E ocs_operator_name)) w (inl one)
        (λ _ _. inr (_, s1.journal, one, update_slot-journal E Slots.managed_ocs _))

  pub finishing-Leaves :
      verify_components_do_not_exist w.reconciler ≡ true
      → Leaves E Phase.finishing (reconcile_deletion E w).1
  unfolding reconcile_deletion asks pure ◌>>=◌
  finishing-Leaves gone = rw gone (
      bind_ends (λ (s : World E). Finishes s.journal) (λ _. pure done) (finish_deletion E) w
        finish-Leaves (λ _ _. finish-Leaves))

module _ (E : Env) (r : Reconciler) where
  -- The fields are these before and after.
  abbrev Fixed : {A : Type 0} → M E A → Type 0
  Fixed m = Keeps (λ (s : World E). s.reconciler ≡ r) m

  module _ {A : Type 0} where
    Fixed-call : (f : E.Cluster → Result A × E.Cluster) → Fixed (call E f)
    unfolding call
    Fixed-call f = record { at = λ s same. same }

    Fixed-asks : (f : Reconciler → A) → Fixed (asks E f)
    unfolding asks
    Fixed-asks f = record { at = λ s same. same }

    Fixed-or_raise : (o : Option A) (e : Error) → Fixed (or_raise o e)
    unfolding or_raise
    Fixed-or_raise none e = search keeps_rules
    Fixed-or_raise (some a) e = search keeps_rules

  Fixed-emit : (x : Write) → Fixed (emit E x)
  unfolding emit
  Fixed-emit x = record { at = λ s same. same }

  Fixed-ignore_not_found : (a : Result (Unit {0})) → Fixed (ignore_not_found E a)
  unfolding ignore_not_found
  Fixed-ignore_not_found (ok u) = search keeps_rules
  Fixed-ignore_not_found (err e) = search keeps_rules
  Fixed-ignore_not_found panic = search keeps_rules

  Fixed-delete_found : (a : Result (Object Kind.cluster_service_version)) → Fixed (delete_found E a)
  unfolding delete_found delete
  Fixed-delete_found (ok csv) =
      search (keeps_rules, Fixed-call, Fixed-emit, Fixed-ignore_not_found) depth 20
  Fixed-delete_found (err e) = search keeps_rules
  Fixed-delete_found panic = search keeps_rules

  Fixed-remove_olm_components : Fixed (remove_olm_components E)
  unfolding remove_olm_components delete_csv_by_prefix get_csv_by_prefix list
  Fixed-remove_olm_components =
      search (keeps_rules, Fixed-call, Fixed-asks, Fixed-or_raise, Fixed-delete_found) depth 30

pub removing-Leaves :
    (E : Env) (w : World E)
    → w.journal ≡ []
    → exists w.reconciler ≡ false
    → Leaves E Phase.removing ((remove_olm_components E >> pure done) w).1
unfolding remove_olm_components wrap pure
removing-Leaves E w new absent =
    let left : Leaves E Phase.removing (remove_olm_components E w).1 = (
      deletes_one E w new deployer_csv_prefix,
      ap exists ((Fixed-remove_olm_components E w.reconciler).at w refl) ∙ absent,
    ) in
    bind_ends (Leaves E Phase.removing) (λ _. pure done) (remove_olm_components E) w left
      (λ _ _. left)

module _ (E : Env) where
  delete_managed_ocs-Leaves :
      (w : World E) → All Reconciles w.journal → Uninstalls (delete_managed_ocs E w).1.journal
  unfolding delete_managed_ocs asks wrap ◌>>=◌
  delete_managed_ocs-Leaves w all =
      let obj = w.reconciler.managed_ocs in
      let journal = deleted Kind.managed_ocs obj.metadata.name ∷ w.journal in
      let rest : Quiet E journal (
          attempt (refresh E Slots.managed_ocs) >>= λ found.
          ignore_not_found E found >>= λ _. pure done) =
        search (spares_rules, Quiet-Reads, Quiet-Fields) depth 20 in
      (
        obj.metadata.name,
        w.journal,
        all,
        bind_ends (λ (s : World E). s.journal ≡ journal) _
            (wrap "unable to delete managedocs: " (delete E obj)) w (delete-journal E obj w)
            (λ _ _. rest.at _ (delete-journal E obj w)),
      )

  -- By the answer to the search for data and clients.
  in_use-Leaves :
      (answer : Result Bool) (w : World E)
      → All Reconciles w.journal
      → Leaves E
          (if says_free answer then Phase.uninstalling else Phase.reconciling)
          (continue answer
            (λ found. if found then pure requeue_after_10s else delete_managed_ocs E)
            w).1
  unfolding pure ◌>>=◌
  in_use-Leaves (ok true) w all = all
  in_use-Leaves (ok false) w all = delete_managed_ocs-Leaves w all
  in_use-Leaves (err e) w all = all
  in_use-Leaves panic w all = all

  asked-Leaves :
      (asked ready : Bool) (w : World E)
      → All Reconciles w.journal
      → Leaves E
          (if asked && ready && is_free E w then Phase.uninstalling else Phase.reconciling)
          ((if asked && ready then uninstall E else pure done) w).1
  unfolding uninstall asks pure ◌>>=◌
  asked-Leaves true true w all =
      let kept =
        (Spares-is_in_use E (Same E w.journal) (Quiet-Reads E w.journal)
            w.reconciler.config.deployment_type).at
          w refl in
      in_use-Leaves (is_in_use E w.reconciler.config.deployment_type w).0 _ (rw kept all)
  asked-Leaves true false w all = all
  asked-Leaves false ready w all = all

  -- By the answer to what is done before.
  prepared-Leaves :
      (asked : Bool) (answer : Result (Unit {0})) (w : World E)
      → All Reconciles w.journal
      → Leaves E
          (if succeeded answer
              && (asked && are_components_ready_for_uninstall w.reconciler && is_free E w)
            then Phase.uninstalling
            else Phase.reconciling)
          (continue answer
            (λ _. asks E are_components_ready_for_uninstall >>= λ ready.
              if asked && ready then uninstall E else pure done)
            w).1
  unfolding asks ◌>>=◌
  prepared-Leaves asked (ok u) w all = asked-Leaves asked _ w all
  prepared-Leaves asked (err e) w all = all
  prepared-Leaves asked panic w all = all

  pub existing-Leaves :
      (create_or_update : CreateOrUpdate E)
      → IsCreateOrUpdate E create_or_update
      → (asked : Bool) (w : World E) → w.journal ≡ []
      → Leaves E
          (existing_phase E create_or_update asked w)
          (reconcile_existing E create_or_update asked w).1
  unfolding reconcile_existing asks WritesOnly ◌>>=◌
  existing-Leaves create_or_update law asked w new =
      let (answer, after) = before_uninstall E create_or_update w in
      prepared-Leaves asked answer after (
        (Spares-before_uninstall E (WritesOnly E Reconciles)
            (WritesOnly-Footprint E Reconciles Reconciles-Allows) create_or_update law
            (WritesOnly-Fields E Reconciles)).at
          w (rw new tt))
