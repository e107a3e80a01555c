-- ===== src/Controllers/Phases/Report.antt =====
-- How a run ends: the status of the resource, and the error that is returned.
use ocs_osd_deployer.Base.{String, ◌≡◌, ◌≢◌, refl, true, ◌∷◌}
use ocs_osd_deployer.Kube.Exec.{Error, continue, attempted, Result, ok, err, panic, ◌>>=◌}
use ocs_osd_deployer.Kube.Object.{Kind, Object}
use ocs_osd_deployer.Kube.Env.{Env}
use ocs_osd_deployer.Controllers.State.{Reconciler, World, status_updated}
use ocs_osd_deployer.Controllers.Actions.{
  asks, assign, emit, call, update_status_slot, CreateOrUpdate,
}
use ocs_osd_deployer.Controllers.Slots
use ocs_osd_deployer.Controllers.Phases.{first_error, exists, start, reconcile_phases, reconcile}

module _ (E : Env) (create_or_update : CreateOrUpdate E) (e : Error) where
  -- The error of the phases is returned, whatever the second result is.
  first_error_kept :
      (r : Result (Unit {0})) (s : World E)
      → r ≢ panic
      → continue
          (attempted r s).0
          (λ status. first_error E create_or_update (err e) status)
          (attempted r s).1
        ≡ (err e, s)
  unfolding ◌>>=◌
  first_error_kept (ok u) s h = refl
  first_error_kept (err x) s h = refl
  first_error_kept panic s h = absurd (h refl)

  module _ (write : Object Kind.managed_ocs → Reconciler → Reconciler) where
    -- The answer of the server is stored, if there is one.
    stored_answer :
        (a : Result (Object Kind.managed_ocs)) (s : World E)
        → a ≢ panic
        → (let m = continue a (λ new. assign E (write new)) s in
            (m.0 ≢ panic) × (m.1.journal ≡ s.journal))
    unfolding ◌>>=◌ assign
    stored_answer (ok new) s h = ((λ x. cc), refl)
    stored_answer (err x) s h = ((λ x. cc), refl)
    stored_answer panic s h = absurd (h refl)

module _ (E : Env) (create_or_update : CreateOrUpdate E) (name namespace : String)
    (w w1 w2 : World E) (e : Error) where
  -- A run whose phases fail on a resource that exists writes the status of the resource once, after
  -- all the writes of the phases, and returns the error of the phases, also if the status could not
  -- be written; it is assumed that the call that writes the status does not panic.
  pub reconcile-reports_status :
      start E create_or_update name namespace w ≡ (ok tt, w1)
      → reconcile_phases E create_or_update w1 ≡ (err e, w2)
      → exists w2.reconciler ≡ true
      → (E.update_status Kind.managed_ocs w2.reconciler.managed_ocs w2.cluster).0 ≢ panic
      → ((reconcile E create_or_update name namespace w).0 ≡ err e)
        × ((reconcile E create_or_update name namespace w).1.journal
            ≡ status_updated Kind.managed_ocs w2.reconciler.managed_ocs.metadata.name ∷ w2.journal)
  unfolding reconcile ◌>>=◌ asks update_status_slot emit call assign
  reconcile-reports_status hs hp he hn =
      let s = record w2 {
        journal =
            status_updated Kind.managed_ocs w2.reconciler.managed_ocs.metadata.name ∷ w2.journal;
        cluster = (E.update_status Kind.managed_ocs w2.reconciler.managed_ocs w2.cluster).1;
      } in
      let (np, j) =
        stored_answer E create_or_update e Slots.managed_ocs.write
          (E.update_status Kind.managed_ocs w2.reconciler.managed_ocs w2.cluster).0 s hn in
      rw (hs, hp, he) (rw (first_error_kept E create_or_update e _ _ np) (refl, j))
