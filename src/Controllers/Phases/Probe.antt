-- ===== src/Controllers/Phases/Probe.antt =====
-- From the controller through the API server to the readiness probe: what a run reports.
use ocs_osd_deployer.Base.{String, ◌≡◌, ◌≢◌, ◌↔◌, refl, sym, ap, ◌∙◌, true}
use ocs_osd_deployer.Api.{ready}
use ocs_osd_deployer.Kube.Exec.{
  Result, ok, err, panic, attempt, attempted, continue, pure, raise, when, ◌>>=◌,
}
use ocs_osd_deployer.Kube.Object.{Kind, Object}
use ocs_osd_deployer.Kube.Env.{Env}
use ocs_osd_deployer.Controllers.State.{World}
use ocs_osd_deployer.Controllers.Actions.{
  asks, assign, call, emit, update_status_slot, CreateOrUpdate, IsCreateOrUpdate,
}
use ocs_osd_deployer.Controllers.Slots
use ocs_osd_deployer.Controllers.Effects.{reported}
use ocs_osd_deployer.Controllers.Status.{components}
use ocs_osd_deployer.Controllers.Removal.{Requeue}
use ocs_osd_deployer.Controllers.Phases.{exists, reconcile_phases, reconcile, start, first_error}
use ocs_osd_deployer.Controllers.Phases.Steady.{IsSteady, phases-Reports, still_there}
use ocs_osd_deployer.Readiness.{handle, handle_ready}

-- What the API server is relied on for: the status that is sent is the one that is read afterwards.
pub record IsStored (E : Env) (name namespace : String) (sent : Object Kind.managed_ocs)
    (cluster : E.Cluster) : Type 0 where
  pub answer : Object Kind.managed_ocs
  pub answered : (E.update_status Kind.managed_ocs sent cluster).0 ≡ ok answer
  pub found : Object Kind.managed_ocs
  pub finds :
      (E.get Kind.managed_ocs name namespace (E.update_status Kind.managed_ocs sent cluster).1).0
      ≡ ok found
  pub same : found.body.status.components ≡ sent.body.status.components

module _ (E : Env) (create_or_update : CreateOrUpdate E) (new : Object Kind.managed_ocs)
    (s : World E) where
  abbrev status_sent : E.Cluster
  status_sent = (E.update_status Kind.managed_ocs s.reconciler.managed_ocs s.cluster).1

  -- The report is the last call, whatever the phases returned.
  report-cluster :
      (result : Result Requeue)
      → result ≢ panic
      → exists s.reconciler ≡ true
      → (E.update_status Kind.managed_ocs s.reconciler.managed_ocs s.cluster).0 ≡ ok new
      → (continue
          (attempted result s).0
          (λ result. asks E exists >>= λ existing.
            attempt (when existing (update_status_slot E Slots.managed_ocs)) >>= λ status.
            first_error E create_or_update result status)
          (attempted result s).1).1.cluster
        ≡ status_sent
  unfolding asks attempt attempted update_status_slot emit call assign pure raise ◌>>=◌
  report-cluster (ok r) returns there stored = rw (there, stored) refl
  report-cluster (err e) returns there stored = rw (there, stored) refl
  report-cluster panic returns there stored = absurd (returns refl)

module _ (E : Env) (create_or_update : CreateOrUpdate E) (law : IsCreateOrUpdate E create_or_update)
    (name namespace : String) (w begun decided ended : World E) (result : Result Requeue) where
  -- Where `CreateOrUpdate` does what its documentation says, a run reads a resource that has its
  -- finalizer, is not being deleted and is not asked to be uninstalled, and reconciles it, with
  -- whatever success but without a panic: if the API server then stores the status that it is sent,
  -- the probe, asked next, answers 200 exactly if the run found all three components ready.
  pub handle-reconcile :
      start E create_or_update name namespace w ≡ (ok tt, begun)
      → IsSteady E begun decided
      → reconcile_phases E create_or_update begun ≡ (result, ended)
      → result ≢ panic
      → IsStored E name namespace ended.reconciler.managed_ocs ended.cluster
      → ((handle E name namespace (reconcile E create_or_update name namespace w).1.cluster).0
          ≡ 200)
        ↔ (components decided.reconciler
            ≡ record { storage_cluster = ready; prometheus = ready; alertmanager = ready })
  unfolding reconcile ◌>>=◌
  handle-reconcile starts steady runs returns stored =
      let same = phases-Reports E create_or_update law begun decided steady in
      let ends : reported ended.reconciler ≡ reported decided.reconciler = rw runs at same in
      let cluster =
        report-cluster E create_or_update stored.answer ended result returns
          (still_there E create_or_update law begun decided steady ended ends) stored.answered in
      let sent : stored.found.body.status.components ≡ components decided.reconciler =
        stored.same ∙ ap (λ p. p.0) ends in
      rw (starts, runs, cluster)
        (
          λ answers.
              let (obj, e, is) = (handle_ready E name namespace _).0 answers in
              let eq : stored.found ≡ obj = cc (stored.finds, e) in
              sym sent ∙ (ap (λ (o : Object Kind.managed_ocs). o.body.status.components) eq ∙ is),
          λ is. (handle_ready E name namespace _).1 (stored.found, stored.finds, sent ∙ is),
        )
