-- ===== src/Controllers/Status/Ready.antt =====
-- When a component is reported as ready.
use ocs_osd_deployer.Base.{◌≡◌, ◌↔◌, refl, eq_iff, arith}
use ocs_osd_deployer.Api.{ready}
use ocs_osd_deployer.Kube.Exec.{Result, ok, err, panic, ◌>>=◌}
use ocs_osd_deployer.Kube.Object.{Kind, Object}
use ocs_osd_deployer.Kube.Env.{Env}
use ocs_osd_deployer.Controllers.State.{World}
use ocs_osd_deployer.Controllers.Actions.{refresh, get, call, asks, assign}
use ocs_osd_deployer.Controllers.Status.{storage_cluster_state, storage_cluster_status}

module _ (E : Env) (w : World E) where
  abbrev answer : Result (Object Kind.storage_cluster)
  answer =
      let meta = w.reconciler.storage_cluster.metadata in
      (E.get Kind.storage_cluster meta.name meta.namespace w.cluster).0

  abbrev pub IsReadyAnswer : Result (Object Kind.storage_cluster) → Type 0
  IsReadyAnswer a = (obj : Object Kind.storage_cluster) × (a ≡ ok obj) × (obj.body.phase ≡ "Ready")

  read_phase :
      (obj x : Object Kind.storage_cluster)
      → ◌≡◌ {A = Result (Object Kind.storage_cluster)} (ok obj) (ok x)
      → x.body.phase ≡ obj.body.phase
  read_phase obj x e = cc

  ready_for :
      (a : Result (Object Kind.storage_cluster))
      → answer ≡ a
      → ((storage_cluster_status E w).0 ≡ ok ready) ↔ IsReadyAnswer a
  unfolding storage_cluster_status storage_cluster_state refresh get call asks assign ◌>>=◌
  ready_for (ok obj) e = rw e (
    λ h. (obj, refl, ground (arith, eq_iff obj.body.phase "Ready")),
    λ (x, is, p). ground (arith, eq_iff obj.body.phase "Ready", read_phase obj x is),
  )
  ready_for (err x) e = rw e (λ h. absurd (ground arith), λ r. cc)
  ready_for panic e = rw e (λ r. cc, λ r. cc)

  -- The storage cluster is reported as ready exactly if it can be read and its phase is Ready.
  pub storage_cluster_status_ready :
      ((storage_cluster_status E w).0 ≡ ok ready) ↔ IsReadyAnswer answer
  storage_cluster_status_ready = ready_for answer refl
