-- ===== src/Controllers/History.antt =====
-- What may have happened since the first start: runs one after the other (`SetupWithManager` allows
-- one at a time), restarts of the program, and changes of the cluster by others.
use ocs_osd_deployer.Base.{String, []}
use ocs_osd_deployer.Kube.Env.{Env}
use ocs_osd_deployer.Controllers.State.{Reconciler, World, Write}
use ocs_osd_deployer.Controllers.Actions.{CreateOrUpdate}
use ocs_osd_deployer.Controllers.Effects.{Spares}
use ocs_osd_deployer.Controllers.Effects.Writes.{WritesOnly}
use ocs_osd_deployer.Controllers.Phases.{reconcile}

module _ (E : Env) (create_or_update : CreateOrUpdate E) where
  -- Requests may name any resource, and a restart may begin with any fields.
  pub data Step : World E → World E → Type 0 where
    run :
        (w : World E) (name namespace : String)
        → Step w (reconcile E create_or_update name namespace w).1
    restart : (w : World E) (r : Reconciler) → Step w (record w { reconciler = r })
    outside : (w : World E) (cluster : E.Cluster) → Step w (record w { cluster = cluster })

  pub data Reach (start : World E) : World E → Type 0 where
    begun : Reach start start
    after : {u v : World E} → Reach start u → Step u v → Reach start v

-- The program as it starts first, with nothing written yet.
abbrev pub started : (E : Env) → Reconciler → E.Cluster → World E
started E r cluster = record { reconciler = r; cluster = cluster; journal = [] }

module _ (E : Env) (P : Write → Type 0) (create_or_update : CreateOrUpdate E)
    (spares : (name namespace : String)
      → Spares E (WritesOnly E P) (reconcile E create_or_update name namespace)) where
  Step-WritesOnly :
      {u v : World E} → Step E create_or_update u v → WritesOnly E P u → WritesOnly E P v
  unfolding WritesOnly
  Step-WritesOnly (run w name namespace) h = (spares name namespace).at w h
  Step-WritesOnly (restart w r) h = h
  Step-WritesOnly (outside w cluster) h = h

  -- What every run keeps holds of all that has been written.
  pub Reach-WritesOnly :
      {r : Reconciler} {cluster : E.Cluster} {w : World E}
      → Reach E create_or_update (started E r cluster) w
      → WritesOnly E P w
  unfolding WritesOnly
  Reach-WritesOnly begun = tt
  Reach-WritesOnly (after h step) = Step-WritesOnly step (Reach-WritesOnly h)
