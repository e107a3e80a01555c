-- ===== src/Controllers/Operators/Converge.antt =====
-- The changes of the cluster service versions settle after one update.
use ocs_osd_deployer.Base.{◌≡◌, false}
use ocs_osd_deployer.Kube.Object.{Object}
use ocs_osd_deployer.Kube.Env.{Env}
use ocs_osd_deployer.Controllers.Operators.{Changed}

-- A change that has nothing left to do on what it gives.
abbrev Settles : {A : Type 0} → (A → Changed A) → Type 0
Settles {A} f = (x : A) → f (f x).0 ≡ ((f x).0, false)
