-- ===== src/Controllers/Rbac/Granted.antt =====
-- Every write of the controller is one that its account may make.
use ocs_osd_deployer.Base.{String, ◌≡◌, refl, true}
use ocs_osd_deployer.Kube.Object.{Kind}
use ocs_osd_deployer.Kube.Env.{Env}
use ocs_osd_deployer.Controllers.State.{Reconciler, World, Write, created, updated, deleted}
use ocs_osd_deployer.Controllers.Actions.{CreateOrUpdate, IsCreateOrUpdate}
use ocs_osd_deployer.Controllers.Effects.{IsCreated, IsUpdated}
use ocs_osd_deployer.Controllers.Effects.Writes.{Statuses, Allows, WritesOnly}
use ocs_osd_deployer.Controllers.Effects.Reconcile.{IsDeleted, Deletions, Spares-reconcile}
use ocs_osd_deployer.Controllers.History.{started, Reach, Reach-WritesOnly}
use ocs_osd_deployer.Controllers.Rbac.{grants, is_granted}

abbrev pub IsGranted : Write → Type 0
IsGranted write = is_granted write ≡ true

created-IsGranted : (k : Kind) (name : String) → IsCreated k → IsGranted (created k name)
unfolding is_granted grants
created-IsGranted Kind.storage_cluster name is = refl
created-IsGranted Kind.prometheus name is = refl
created-IsGranted Kind.alertmanager name is = refl
created-IsGranted Kind.alertmanager_config name is = refl
created-IsGranted Kind.prometheus_rule name is = refl
created-IsGranted Kind.service_monitor name is = refl
created-IsGranted Kind.secret name is = refl
created-IsGranted Kind.config_map name is = refl
created-IsGranted Kind.service name is = refl
created-IsGranted Kind.network_policy name is = refl
created-IsGranted Kind.egress_network_policy name is = refl
created-IsGranted Kind.egress_firewall name is = refl
created-IsGranted _ name is = absurd is

updated-IsGranted : (k : Kind) (name : String) → IsUpdated k → IsGranted (updated k name)
unfolding is_granted grants
updated-IsGranted Kind.managed_ocs name is = refl
updated-IsGranted Kind.storage_cluster name is = refl
updated-IsGranted Kind.ocs_initialization name is = refl
updated-IsGranted Kind.prometheus name is = refl
updated-IsGranted Kind.alertmanager name is = refl
updated-IsGranted Kind.alertmanager_config name is = refl
updated-IsGranted Kind.prometheus_rule name is = refl
updated-IsGranted Kind.service_monitor name is = refl
updated-IsGranted Kind.pod_monitor name is = refl
updated-IsGranted Kind.secret name is = refl
updated-IsGranted Kind.config_map name is = refl
updated-IsGranted Kind.service name is = refl
updated-IsGranted Kind.network_policy name is = refl
updated-IsGranted Kind.egress_network_policy name is = refl
updated-IsGranted Kind.egress_firewall name is = refl
updated-IsGranted Kind.cluster_service_version name is = refl
updated-IsGranted Kind.subscription name is = refl
updated-IsGranted _ name is = absurd is

deleted-IsGranted : (k : Kind) (name : String) → IsDeleted k → IsGranted (deleted k name)
unfolding is_granted grants
deleted-IsGranted Kind.managed_ocs name is = refl
deleted-IsGranted Kind.storage_cluster name is = refl
deleted-IsGranted Kind.cluster_service_version name is = refl
deleted-IsGranted Kind.storage_system name is = refl
deleted-IsGranted _ name is = absurd is

IsGranted-Allows : Allows IsGranted
unfolding is_granted grants
IsGranted-Allows = record { creates = created-IsGranted; updates = updated-IsGranted }

IsGranted-Statuses : Statuses IsGranted
unfolding is_granted grants
IsGranted-Statuses = record { statuses = λ name. refl }

IsGranted-Deletions : Deletions IsGranted
IsGranted-Deletions = record { deletes = deleted-IsGranted }

-- Where `CreateOrUpdate` does what its documentation says: whatever runs, restarts and changes from
-- outside have happened since the first start, in whatever order, every call by which the
-- controller has asked the API server to create, update or delete an object is one that the
-- permissions of its account grant.
pub Reach-IsGranted :
    (E : Env) (create_or_update : CreateOrUpdate E)
    → IsCreateOrUpdate E create_or_update
    → (r : Reconciler) (cluster : E.Cluster) (w : World E)
    → Reach E create_or_update (started E r cluster) w
    → WritesOnly E IsGranted w
Reach-IsGranted E create_or_update law r cluster w h =
    Reach-WritesOnly E IsGranted create_or_update
      (Spares-reconcile E IsGranted IsGranted-Allows IsGranted-Deletions create_or_update law
        IsGranted-Statuses)
      h
