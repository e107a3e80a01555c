-- ===== src/Tests/History.antt =====
-- The invariants over histories and the watches in the scene.
use ocs_osd_deployer.Base.{◌≡◌, refl, true, false, [], ◌∷◌, ◌++◌}
use ocs_osd_deployer.Base.Dict.{lookup}
use ocs_osd_deployer.Api.{ready, reconcile_strategy_strict}
use ocs_osd_deployer.Kube.Object.{Kind, Object, new_meta}
use ocs_osd_deployer.Controllers.State.{
  Config, World, egress_firewall_crd, egress_network_policy_crd,
}
use ocs_osd_deployer.Controllers.Effects.Writes.{WritesOnly}
use ocs_osd_deployer.Controllers.History.{Reach, begun, after, run, restart, outside, started}
use ocs_osd_deployer.Controllers.Phases.{reconcile}
use ocs_osd_deployer.Controllers.Rbac.{grants, manager_rules, leader_election_rules}
use ocs_osd_deployer.Utils.Slices.{contains}
use ocs_osd_deployer.Base.Lists.{any}
use ocs_osd_deployer.Controllers.Rbac.Granted.{IsGranted, Reach-IsGranted}
use ocs_osd_deployer.Controllers.Egress.{is_available}
use ocs_osd_deployer.Controllers.Predicates.{mon_resources_predicate}
use ocs_osd_deployer.Controllers.Watches.{watched_requests}
use ocs_osd_deployer.Controllers.Watches.Covered.{IsOwned, Reach-IsOwned}
use ocs_osd_deployer.Tests.Scene.{namespace, env, create_or_update, reconciler, config}

abbrev first : World env
first = started env (reconciler ready reconcile_strategy_strict (("size", "4") ∷ [])) 0

abbrev once : World env
once = (reconcile env create_or_update "managedocs" namespace first).1

-- A run, changes of the cluster by others, and one more run after a restart.
abbrev twice : World env
twice =
    (reconcile env create_or_update "managedocs" namespace
      (record once { cluster = 7; reconciler = first.reconciler })).1

twice-Reach : Reach env create_or_update first twice
twice-Reach =
    after
      (after (after (after begun (run first "managedocs" namespace)) (outside once 7))
        (restart _ first.reconciler))
      (run _ "managedocs" namespace)

Reach-IsGranted_example : WritesOnly env IsGranted twice
Reach-IsGranted_example =
    Reach-IsGranted env create_or_update (λ k slot mutate. refl) first.reconciler 0 twice
      twice-Reach

abbrev both : Config
both = record config {
  available_crds = (egress_firewall_crd, true) ∷ (egress_network_policy_crd, true) ∷ [];
}

both-firewalls : is_available egress_firewall_crd both.available_crds ≡ true
unfolding lookup
both-firewalls = refl

both-policies : is_available egress_network_policy_crd both.available_crds ≡ true
unfolding lookup
both-policies = refl

Reach-IsOwned_example : WritesOnly env (IsOwned both) twice
Reach-IsOwned_example =
    Reach-IsOwned both both-firewalls both-policies env create_or_update (λ k slot mutate. refl)
      first.reconciler 0 twice twice-Reach

abbrev monitor : Object Kind.pod_monitor
monitor = record { metadata = new_meta "rook" namespace; body = tt }

-- Without the label it does start a run.
watched_requests-monitor :
    watched_requests both Kind.pod_monitor monitor
    ≡ (record { name = "managedocs"; namespace = namespace }) ∷ []
unfolding watched_requests mon_resources_predicate lookup
watched_requests-monitor = refl

-- The list of storage classes, which the search for volumes begins with, is not granted.
storage_classes_denied :
    any
      (grants (record { group = "storage.k8s.io"; resource = "storageclasses"; verb = "list" }))
      (manager_rules ++ leader_election_rules)
    ≡ false
unfolding grants manager_rules leader_election_rules contains
storage_classes_denied = refl
