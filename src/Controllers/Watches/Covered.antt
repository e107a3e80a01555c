-- ===== src/Controllers/Watches/Covered.antt =====
-- What the controller creates it also watches, and what it labels starts no further run.
use mathlib.Core.List.{Memᴰ}
use ocs_osd_deployer.Base.{String, ◌≡◌, refl, true, [], ◌∷◌}
use ocs_osd_deployer.Base.Dict.{get_text-insert}
use ocs_osd_deployer.Kube.Object.{Kind, Object, add_label}
use ocs_osd_deployer.Kube.Env.{Env}
use ocs_osd_deployer.Controllers.State.{
  Config, Reconciler, World, Write, created, mon_label_key, mon_label_value, egress_firewall_crd,
  egress_network_policy_crd,
}
use ocs_osd_deployer.Controllers.Actions.{CreateOrUpdate, IsCreateOrUpdate}
use ocs_osd_deployer.Controllers.Effects.{IsCreated}
use ocs_osd_deployer.Controllers.Effects.Writes.{Statuses, Allows, WritesOnly}
use ocs_osd_deployer.Controllers.Effects.Reconcile.{Deletions, Spares-reconcile}
use ocs_osd_deployer.Controllers.History.{started, Reach, Reach-WritesOnly}
use ocs_osd_deployer.Controllers.Predicates.{mon_resources_predicate}
use ocs_osd_deployer.Controllers.Egress.{is_available}
use ocs_osd_deployer.Controllers.Watches.{owned_kinds, is_watched, watched_requests}

ruleset owned = (Memᴰ.head, Memᴰ.tail)

-- An object that is created is of a kind whose events start a run.
abbrev pub IsOwned : Config → Write → Type 0
IsOwned r (created k name) = Memᴰ k (owned_kinds r)
IsOwned r _ = Unit

module _ (r : Config) (firewalls : is_available egress_firewall_crd r.available_crds ≡ true)
    (policies : is_available egress_network_policy_crd r.available_crds ≡ true) where
  owned_kinds-all :
      owned_kinds r
      ≡ Kind.storage_cluster ∷ Kind.prometheus ∷ Kind.alertmanager ∷ Kind.alertmanager_config
        ∷ Kind.prometheus_rule ∷ Kind.service_monitor ∷ Kind.network_policy ∷ Kind.secret
        ∷ Kind.service ∷ Kind.config_map ∷ Kind.egress_firewall ∷ Kind.egress_network_policy ∷ []
  unfolding owned_kinds
  owned_kinds-all = rw (firewalls, policies) refl

  created-IsOwned : (k : Kind) (name : String) → IsCreated k → IsOwned r (created k name)
  created-IsOwned Kind.storage_cluster name is = rw owned_kinds-all (search owned depth 14)
  created-IsOwned Kind.prometheus name is = rw owned_kinds-all (search owned depth 14)
  created-IsOwned Kind.alertmanager name is = rw owned_kinds-all (search owned depth 14)
  created-IsOwned Kind.alertmanager_config name is = rw owned_kinds-all (search owned depth 14)
  created-IsOwned Kind.prometheus_rule name is = rw owned_kinds-all (search owned depth 14)
  created-IsOwned Kind.service_monitor name is = rw owned_kinds-all (search owned depth 14)
  created-IsOwned Kind.secret name is = rw owned_kinds-all (search owned depth 14)
  created-IsOwned Kind.config_map name is = rw owned_kinds-all (search owned depth 14)
  created-IsOwned Kind.service name is = rw owned_kinds-all (search owned depth 14)
  created-IsOwned Kind.network_policy name is = rw owned_kinds-all (search owned depth 14)
  created-IsOwned Kind.egress_network_policy name is = rw owned_kinds-all (search owned depth 14)
  created-IsOwned Kind.egress_firewall name is = rw owned_kinds-all (search owned depth 14)
  created-IsOwned _ name is = absurd is

  IsOwned-Allows : Allows (IsOwned r)
  IsOwned-Allows = record { creates = created-IsOwned; updates = λ k name is. tt }

  IsOwned-Statuses : Statuses (IsOwned r)
  IsOwned-Statuses = record { statuses = λ name. tt }

  IsOwned-Deletions : Deletions (IsOwned r)
  IsOwned-Deletions = record { deletes = λ k name is. tt }

  -- If both egress definitions are there when the controller is set up, and `CreateOrUpdate` does
  -- what its documentation says, every object that any run creates, whatever else happens in
  -- between, is of a kind that the controller owns, so that a later change of the object starts a
  -- run again.
  pub Reach-IsOwned :
      (E : Env) (create_or_update : CreateOrUpdate E)
      → IsCreateOrUpdate E create_or_update
      → (reconciler : Reconciler) (cluster : E.Cluster) (w : World E)
      → Reach E create_or_update (started E reconciler cluster) w
      → WritesOnly E (IsOwned r) w
  Reach-IsOwned E create_or_update law reconciler cluster w h =
      Reach-WritesOnly E (IsOwned r) create_or_update
        (Spares-reconcile E (IsOwned r) IsOwned-Allows IsOwned-Deletions create_or_update law
          IsOwned-Statuses)
        h

-- The labelling of a monitor by a run passes the predicate of no source, so that it starts no
-- further run through `Watches`.
pub watched_requests-labelled :
    (r : Config) (obj : Object Kind.pod_monitor)
    → watched_requests r Kind.pod_monitor (add_label obj mon_label_key mon_label_value) ≡ []
unfolding watched_requests is_watched mon_resources_predicate add_label
watched_requests-labelled r obj =
    rw (get_text-insert mon_label_key mon_label_value obj.metadata.labels) refl
