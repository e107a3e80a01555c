-- ===== src/Controllers/Settles.antt =====
-- A second call of the functions for the simple resources changes nothing.
use ocs_osd_deployer.Base.{String, ◌≡◌, refl, ap, ◌∙◌, some, [], ◌∷◌, arith, eq_iff}
use ocs_osd_deployer.Base.Dict.{Dict, insert, lookup, lookup-insert}
use ocs_osd_deployer.Kube.Exec.{Result, ok, err, panic, continue, lift, ◌>>=◌, ◌>>◌}
use ocs_osd_deployer.Kube.Object.{Kind, Object, ObjectMeta, add_label}
use ocs_osd_deployer.Kube.Env.{Env}
use ocs_osd_deployer.Templates.Prometheus.{prometheus_serving_cert_secret_name}
use ocs_osd_deployer.Templates.Rules.{k8s_metrics_service_monitor_template}
use ocs_osd_deployer.Controllers.State.{Reconciler, Slot, World, mon_label_key, mon_label_value}
use ocs_osd_deployer.Controllers.Actions.{M, own, asks, assign}
use ocs_osd_deployer.Controllers.Slots
use ocs_osd_deployer.Controllers.Monitoring.{
  desired_service, mutate_service, mutate_dms_rule, mutate_alertmanager, mutate_k8s_metrics,
  desired_dms_rule, set_alertmanager,
}

insert-same : (k v : String) (d : Dict String) → lookup k d ≡ some v → insert k v d ≡ d
unfolding insert lookup
insert-same k v [] h = absurd cc
insert-same k v ((j, w) ∷ d) h = ground (arith, eq_iff j k, insert-same k v d)

insert_idem : (k v : String) (d : Dict String) → insert k v (insert k v d) ≡ insert k v d
insert_idem k v d =
    insert-same k v (insert k v d) (ground (arith, lookup-insert k k v d, eq_iff k k))

desired_service_idem :
    (obj : Object Kind.service) → desired_service (desired_service obj) ≡ desired_service obj
unfolding desired_service
desired_service_idem obj =
    let alpha : String = "service.alpha.openshift.io/serving-cert-secret-name" in
    let beta : String = "service.beta.openshift.io/serving-cert-secret-name" in
    let name : String = prometheus_serving_cert_secret_name in
    let before = insert beta name obj.metadata.annotations in
    let after = insert alpha name before in
    let has_beta : lookup beta after ≡ some name =
      lookup-insert alpha beta name before
      ∙ lookup-insert beta beta name obj.metadata.annotations in
    rw
      (
        insert_idem mon_label_key mon_label_value obj.metadata.labels,
        insert-same beta name after has_beta,
        insert_idem alpha name before,
      )
      refl

-- `ctrl.SetControllerReference` leaves an object alone that has the key and the owners of an object
-- that it returned for the same owner.
abbrev pub IsOwning : Env → Type 0
IsOwning E =
    (owner before after : ObjectMeta)
    → E.set_controller_reference owner before ≡ ok after
    → (meta : ObjectMeta) → meta.name ≡ after.name
    → meta.namespace ≡ after.namespace
    → meta.owner_references ≡ after.owner_references
    → E.set_controller_reference owner meta ≡ ok meta

-- A field, and an assignment to it that leaves the key and the owners of the object alone.
record IsSetting {k : Kind} (slot : Slot k) (set : Reconciler → Reconciler) : Type 0 where
  read_write : (obj : Object k) (r : Reconciler) → slot.read (slot.write obj r) ≡ obj
  write_read : (r : Reconciler) → slot.write (slot.read (set r)) (set r) ≡ set r
  owner :
      (obj : Object k) (r : Reconciler)
      → (set (slot.write obj r)).managed_ocs.metadata ≡ r.managed_ocs.metadata
  named : (r : Reconciler) → (slot.read (set r)).metadata.name ≡ (slot.read r).metadata.name
  placed :
      (r : Reconciler) → (slot.read (set r)).metadata.namespace ≡ (slot.read r).metadata.namespace
  owned :
      (r : Reconciler)
      → (slot.read (set r)).metadata.owner_references ≡ (slot.read r).metadata.owner_references
  idem : (r : Reconciler) → set (set r) ≡ set r

module _ (E : Env) (law : IsOwning E) {k : Kind} (slot : Slot k) (set : Reconciler → Reconciler)
    (is : IsSetting slot set) where
  unfoldable own_and_set : M E (Unit {0})
  own_and_set = do own E slot; assign E set

  runs :
      (w : World E) (meta : ObjectMeta)
      → E.set_controller_reference w.reconciler.managed_ocs.metadata
          (slot.read w.reconciler).metadata
        ≡ ok meta
      → own_and_set w ≡ (
        ok tt,
        record w {
          reconciler =
              set (slot.write (record (slot.read w.reconciler) { metadata = meta }) w.reconciler);
        },
      )
  unfolding own_and_set own asks assign lift ◌>>=◌
  runs w meta e = rw (e, continue) refl

  fails :
      (w : World E) (answer : Result ObjectMeta)
      → E.set_controller_reference w.reconciler.managed_ocs.metadata
          (slot.read w.reconciler).metadata
        ≡ answer
      → ((meta : ObjectMeta) → ¬ answer ≡ ok meta)
      → (own_and_set w).1 ≡ w
  unfolding own_and_set own asks assign lift ◌>>=◌
  fails w (ok meta) e refused = absurd (refused meta refl)
  fails w (err x) e refused = rw (e, continue) refl
  fails w panic e refused = rw (e, continue) refl

  by_answer :
      (w : World E) (answer : Result ObjectMeta)
      → E.set_controller_reference w.reconciler.managed_ocs.metadata
          (slot.read w.reconciler).metadata
        ≡ answer
      → own_and_set (own_and_set w).1 ≡ own_and_set w
  by_answer w (ok meta) e =
      let obj : Object k = record (slot.read w.reconciler) { metadata = meta } in
      let r1 : Reconciler = slot.write obj w.reconciler in
      let same : (slot.read r1).metadata ≡ meta =
        ap (λ (o : Object k). o.metadata) (is.read_write obj w.reconciler) in
      let again : E.set_controller_reference w.reconciler.managed_ocs.metadata
            (slot.read (set r1)).metadata
          ≡ ok (slot.read (set r1)).metadata =
        law w.reconciler.managed_ocs.metadata _ meta e (slot.read (set r1)).metadata
          (is.named r1 ∙ ap (λ (m : ObjectMeta). m.name) same)
          (is.placed r1 ∙ ap (λ (m : ObjectMeta). m.namespace) same)
          (is.owned r1 ∙ ap (λ (m : ObjectMeta). m.owner_references) same) in
      let owner = is.owner obj w.reconciler in
      let fixed : set (slot.write (slot.read (set r1)) (set r1)) ≡ set r1 =
        ap set (is.write_read r1) ∙ is.idem r1 in
      rw (runs w meta e) (
        runs (record w { reconciler = set r1 }) (slot.read (set r1)).metadata
          (ap (λ (m : ObjectMeta). E.set_controller_reference m (slot.read (set r1)).metadata) owner
            ∙ again)
        ∙ ap (λ (r : Reconciler). (ok tt, record w { reconciler = r })) fixed)
  by_answer w (err x) e = ap own_and_set (fails w (err x) e (λ meta h. cc))
  by_answer w panic e = ap own_and_set (fails w panic e (λ meta h. cc))

  settles : (w : World E) → own_and_set (own_and_set w).1 ≡ own_and_set w
  settles w = by_answer w _ refl

service_IsSetting :
    IsSetting Slots.prometheus_service
      (λ (r : Reconciler). record r { prometheus_service = desired_service r.prometheus_service })
unfolding desired_service
service_IsSetting = record {
  read_write = λ obj r. refl;
  write_read = λ r. refl;
  owner = λ obj r. refl;
  named = λ r. refl;
  placed = λ r. refl;
  owned = λ r. refl;
  idem = λ r.
      ap (λ (obj : Object Kind.service). record r { prometheus_service = obj })
        (desired_service_idem r.prometheus_service);
}

dms_rule_IsSetting : IsSetting Slots.dms_rule (λ (r : Reconciler). record r {
  dms_rule = record r.dms_rule { body = desired_dms_rule r.namespace };
})
dms_rule_IsSetting = record {
  read_write = λ obj r. refl;
  write_read = λ r. refl;
  owner = λ obj r. refl;
  named = λ r. refl;
  placed = λ r. refl;
  owned = λ r. refl;
  idem = λ r. refl;
}

alertmanager_IsSetting : (E : Env) → IsSetting Slots.alertmanager (set_alertmanager E)
unfolding add_label
alertmanager_IsSetting E = record {
  read_write = λ obj r. refl;
  write_read = λ r. refl;
  owner = λ obj r. refl;
  named = λ r. refl;
  placed = λ r. refl;
  owned = λ r. refl;
  idem = λ r.
      ap
        (λ (labels : Dict String). record (set_alertmanager E r) {
          alertmanager = record (set_alertmanager E r).alertmanager {
            metadata = record (set_alertmanager E r).alertmanager.metadata { labels = labels };
          };
        })
        (insert_idem mon_label_key mon_label_value r.alertmanager.metadata.labels);
}

k8s_metrics_IsSetting : IsSetting Slots.k8s_metrics_service_monitor (λ (r : Reconciler). record r {
  k8s_metrics_service_monitor = record r.k8s_metrics_service_monitor {
    body = k8s_metrics_service_monitor_template;
  };
})
k8s_metrics_IsSetting = record {
  read_write = λ obj r. refl;
  write_read = λ r. refl;
  owner = λ obj r. refl;
  named = λ r. refl;
  placed = λ r. refl;
  owned = λ r. refl;
  idem = λ r. refl;
}

-- Where a second `ctrl.SetControllerReference` leaves an object alone, a second call of a function
-- that is passed to `CreateOrUpdate` for the service, the DMS rule, the Alertmanager or the service
-- monitor of the Kubernetes metrics returns what the first one returned, an error included, and
-- leaves the reconciler, the cluster and the journal as the first one left them.
pub mutate_monitoring-settles :
    (E : Env)
    → IsOwning E
    → (w : World E)
    → (mutate_service E (mutate_service E w).1 ≡ mutate_service E w)
      × (mutate_dms_rule E (mutate_dms_rule E w).1 ≡ mutate_dms_rule E w)
      × (mutate_alertmanager E (mutate_alertmanager E w).1 ≡ mutate_alertmanager E w)
      × (mutate_k8s_metrics E (mutate_k8s_metrics E w).1 ≡ mutate_k8s_metrics E w)
unfolding mutate_service mutate_dms_rule mutate_alertmanager mutate_k8s_metrics own_and_set
mutate_monitoring-settles E law w = (
  settles E law Slots.prometheus_service _ service_IsSetting w,
  settles E law Slots.dms_rule _ dms_rule_IsSetting w,
  settles E law Slots.alertmanager _ (alertmanager_IsSetting E) w,
  settles E law Slots.k8s_metrics_service_monitor _ k8s_metrics_IsSetting w,
)
