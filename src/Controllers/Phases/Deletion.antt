-- ===== src/Controllers/Phases/Deletion.antt =====
-- The order in which a deleted resource is taken down: the storage first, the finalizer last.
use ocs_osd_deployer.Base.{◌≡◌, refl, ap, Bool, true, false, List, [], ◌∷◌, ◌++◌, if◌then◌else◌}
use ocs_osd_deployer.Base.Lists.{All}
use ocs_osd_deployer.Kube.Exec.{Result, ok, err, panic, ◌>>=◌}
use ocs_osd_deployer.Kube.Keeps.{Keeps, keeps_rules, Keeps-bind, Keeps-pure}
use ocs_osd_deployer.Kube.Object.{Kind, Object}
use ocs_osd_deployer.Kube.Env.{Env}
use ocs_osd_deployer.Controllers.State.{Reconciler, World, Write, deleted}
use ocs_osd_deployer.Controllers.Actions.{M, call, asks, emit, delete, list, ignore_not_found}
use ocs_osd_deployer.Controllers.Status.{verify_components_do_not_exist}
use ocs_osd_deployer.Controllers.Removal.{delete_storage, finish_deletion, reconcile_deletion}

-- The call deletes a storage cluster or a storage system.
abbrev pub DeletesStorage : Write → Type 0
DeletesStorage (deleted Kind.storage_cluster name) = Unit
DeletesStorage (deleted Kind.storage_system name) = Unit
DeletesStorage _ = ⊥

-- From `w` to `w'`, storage was deleted and nothing else was written.
unfoldable pub IsStorageDeletion : (E : Env) → (w w' : World E) → Type 0
IsStorageDeletion E w w' =
    (w'.reconciler ≡ w.reconciler)
    × (new : List Write) × All DeletesStorage new
    × (w'.journal ≡ new ++ w.journal)

module _ (E : Env) (w : World E) where
  abbrev Stays : {A : Type 0} → M E A → Type 0
  Stays m = Keeps (IsStorageDeletion E w) m

  module _ {A : Type 0} where
    Stays-call : (f : E.Cluster → Result A × E.Cluster) → Stays (call E f)
    unfolding call IsStorageDeletion
    Stays-call f = record { at = λ s h. h }

    Stays-asks : (f : Reconciler → A) → Stays (asks E f)
    unfolding asks
    Stays-asks f = record { at = λ s h. h }

  Stays-emit : (x : Write) → DeletesStorage x → Stays (emit E x)
  unfolding emit IsStorageDeletion
  Stays-emit x d = record {
    at = λ s (same, new, all, e). (same, x ∷ new, (d, all), ap (λ j. x ∷ j) e);
  }

  Stays-ignore_not_found : (r : Result (Unit {0})) → Stays (ignore_not_found E r)
  unfolding ignore_not_found
  Stays-ignore_not_found (ok u) = search keeps_rules
  Stays-ignore_not_found (err e) = search keeps_rules
  Stays-ignore_not_found panic = search keeps_rules

  Stays-delete :
      {k : Kind} (obj : Object k)
      → DeletesStorage (deleted k obj.metadata.name)
      → Stays (delete E obj)
  unfolding delete
  Stays-delete {k} obj d =
      Keeps-bind _ _ (Stays-emit (deleted k obj.metadata.name) d)
        (λ _. search (keeps_rules, Stays-call, Stays-ignore_not_found) depth 20)

  Stays-cluster : (obj : Object Kind.storage_cluster) → Stays (delete E obj)
  Stays-cluster obj = Stays-delete obj tt

  Stays-system : (obj : Object Kind.storage_system) → Stays (delete E obj)
  Stays-system obj = Stays-delete obj tt

  Stays-list : (k : Kind) → Stays (list E k)
  unfolding list
  Stays-list k = search (keeps_rules, Stays-call, Stays-asks) depth 20

  Stays-delete_storage : Stays (delete_storage E)
  unfolding delete_storage
  Stays-delete_storage =
      search (keeps_rules, Stays-asks, Stays-cluster, Stays-system, Stays-list) depth 20

  deletion_branch :
      (gone : Bool) → gone ≡ false → Stays (if gone then finish_deletion E else delete_storage E)
  deletion_branch true h = cc
  deletion_branch false h = Stays-delete_storage

  -- While the storage cluster is there, a run on a deleted resource asks for the deletion of the
  -- storage cluster and of storage systems only: the operator is not deleted, and the resource is
  -- not updated, so it keeps its finalizer.
  pub reconcile_deletion-waits :
      verify_components_do_not_exist w.reconciler ≡ false
      → IsStorageDeletion E w (reconcile_deletion E w).1
  unfolding reconcile_deletion asks ◌>>=◌ IsStorageDeletion
  reconcile_deletion-waits h =
      (Keeps-bind _ _ (deletion_branch _ h) (λ _. Keeps-pure _)).at w (refl, [], tt, refl)
