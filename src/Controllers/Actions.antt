-- ===== src/Controllers/Actions.antt =====
-- `get`, `list`, `update`, `delete` and `own` of the reconciler, and `ctrl.CreateOrUpdate` as the
-- controller-runtime project documents it.
use ocs_osd_deployer.Base.{◌&&◌, Option, none, some, List, ◌∷◌, ◌≡◌, str_eq, if◌then◌else◌}
use ocs_osd_deployer.Kube.Exec.{
  Error, is_not_found, message, Result, ok, err, panic, Exec, pure, raise, crash, lift, attempt,
  ◌>>=◌, ◌>>◌,
}
use ocs_osd_deployer.Kube.Object.{Kind, Object, ObjectMeta}
use ocs_osd_deployer.Kube.Env.{Env}
use ocs_osd_deployer.Controllers.State.{
  Reconciler, World, Slot, Write, created, updated, status_updated, deleted,
}

-- The value, or the error for a missing one.
unfoldable pub or_raise : {S A : Type 0} → Option A → Error → Exec S A
or_raise (some a) e = pure a
or_raise none e = raise e

module _ (E : Env) where
  abbrev pub M : Type 0 → Type 0
  M A = Exec (World E) A

  -- A call of the API server.
  unfoldable pub call : {A : Type 0} → (E.Cluster → Result A × E.Cluster) → M A
  call f w = let (r, c) = f w.cluster in (r, record w { cluster = c })

  unfoldable pub asks : {A : Type 0} → (Reconciler → A) → M A
  asks f w = (ok (f w.reconciler), w)

  unfoldable pub assign : (Reconciler → Reconciler) → M (Unit {0})
  assign f w = (ok tt, record w { reconciler = f w.reconciler })

  unfoldable pub emit : Write → M (Unit {0})
  emit e w = (ok tt, record w { journal = e ∷ w.journal })

  module _ {k : Kind} where
    -- `get` into an object that is no field of the reconciler
    unfoldable pub get : Object k → M (Object k)
    get obj = call (E.get k obj.metadata.name obj.metadata.namespace)

    -- `get` into a field: the object is replaced if the call succeeds.
    unfoldable pub refresh : Slot k → M (Unit {0})
    refresh slot = do obj ← asks slot.read; found ← get obj; assign (slot.write found)

    -- `Client.Update`; the object that the server returns is of use to few callers.
    unfoldable pub update : Object k → M (Object k)
    update obj = do emit (updated k obj.metadata.name); call (E.update k obj)

    unfoldable pub update_slot : Slot k → M (Unit {0})
    update_slot slot = do obj ← asks slot.read; new ← update obj; assign (slot.write new)

    unfoldable pub update_status_slot : Slot k → M (Unit {0})
    update_status_slot slot = do
      obj ← asks slot.read
      emit (status_updated k obj.metadata.name)
      new ← call (E.update_status k obj)
      assign (slot.write new)

    unfoldable pub create_slot : Slot k → M (Unit {0})
    create_slot slot = do
      obj ← asks slot.read
      emit (created k obj.metadata.name)
      new ← call (E.create k obj)
      assign (slot.write new)

  unfoldable pub ignore_not_found : Result (Unit {0}) → M (Unit {0})
  ignore_not_found (ok u) = pure u
  ignore_not_found (err e) = if is_not_found e then pure tt else raise e
  ignore_not_found panic = crash

  -- `delete`: an object that is gone already is no error.
  unfoldable pub delete : {k : Kind} → Object k → M (Unit {0})
  delete {k} obj = do
    emit (deleted k obj.metadata.name)
    done ← attempt (call (E.delete k obj))
    ignore_not_found done

  -- `list`, in the namespace of the reconciler
  unfoldable pub list : (k : Kind) → M (List (Object k))
  list k = do namespace ← asks (λ r. r.namespace); call (E.list k (some namespace) none)

  module _ {k : Kind} (slot : Slot k) where
    unfoldable pub own : M (Unit {0})
    own = do
      owner ← asks (λ r. r.managed_ocs.metadata)
      obj ← asks slot.read
      owned ← lift (E.set_controller_reference owner obj.metadata)
      assign (slot.write (record obj { metadata = owned }))

    -- What documentation says of the function that is passed: it leaves the key alone.
    unfoldable pub check_key : ObjectMeta → M (Unit {0})
    check_key before = do
      obj ← asks slot.read
      if str_eq before.name obj.metadata.name && str_eq before.namespace obj.metadata.namespace
          then pure tt
          else raise (message "MutateFn cannot mutate object name and/or object namespace")

    abbrev pub create_after : M (Unit {0}) → ObjectMeta → M (Unit {0})
    create_after mutate key = do mutate; check_key key; create_slot slot

    abbrev pub update_after : M (Unit {0}) → ObjectMeta → M (Unit {0})
    update_after mutate key = do
      existing ← asks slot.read
      mutate
      check_key key
      obj ← asks slot.read
      if E.same_object k existing obj then pure tt else update_slot slot

    -- The branch on the result of reading the object.
    unfoldable pub write_after : M (Unit {0}) → ObjectMeta → Result (Unit {0}) → M (Unit {0})
    write_after mutate key (ok _) = update_after mutate key
    write_after mutate key (err e) = if is_not_found e then create_after mutate key else raise e
    write_after mutate key panic = crash

    -- The documented behaviour of `ctrl.CreateOrUpdate`: read the object, let the function mutate
    -- it, and create it, or update it if it was changed.
    unfoldable pub documented : M (Unit {0}) → M (Unit {0})
    documented mutate = do
      obj ← asks slot.read
      found ← attempt (refresh slot)
      write_after mutate obj.metadata found

  abbrev pub CreateOrUpdate : Type 0
  CreateOrUpdate = (k : Kind) → Slot k → M (Unit {0}) → M (Unit {0})

  abbrev pub IsCreateOrUpdate : CreateOrUpdate → Type 0
  IsCreateOrUpdate f =
      (k : Kind) (slot : Slot k) (mutate : M (Unit {0})) → f k slot mutate ≡ documented slot mutate
