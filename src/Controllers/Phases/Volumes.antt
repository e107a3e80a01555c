-- ===== src/Controllers/Phases/Volumes.antt =====
-- When `hasOCSVolumes` finds a volume.
use mathlib.Core.List.Memᴰ
use mathlib.Core.List.{Memᴰ}
use ocs_osd_deployer.Base.{
  String, ◌≡◌, ◌↔◌, refl, sym, ap, ◌∙◌, true, List, [], ◌∷◌, starts_with, arith, Bool-cases, inl,
  inr,
}
use ocs_osd_deployer.Kube.Object.{Kind, Object}
use ocs_osd_deployer.Utils.Slices.{contains, contains-mem, mem-contains}
use ocs_osd_deployer.Controllers.Removal.{ocs_storage_classes, uses_class}

module _ (namespace : String) where
  abbrev IsOcsClass : Object Kind.storage_class → Type 0
  IsOcsClass c = starts_with c.body namespace ≡ true

  class_of_name :
      (name : String) (cs : List (Object Kind.storage_class))
      → Memᴰ name (ocs_storage_classes namespace cs)
      → (c : Object Kind.storage_class) × Memᴰ c cs × IsOcsClass c × (c.metadata.name ≡ name)
  unfolding ocs_storage_classes
  class_of_name name [] m = absurd (Memᴰ.not-nil m)
  class_of_name name (c ∷ cs) m = elim (Bool-cases (starts_with c.body namespace)) [
    | inl e ↦ elim (Memᴰ.cases_cons (rw (ocs_storage_classes, e) at m)) [
      | inl is ↦ (c, Memᴰ.head refl, e, sym is)
      | inr rest ↦ let (d, k, p, n) = class_of_name name cs rest in (d, Memᴰ.tail k, p, n)
    ]
    | inr e ↦
        let (d, k, p, n) = class_of_name name cs (rw (ocs_storage_classes, e) at m) in
        (d, Memᴰ.tail k, p, n)
  ]

  name_of_class :
      (c : Object Kind.storage_class) (cs : List (Object Kind.storage_class))
      → Memᴰ c cs
      → IsOcsClass c
      → Memᴰ c.metadata.name (ocs_storage_classes namespace cs)
  unfolding ocs_storage_classes
  name_of_class c [] m is = absurd (Memᴰ.not-nil m)
  name_of_class c (d ∷ cs) m is = elim (Memᴰ.cases_cons m) [
    | inl e ↦
        let is_d : IsOcsClass d =
          ap (λ (x : Object Kind.storage_class). starts_with x.body namespace) (sym e) ∙ is in
        rw is_d (Memᴰ.head (ap (λ (x : Object Kind.storage_class). x.metadata.name) e))
    | inr rest ↦ elim (Bool-cases (starts_with d.body namespace)) [
      | inl e ↦ rw e (Memᴰ.tail (name_of_class c cs rest is))
      | inr e ↦ rw e (name_of_class c cs rest is)
    ]
  ]

module _ (classes : List String) where
  volume_of_use :
      (pvs : List (Object Kind.persistent_volume))
      → uses_class classes pvs ≡ true
      → (pv : Object Kind.persistent_volume) × Memᴰ pv pvs × (contains classes pv.body ≡ true)
  unfolding uses_class
  volume_of_use [] h = ground arith
  volume_of_use (pv ∷ pvs) h = elim (Bool-cases (contains classes pv.body)) [
    | inl e ↦ (pv, Memᴰ.head refl, e)
    | inr e ↦ let (v, m, c) = volume_of_use pvs (ground arith) in (v, Memᴰ.tail m, c)
  ]

  use_of_volume :
      (pv : Object Kind.persistent_volume) (pvs : List (Object Kind.persistent_volume))
      → Memᴰ pv pvs
      → contains classes pv.body ≡ true
      → uses_class classes pvs ≡ true
  unfolding uses_class
  use_of_volume pv [] m c = absurd (Memᴰ.not-nil m)
  use_of_volume pv (v ∷ pvs) m c = elim (Memᴰ.cases_cons m) [
    | inl e ↦ ground arith
    | inr rest ↦ ground (arith, use_of_volume pv pvs rest c)
  ]

-- The search for volumes succeeds exactly if some volume names a storage class that is in the list
-- and whose provisioner starts with the namespace.
pub uses_class_iff :
    (namespace : String) (classes : List (Object Kind.storage_class))
    (volumes : List (Object Kind.persistent_volume))
    → (uses_class (ocs_storage_classes namespace classes) volumes ≡ true) ↔ (
        (pv : Object Kind.persistent_volume) × (c : Object Kind.storage_class) × Memᴰ pv volumes
        × Memᴰ c classes
        × (starts_with c.body namespace ≡ true)
        × (c.metadata.name ≡ pv.body))
uses_class_iff namespace classes volumes = (
  λ h.
      let (pv, m, k) = volume_of_use (ocs_storage_classes namespace classes) volumes h in
      let (c, mc, p, n) = class_of_name namespace pv.body classes (contains-mem _ pv.body k) in
      (pv, c, m, mc, p, n),
  λ (pv, c, m, mc, p, n).
      use_of_volume (ocs_storage_classes namespace classes) pv volumes m
        (mem-contains _ pv.body (rw (sym n) (name_of_class namespace c classes mc p))),
)
