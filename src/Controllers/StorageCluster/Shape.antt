-- ===== src/Controllers/StorageCluster/Shape.antt =====
-- The parts of the code for the desired storage cluster, against what is meant.
use ocs_osd_deployer.Base.{
  ℕ, zero, suc, ◌^◌, String, ◌≡◌, inl, inr, refl, sym, ap, Bool, true, false, some, List, [], ◌∷◌,
  arith, eq_iff, str_eq, Bool-cases, if◌then◌else◌, map, le_or_lt,
}
use ocs_osd_deployer.Base.Text.{parse_bool}
use ocs_osd_deployer.Base.Dict.{Dict}
use ocs_osd_deployer.Base.Int.{ℤ, pos, negsuc, ◌≤ℤ◌, neg_ℕ}
use ocs_osd_deployer.Kube.Storage.{StorageDeviceSet, StorageClusterSpec}
use ocs_osd_deployer.Kube.Exec.{ok}
use ocs_osd_deployer.Templates.StorageClusters.{
  converged_storage_cluster_template, provider_storage_cluster_template,
  consumer_storage_cluster_template,
}
use ocs_osd_deployer.Controllers.State.{device_set_name}
use ocs_osd_deployer.Controllers.StorageCluster.Count.{device_set_count, provider_device_set_count}
use ocs_osd_deployer.Controllers.StorageCluster.Bounds.{
  device_set_count_max, provider_device_set_count_covers,
}
use ocs_osd_deployer.Controllers.StorageCluster.{
  ◌then_try◌, current_count, enable_mcg_text, ensure_mcg_deployment, apply_mcg, with_count,
}
use ocs_osd_deployer.Controllers.StorageCluster.Desired.{then_try-eq-ok, or_message-eq-ok}
use ocs_osd_deployer.Controllers.StorageCluster.Meaning.{
  IsLarger, HasCount, Covers, counted_as, IsSized,
}

-- The code finds the count that is meant.
pub current_count_lem :
    (sets : List StorageDeviceSet) (count : ℤ) → HasCount sets count → current_count sets ≡ count
unfolding current_count
current_count_lem [] count h = sym h
current_count_lem (set ∷ sets) count (inl (is, e)) =
    rw ((eq_iff set.name device_set_name).1 is, current_count) (sym e)
current_count_lem (set ∷ sets) count (inr (other, h)) =
    elim (Bool-cases (str_eq set.name device_set_name)) [
      | inl e ↦ absurd (other ((eq_iff set.name device_set_name).0 e))
      | inr e ↦ rw (e, current_count) (current_count_lem sets count h)
    ]

pub IsLarger-device_set_count :
    (desired current : ℤ) → IsLarger desired current (device_set_count desired current)
IsLarger-device_set_count desired current =
    let (a, b, c) = device_set_count_max desired current in (b, a, c)

neg_ℕ_le : (n : ℕ) → neg_ℕ n ≤ℤ pos 0
neg_ℕ_le zero = omega arith
neg_ℕ_le (suc n) = omega arith

pub Covers-provider_device_set_count : (n : ℤ) → Covers n (provider_device_set_count n)
unfolding provider_device_set_count
Covers-provider_device_set_count (pos n) = elim (le_or_lt (2 ^ 53) n) [
  | inl large ↦ inl large
  | inr small ↦ inr (provider_device_set_count_covers n small)
]
Covers-provider_device_set_count (negsuc n) = neg_ℕ_le _

ensure_mcg-same :
    (spec out : StorageClusterSpec) (b : Bool)
    → ensure_mcg_deployment spec b ≡ ok out
    → out ≡ record spec { multi_cloud_gateway = out.multi_cloud_gateway }
unfolding ensure_mcg_deployment
ensure_mcg-same spec out b h = ground arith

ensure_mcg-gateway :
    (spec out : StorageClusterSpec) (b : Bool)
    → spec.multi_cloud_gateway ≡ some "ignore"
    → ensure_mcg_deployment spec b ≡ ok out
    → out.multi_cloud_gateway ≡ (if b then some "manage" else some "ignore")
unfolding ensure_mcg_deployment
ensure_mcg-gateway spec out true e h = ground arith
ensure_mcg-gateway spec out false e h = ground arith

abbrev pub recounted : ℤ → StorageClusterSpec → StorageClusterSpec
recounted count template = record template {
  storage_device_sets = map (counted_as count) template.storage_device_sets;
}

module _ (params : Dict String) (out : StorageClusterSpec) where
  -- The gateway of a result is set as the parameter says.
  abbrev pub HasGateway : Type 0
  HasGateway =
      (enabled : Bool) × (parse_bool (enable_mcg_text params) ≡ some enabled)
      × (out.multi_cloud_gateway ≡ (if enabled then some "manage" else some "ignore"))

  pub apply_mcg-HasGateway :
      (spec : StorageClusterSpec)
      → spec.multi_cloud_gateway ≡ some "ignore"
      → apply_mcg params spec ≡ ok out
      → (out ≡ record spec { multi_cloud_gateway = out.multi_cloud_gateway }) × HasGateway
  unfolding apply_mcg
  apply_mcg-HasGateway spec off h =
      let (b, e, done) = then_try-eq-ok _ (ensure_mcg_deployment spec) h in
      (
        ensure_mcg-same spec out b done,
        (b, or_message-eq-ok _ _ e, ensure_mcg-gateway spec out b off done),
      )

  pub with_count-IsSized :
      (template : StorageClusterSpec) (count : ℤ)
      → with_count template count ≡ ok (recounted count template)
      → HasCount (map (counted_as count) template.storage_device_sets) count
      → template.multi_cloud_gateway ≡ some "ignore"
      → (with_count template count then_try apply_mcg params) ≡ ok out
      → IsSized template count out × HasGateway
  with_count-IsSized template count e has off h =
      let (spec, f, g) = then_try-eq-ok (with_count template count) (apply_mcg params) h in
      let (same, gateway) = apply_mcg-HasGateway (recounted count template) off (rw e at h) in
      let sets = ap (λ (s : StorageClusterSpec). s.storage_device_sets) same in
      ((rw sets has, same), gateway)

-- A sized specification is the result of the code on the recounted template.
pub converged-recounted :
    (count : ℤ)
    → with_count converged_storage_cluster_template count
      ≡ ok (recounted count converged_storage_cluster_template)
unfolding with_count converged_storage_cluster_template
converged-recounted count = refl

pub provider-recounted :
    (count : ℤ)
    → with_count provider_storage_cluster_template count
      ≡ ok (recounted count provider_storage_cluster_template)
unfolding with_count provider_storage_cluster_template
provider-recounted count = refl

pub converged-HasCount :
    (count : ℤ)
    → HasCount (map (counted_as count) converged_storage_cluster_template.storage_device_sets) count
unfolding converged_storage_cluster_template
converged-HasCount count = inl (refl, refl)

pub provider-HasCount :
    (count : ℤ)
    → HasCount (map (counted_as count) provider_storage_cluster_template.storage_device_sets) count
unfolding provider_storage_cluster_template
provider-HasCount count = inl (refl, refl)

pub gateways_off :
    (converged_storage_cluster_template.multi_cloud_gateway ≡ some "ignore")
    × (provider_storage_cluster_template.multi_cloud_gateway ≡ some "ignore")
    × (consumer_storage_cluster_template.multi_cloud_gateway ≡ some "ignore")
unfolding converged_storage_cluster_template provider_storage_cluster_template
    consumer_storage_cluster_template
gateways_off = (refl, refl, refl)
