-- ===== src/Controllers/StorageCluster/Desired.antt =====
-- What the desired storage cluster has, and what the reconciliation strategy decides.
use ocs_osd_deployer.Base.{
  String, ◌<>◌, ◌⊎◌, ◌≡◌, ◌≢◌, refl, sym, ap, ◌∙◌, Bool, Option, none, some, List, eq_iff, ◌⊎◌,
  arith, inl, inr,
}
use ocs_osd_deployer.Base.Dict.{Dict, get_text}
use ocs_osd_deployer.Base.Int.{ℤ, ◌≤ℤ◌}
use ocs_osd_deployer.Base.Text.{atoi}
use ocs_osd_deployer.Api.{reconcile_strategy_strict}
use ocs_osd_deployer.Kube.Storage.{StorageDeviceSet, StorageClusterSpec}
use ocs_osd_deployer.Kube.Exec.{Result, ok, err, panic, message, ◌>>=◌}
use ocs_osd_deployer.Kube.Env.{Env}
use ocs_osd_deployer.Templates.StorageClusters.{
  converged_storage_cluster_template, provider_storage_cluster_template,
}
use ocs_osd_deployer.Controllers.State.{
  World, consumer_deployment_type, converged_deployment_type, provider_deployment_type,
  storage_size_key,
}
use ocs_osd_deployer.Controllers.Actions.{asks, assign, own}
use ocs_osd_deployer.Controllers.StorageCluster.Count.{device_set_count, provider_device_set_count}
use ocs_osd_deployer.Controllers.StorageCluster.Bounds.{device_set_count_max}
use ocs_osd_deployer.Controllers.StorageCluster.{
  ◌then_try◌, current_count, ensure_mcg_deployment, apply_mcg, size_of, with_count, or_message,
  desired_converged_storage_cluster, desired_provider_storage_cluster, desired_storage_cluster,
  desired_for, mutate_storage_cluster,
}

pub then_try-eq-ok :
    {A B : Type 0} (m : Result A) (f : A → Result B) {b : B}
    → (m then_try f) ≡ ok b
    → (a : A) × (m ≡ ok a) × (f a ≡ ok b)
then_try-eq-ok (ok a) f h = (a, refl, h)
then_try-eq-ok (err e) f h = cc
then_try-eq-ok panic f h = cc

ensure_mcg-device_sets :
    (spec : StorageClusterSpec) (b : Bool) {out : StorageClusterSpec}
    → ensure_mcg_deployment spec b ≡ ok out
    → out.storage_device_sets ≡ spec.storage_device_sets
unfolding ensure_mcg_deployment
ensure_mcg-device_sets spec b h = ground arith

-- The gateway's setting is the only field that is changed.
apply_mcg-device_sets :
    (params : Dict String) (spec : StorageClusterSpec) {out : StorageClusterSpec}
    → apply_mcg params spec ≡ ok out
    → out.storage_device_sets ≡ spec.storage_device_sets
unfolding apply_mcg
apply_mcg-device_sets params spec h =
    let (b, _, e) = then_try-eq-ok _ (ensure_mcg_deployment spec) h in
    ensure_mcg-device_sets spec b e

abbrev count_of : ℤ → Result StorageClusterSpec → ℤ
count_of n (ok spec) = current_count spec.storage_device_sets
count_of n _ = n

converged-with_count :
    (n : ℤ) (out : StorageClusterSpec)
    → with_count converged_storage_cluster_template n ≡ ok out
    → current_count out.storage_device_sets ≡ n
unfolding with_count converged_storage_cluster_template current_count
converged-with_count n out h = sym (ap (count_of n) h)

provider-with_count :
    (n : ℤ) (out : StorageClusterSpec)
    → with_count provider_storage_cluster_template n ≡ ok out
    → current_count out.storage_device_sets ≡ n
unfolding with_count provider_storage_cluster_template current_count
provider-with_count n out h = sym (ap (count_of n) h)

pub or_message-eq-ok :
    {A : Type 0} (o : Option A) (text : String) {a : A} → or_message o text ≡ ok a → o ≡ some a
or_message-eq-ok (some a) text h = ground arith
or_message-eq-ok none text h = cc

-- The count of a cluster whose template takes the count `g n` for the requested size `n`.
counted :
    (template : StorageClusterSpec) (g : ℤ → ℤ)
    → ((n : ℤ) (out : StorageClusterSpec)
        → with_count template n ≡ ok out
        → current_count out.storage_device_sets ≡ n)
    → (params : Dict String) (out : StorageClusterSpec)
    → (size_of params then_try λ size. with_count template (g size) then_try apply_mcg params)
      ≡ ok out
    → (n : ℤ) × (atoi (get_text storage_size_key params) ≡ some n)
      × (current_count out.storage_device_sets ≡ g n)
counted template g tc params out h =
    let (n, e, h1) =
      then_try-eq-ok (size_of params)
        (λ size. with_count template (g size) then_try apply_mcg params) h in
    let (s, e1, h2) = then_try-eq-ok (with_count template (g n)) (apply_mcg params) h1 in
    (
      n,
      or_message-eq-ok (atoi (get_text storage_size_key params)) _ e,
      ap current_count (apply_mcg-device_sets params s h2) ∙ tc (g n) s e1,
    )

module _ (E : Env) (params : Dict String) (current : List StorageDeviceSet)
    (out : StorageClusterSpec) where
  -- The device sets of a converged cluster: the requested number, or the current one if that is
  -- larger.
  pub converged_count :
      desired_converged_storage_cluster params current ≡ ok out
      → (n : ℤ) × (atoi (get_text storage_size_key params) ≡ some n)
        × (current_count out.storage_device_sets ≡ device_set_count n (current_count current))
  unfolding desired_converged_storage_cluster
  converged_count h =
      counted converged_storage_cluster_template (λ n. device_set_count n (current_count current))
        converged-with_count params out h

  -- Those of a provider: the number that holds the requested size, or the current one.
  pub provider_count :
      desired_provider_storage_cluster params current ≡ ok out
      → (n : ℤ) × (atoi (get_text storage_size_key params) ≡ some n)
        × (current_count out.storage_device_sets
            ≡ device_set_count (provider_device_set_count n) (current_count current))
  unfolding desired_provider_storage_cluster
  provider_count h =
      counted provider_storage_cluster_template
        (λ n. device_set_count (provider_device_set_count n) (current_count current))
        provider-with_count params out h

  desired_cases :
      (deployment_type : String)
      → deployment_type ≢ consumer_deployment_type
      → desired_storage_cluster E deployment_type params current ≡ ok out
      → (desired_converged_storage_cluster params current ≡ ok out)
        ⊎ (desired_provider_storage_cluster params current ≡ ok out)
  unfolding desired_storage_cluster
  desired_cases t ne h = ground (arith, eq_iff t consumer_deployment_type)

  -- Unless the deployment is a consumer, which has no device sets, the desired storage cluster has
  -- at least as many device sets as the current one, whatever the parameters ask for.
  pub desired-count_le :
      (deployment_type : String)
      → deployment_type ≢ consumer_deployment_type
      → desired_storage_cluster E deployment_type params current ≡ ok out
      → current_count current ≤ℤ current_count out.storage_device_sets
  desired-count_le t ne h = elim (desired_cases t ne h) [
    | inl is ↦
        let (n, _, e) = converged_count is in
        rw e (device_set_count_max n (current_count current)).0
    | inr is ↦
        let (n, _, e) = provider_count is in
        rw e (device_set_count_max (provider_device_set_count n) (current_count current)).0
  ]

-- A deployment type that is none of the three is an error.
pub desired_invalid :
    (E : Env) (t : String) (params : Dict String) (current : List StorageDeviceSet)
    → t ≢ converged_deployment_type
    → t ≢ consumer_deployment_type
    → t ≢ provider_deployment_type
    → desired_storage_cluster E t params current
      ≡ err (message ("Invalid deployment type value: " <> t))
unfolding desired_storage_cluster
desired_invalid E t params current a b c = ground (
  arith,
  eq_iff t converged_deployment_type,
  eq_iff t consumer_deployment_type,
  eq_iff t provider_deployment_type,
)

module _ (E : Env) (w : World E) where
  -- Where the strategy is not strict, the function that is passed to `CreateOrUpdate` leaves the
  -- specification and the status of the storage cluster as they were read.
  pub mutate_not_strict :
      w.reconciler.reconcile_strategy ≢ reconcile_strategy_strict
      → (mutate_storage_cluster E w).1.reconciler.storage_cluster.body
        ≡ w.reconciler.storage_cluster.body
  unfolding mutate_storage_cluster own asks assign ◌>>=◌
  mutate_not_strict h =
      ground (arith, eq_iff w.reconciler.reconcile_strategy reconcile_strategy_strict)

  -- Where it is strict and the function succeeds, the specification is what the code computes from
  -- the fields of the reconciler, and the status is as it was read.
  pub mutate-desired_for :
      w.reconciler.reconcile_strategy ≡ reconcile_strategy_strict
      → (mutate_storage_cluster E w).0 ≡ ok tt
      → (desired_for E w.reconciler
          ≡ ok (mutate_storage_cluster E w).1.reconciler.storage_cluster.body.spec)
        × ((mutate_storage_cluster E w).1.reconciler.storage_cluster.body.phase
            ≡ w.reconciler.storage_cluster.body.phase)
  unfolding mutate_storage_cluster own asks assign ◌>>=◌
  mutate-desired_for h k =
      ground (arith, eq_iff w.reconciler.reconcile_strategy reconcile_strategy_strict)
