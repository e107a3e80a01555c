-- ===== src/Controllers/StorageCluster/Settles.antt =====
-- A second run finds nothing to change in the storage cluster.
use ocs_osd_deployer.Base.{String, ◌≡◌, List, eq_iff, arith, Bool-cases, inl, inr, str_eq}
use ocs_osd_deployer.Base.Dict.{Dict}
use ocs_osd_deployer.Base.Int.{ℤ}
use ocs_osd_deployer.Kube.Storage.{StorageDeviceSet, StorageClusterSpec}
use ocs_osd_deployer.Kube.Exec.{ok, ◌>>=◌}
use ocs_osd_deployer.Api.{reconcile_strategy_strict}
use ocs_osd_deployer.Controllers.Actions.{asks, assign, own}
use ocs_osd_deployer.Kube.Env.{Env}
use ocs_osd_deployer.Controllers.State.{
  World, consumer_deployment_type, converged_deployment_type, provider_deployment_type,
}
use ocs_osd_deployer.Controllers.StorageCluster.Count.{device_set_count, provider_device_set_count}
use ocs_osd_deployer.Controllers.StorageCluster.{
  current_count, desired_converged_storage_cluster, desired_provider_storage_cluster,
  desired_storage_cluster, desired_for, mutate_storage_cluster,
}
use ocs_osd_deployer.Controllers.StorageCluster.Desired.{
  converged_count, provider_count, mutate_not_strict, mutate-desired_for,
}

device_set_count_idem :
    (desired current : ℤ)
    → device_set_count desired (device_set_count desired current) ≡ device_set_count desired current
unfolding device_set_count
device_set_count_idem desired current = ground arith

module _ (E : Env) (params : Dict String) (current : List StorageDeviceSet)
    (out : StorageClusterSpec) where
  converged-settles :
      desired_converged_storage_cluster params current ≡ ok out
      → desired_converged_storage_cluster params out.storage_device_sets ≡ ok out
  unfolding desired_converged_storage_cluster
  converged-settles h =
      let (n, e, k) = converged_count E params current out h in
      rw (e, k, device_set_count_idem n (current_count current)) (rw e at h)

  provider-settles :
      desired_provider_storage_cluster params current ≡ ok out
      → desired_provider_storage_cluster params out.storage_device_sets ≡ ok out
  unfolding desired_provider_storage_cluster
  provider-settles h =
      let (n, e, k) = provider_count E params current out h in
      rw (e, k, device_set_count_idem (provider_device_set_count n) (current_count current))
        (rw e at h)

  -- The specification that is desired once the desired one has been written is the same again.
  desired-settles :
      (deployment_type : String)
      → desired_storage_cluster E deployment_type params current ≡ ok out
      → desired_storage_cluster E deployment_type params out.storage_device_sets ≡ ok out
  unfolding desired_storage_cluster
  desired-settles t h = elim (Bool-cases (str_eq t converged_deployment_type)) [
    | inl c ↦
        rw (desired_storage_cluster, c) (converged-settles (rw (desired_storage_cluster, c) at h))
    | inr c ↦ elim (Bool-cases (str_eq t consumer_deployment_type)) [
      | inl d ↦ rw (desired_storage_cluster, c, d) (rw (desired_storage_cluster, c, d) at h)
      | inr d ↦ elim (Bool-cases (str_eq t provider_deployment_type)) [
        | inl f ↦
            rw (desired_storage_cluster, c, d, f)
              (provider-settles (rw (desired_storage_cluster, c, d, f) at h))
        | inr f ↦ rw (desired_storage_cluster, c, d, f) (rw (desired_storage_cluster, c, d, f) at h)
      ]
    ]
  ]

module _ (E : Env) (w : World E) where
  abbrev mutated : World E
  mutated = (mutate_storage_cluster E w).1

  -- What the specification is computed from stays as it is.
  mutate-inputs :
      (mutated.reconciler.config.deployment_type ≡ w.reconciler.config.deployment_type)
      × (mutated.reconciler.addon_params ≡ w.reconciler.addon_params)
      × (mutated.reconciler.reconcile_strategy ≡ w.reconciler.reconcile_strategy)
  unfolding mutate_storage_cluster own asks assign ◌>>=◌
  mutate-inputs = ground (arith, eq_iff w.reconciler.reconcile_strategy reconcile_strategy_strict)

  mutate_desired :
      desired_for E w.reconciler ≡ ok w.reconciler.storage_cluster.body.spec
      → mutated.reconciler.storage_cluster.body ≡ w.reconciler.storage_cluster.body
  unfolding mutate_storage_cluster own asks assign ◌>>=◌
  mutate_desired h =
      ground (arith, eq_iff w.reconciler.reconcile_strategy reconcile_strategy_strict)

module _ (E : Env) (w : World E) where
  -- Where the function that is passed to `CreateOrUpdate` succeeds, whatever the strategy, a second
  -- call of it on what the first one left changes neither the specification nor the status of the
  -- storage cluster, although the count depends on the count that is there.
  pub mutate_storage_cluster-settles :
      (mutate_storage_cluster E w).0 ≡ ok tt
      → (mutate_storage_cluster E (mutate_storage_cluster E w).1).1.reconciler.storage_cluster.body
        ≡ (mutate_storage_cluster E w).1.reconciler.storage_cluster.body
  mutate_storage_cluster-settles h =
      let (same_type, same_params, same_strategy) = mutate-inputs E w in
      elim (Bool-cases (str_eq w.reconciler.reconcile_strategy reconcile_strategy_strict)) [
        | inl strict ↦
            let (desired, _) =
              mutate-desired_for E w ((eq_iff w.reconciler.reconcile_strategy _).0 strict) h in
            mutate_desired E (mutated E w) (
              rw (same_type, same_params)
                (desired-settles E w.reconciler.addon_params
                  w.reconciler.storage_cluster.body.spec.storage_device_sets _
                  w.reconciler.config.deployment_type desired))
        | inr lax ↦
            mutate_not_strict E (mutated E w) (λ e.
              ground (arith, eq_iff w.reconciler.reconcile_strategy reconcile_strategy_strict))
      ]
