-- ===== src/Controllers/StorageCluster/Strict.antt =====
-- What the function that is passed to `CreateOrUpdate` makes of the storage cluster where the
-- strategy is strict.
use ocs_osd_deployer.Base.{◌≡◌, Bool, true, some, if◌then◌else◌, ap, ◌∙◌}
use ocs_osd_deployer.Base.Int.{ℤ}
use ocs_osd_deployer.Kube.Storage.{StorageClusterSpec}
use ocs_osd_deployer.Kube.Exec.{ok}
use ocs_osd_deployer.Kube.Env.{Env}
use ocs_osd_deployer.Controllers.State.{World}
use ocs_osd_deployer.Controllers.StorageCluster.{mutate_storage_cluster}
use ocs_osd_deployer.Controllers.StorageCluster.Desired.{mutate-desired_for}
use ocs_osd_deployer.Controllers.StorageCluster.Meaning.{HasCount, AsksForGateway, IsMeant}
use ocs_osd_deployer.Controllers.StorageCluster.Shape.{current_count_lem}
use ocs_osd_deployer.Controllers.StorageCluster.Kinds.{desired-IsMeant}
use ocs_osd_deployer.Controllers.StorageCluster.Granted.{enable_mcg_text-AsksForGateway, same_some}

module _ (E : Env) (w : World E) (strict : w.reconciler.reconcile_strategy ≡ "strict")
    (succeeded : (mutate_storage_cluster E w).0 ≡ ok tt) where
  abbrev left : StorageClusterSpec
  left = (mutate_storage_cluster E w).1.reconciler.storage_cluster.body.spec

  -- Where the strategy is strict and the function that is passed to `CreateOrUpdate` succeeds, the
  -- deployment type is one of the three and the specification is, but for the gateway, the
  -- template of that type with these changes. For a converged cluster the device set has the
  -- larger of two counts, the size that the parameters give and the count that was there. For a
  -- provider it has the larger of the count that was there and a number of sets: for a size below
  -- 2^53 the least number of sets of 4 TiB that holds it, and for a negative size none or less
  -- than none. For a consumer the external storage is enabled, of the kind ocs, with the capacity,
  -- which is not negative, the ticket and the endpoint that the parameters give, and there are no
  -- device sets. The status is as it was read.
  pub mutate_strict :
      (had : ℤ)
      → HasCount w.reconciler.storage_cluster.body.spec.storage_device_sets had
      → IsMeant E w.reconciler.config.deployment_type w.reconciler.addon_params had left
        × ((mutate_storage_cluster E w).1.reconciler.storage_cluster.body.phase
            ≡ w.reconciler.storage_cluster.body.phase)
  mutate_strict had there =
      let (e, phase) = mutate-desired_for E w strict succeeded in
      let (meant, _) = desired-IsMeant E w.reconciler.addon_params left _ _ e in
      (rw (← current_count_lem _ had there) meant, phase)

  mutate-gateway :
      (enabled : Bool)
      → AsksForGateway w.reconciler.addon_params enabled
      → left.multi_cloud_gateway ≡ (if enabled then some "manage" else some "ignore")
  mutate-gateway enabled asks =
      let (e, phase) = mutate-desired_for E w strict succeeded in
      let (_, (enabled', read, is)) = desired-IsMeant E w.reconciler.addon_params left _ _ e in
      is
      ∙ ap (λ b. if b then some "manage" else some "ignore")
          (same_some read (enable_mcg_text-AsksForGateway w.reconciler.addon_params enabled asks))

  -- Where the strategy is strict, the function succeeds and the parameter for the gateway is read
  -- as true, the gateway is managed afterwards, whatever the deployment type is.
  pub mutate_storage_cluster-manages_gateway :
      AsksForGateway w.reconciler.addon_params true → left.multi_cloud_gateway ≡ some "manage"
  mutate_storage_cluster-manages_gateway asks = mutate-gateway true asks
