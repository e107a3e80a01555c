-- ===== src/Tests/Strict.antt =====
-- The storage cluster of a converged deployment under the strict strategy, with a gateway that the
-- parameters turn on, and with a managed one for which they do not ask.
use ocs_osd_deployer.Kube.Storage.{StorageDeviceSet}
use ocs_osd_deployer.Base.{List, map, ◌≡◌, refl, some, [], ◌∷◌, inl, inr, true}
use ocs_osd_deployer.Base.Dict.{lookup, get_text}
use ocs_osd_deployer.Base.Int.{pos}
use ocs_osd_deployer.Base.Text.{atoi, parse_bool}
use ocs_osd_deployer.Api.{ready, reconcile_strategy_strict}
use ocs_osd_deployer.Kube.Exec.{ok, ◌>>=◌}
use ocs_osd_deployer.Controllers.State.{World}
use ocs_osd_deployer.Controllers.Actions.{own, asks, assign}
use ocs_osd_deployer.Templates.StorageClusters.{converged_storage_cluster_template}
use ocs_osd_deployer.Controllers.StorageCluster.{
  mutate_storage_cluster, desired_storage_cluster, desired_converged_storage_cluster, with_count,
  apply_mcg, current_count,
}
use ocs_osd_deployer.Controllers.StorageCluster.Meaning.{
  counted_as, HasCount, AsksForGateway, IsMeant,
}
use ocs_osd_deployer.Controllers.StorageCluster.Strict.{
  mutate_strict, mutate_storage_cluster-manages_gateway,
}
use ocs_osd_deployer.Tests.Scene.{env, reconciler, storage_cluster_obj}

-- Six device sets are there, and four are asked for.
abbrev six_sets : List StorageDeviceSet
six_sets = map (counted_as (pos 6)) converged_storage_cluster_template.storage_device_sets

abbrev on_world : World env
on_world = record {
  reconciler =
      record (reconciler ready reconcile_strategy_strict
        (("size", "4") ∷ ("enable-mcg", "true") ∷ [])) {
          storage_cluster = record storage_cluster_obj {
            body = record storage_cluster_obj.body {
              spec = record storage_cluster_obj.body.spec { storage_device_sets = six_sets };
            };
          };
        };
  cluster = 0;
  journal = [];
}

abbrev managed_world : World env
managed_world = record {
  reconciler = record (reconciler ready reconcile_strategy_strict (("size", "4") ∷ [])) {
    storage_cluster = record storage_cluster_obj {
      body = record storage_cluster_obj.body {
        spec = record storage_cluster_obj.body.spec { multi_cloud_gateway = some "manage" };
      };
    };
  };
  cluster = 0;
  journal = [];
}

on_succeeds : (mutate_storage_cluster env on_world).0 ≡ ok tt
unfolding mutate_storage_cluster own asks assign desired_storage_cluster
    desired_converged_storage_cluster with_count apply_mcg atoi get_text
    converged_storage_cluster_template current_count ◌>>=◌
on_succeeds = refl

there : HasCount on_world.reconciler.storage_cluster.body.spec.storage_device_sets (pos 6)
unfolding converged_storage_cluster_template
there = inl (refl, refl)

asked : AsksForGateway on_world.reconciler.addon_params true
unfolding lookup parse_bool
asked = inr ("true", refl, refl)

mutate_strict_example :
    IsMeant env "converged" on_world.reconciler.addon_params
      (pos 6)
      (mutate_storage_cluster env on_world).1.reconciler.storage_cluster.body.spec
    × ((mutate_storage_cluster env on_world).1.reconciler.storage_cluster.body.phase ≡ "Ready")
mutate_strict_example = mutate_strict env on_world refl on_succeeds (pos 6) there

mutate_storage_cluster-manages_gateway_example :
    (mutate_storage_cluster env on_world).1.reconciler.storage_cluster.body.spec.multi_cloud_gateway
    ≡ some "manage"
mutate_storage_cluster-manages_gateway_example =
    mutate_storage_cluster-manages_gateway env on_world refl on_succeeds asked
