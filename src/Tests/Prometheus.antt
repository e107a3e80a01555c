-- ===== src/Tests/Prometheus.antt =====
-- A deployer without its manager's deployment, and the Prometheus of a provider.
use ocs_osd_deployer.Base.{String, ◌≡◌, refl, Option, none, ℕ, List, [], ◌∷◌}
use ocs_osd_deployer.Api.{ready, reconcile_strategy_strict}
use ocs_osd_deployer.Kube.Exec.{Result, ok, err, panic, ◌>>=◌}
use ocs_osd_deployer.Kube.Exec
use ocs_osd_deployer.Kube.Object.{Kind, Object, new_meta}
use ocs_osd_deployer.Kube.Env.{Env}
use ocs_osd_deployer.Controllers.State.{World, deployer_csv_prefix}
use ocs_osd_deployer.Controllers.Actions.{own, asks, assign, list, call, or_raise, get}
use ocs_osd_deployer.Controllers.Slots
use ocs_osd_deployer.Controllers.Operators.{get_csv_by_prefix}
use ocs_osd_deployer.Controllers.Prometheus.{label_prometheus, mutate_prometheus}
use ocs_osd_deployer.Controllers.Prometheus.Missing.{mutate_prometheus-panics}
use ocs_osd_deployer.Tests.Scene.{config, env, csv_obj, reconciler}

abbrev deployer_listing : (k : Kind) → Option String → Option ℕ → ℕ → Result (List (Object k)) × ℕ
deployer_listing Kind.cluster_service_version ns limit n =
    (ok (csv_obj "ocs-osd-deployer.v2.0" ∷ []), n)
deployer_listing k ns limit n = (ok [], n)

abbrev deployer_env : Env
deployer_env = record env { list = deployer_listing }

abbrev before : World deployer_env
before = record {
  reconciler = reconciler ready reconcile_strategy_strict [];
  cluster = 0;
  journal = [];
}

abbrev owned : World deployer_env
owned = (own deployer_env Slots.prometheus before).1

abbrev found : World deployer_env
found =
    (get_csv_by_prefix deployer_env deployer_csv_prefix
      (assign deployer_env (label_prometheus deployer_env) owned).1).1

is_owned : own deployer_env Slots.prometheus before ≡ (ok tt, owned)
unfolding own asks assign ◌>>=◌
is_owned = refl

is_found :
    get_csv_by_prefix deployer_env deployer_csv_prefix
      (assign deployer_env (label_prometheus deployer_env) owned).1
    ≡ (ok (csv_obj "ocs-osd-deployer.v2.0"), found)
unfolding get_csv_by_prefix list call or_raise own asks assign ◌>>=◌
is_found = refl

mutate_prometheus-panics_example : (mutate_prometheus deployer_env before).0 ≡ panic
mutate_prometheus-panics_example =
    mutate_prometheus-panics deployer_env before owned found (csv_obj "ocs-osd-deployer.v2.0")
      is_owned is_found ((λ e. cc), tt)

-- A deployer with its manager, in a cluster whose version can be read.
abbrev manager : Object Kind.cluster_service_version
manager = record (csv_obj "ocs-osd-deployer.v2.0") {
  body =
      (record {
        name = "ocs-osd-controller-manager";
        replicas = none;
        containers =
            (record {
              name = "kube-rbac-proxy";
              image = "proxy:1";
              args = [];
              ports = [];
              volume_mounts = [];
              resources = record { limits = []; requests = [] };
            })
            ∷ [];
      })
      ∷ [];
}

abbrev manager_listing : (k : Kind) → Option String → Option ℕ → ℕ → Result (List (Object k)) × ℕ
manager_listing Kind.cluster_service_version ns limit n = (ok (manager ∷ []), n)
manager_listing k ns limit n = (ok [], n)

abbrev reading : (k : Kind) → String → String → ℕ → Result (Object k) × ℕ
reading Kind.cluster_version name ns n =
    (ok (record { metadata = new_meta name ns; body = "6" }), n)
reading Kind.secret name ns n = (
  ok (record {
    metadata = record (new_meta name ns) { uid = "7" };
    body =
        ("prom-remote-write-config-id", "id")
        ∷ ("prom-remote-write-config-secret", "text")
        ∷ ("rhobs-audience", "audience")
        ∷ [];
  }),
  n,
)
reading k name ns n = (err Exec.not_found, n)

abbrev manager_env : Env
manager_env = record env { list = manager_listing; get = reading }

abbrev provider : World manager_env
provider = record {
  reconciler = record before.reconciler { config = record config { deployment_type = "provider" } };
  cluster = 0;
  journal = [];
}

abbrev mutated : World manager_env
mutated = (mutate_prometheus manager_env provider).1
