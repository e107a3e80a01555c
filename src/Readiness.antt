-- ===== src/Readiness.antt =====
-- readinessProbe/main.go and readinessProbe/readiness/server.go: the start and the handler of the
-- probe.
use ocs_osd_deployer.Base.{
  ℕ, String, Bool, Option, none, some, ◌&&◌, ◌≡◌, refl, ◌↔◌, arith, if◌then◌else◌,
}
use ocs_osd_deployer.Api.{ready, ComponentStatusMap, is_ready}
use ocs_osd_deployer.Kube.Exec.{Result, ok, err, panic}
use ocs_osd_deployer.Kube.Object.{Kind, Object}
use ocs_osd_deployer.Kube.Env.{Env}

unfoldable pub components_ready : ComponentStatusMap → Bool
components_ready c = is_ready c.storage_cluster && is_ready c.prometheus && is_ready c.alertmanager

-- `isReady`, on the answer of the API server.
unfoldable pub is_ready_answer : Result (Object Kind.managed_ocs) → Result Bool
unfolding components_ready
is_ready_answer (ok obj) = ok (components_ready obj.body.status.components)
is_ready_answer (err e) = err e
is_ready_answer panic = panic

-- The status code that the handler writes; 0 where the handler panics before it writes one.
unfoldable pub status_code : Result Bool → ℕ
status_code (ok all_ready) = if all_ready then 200 else 503
status_code (err e) = 500
status_code panic = 0

-- The handler: it reads the resource anew for each request.
unfoldable pub handle : (E : Env) → (name namespace : String) → E.Cluster → ℕ × E.Cluster
unfolding is_ready_answer status_code
handle E name namespace c =
    let (answer, c') = E.get Kind.managed_ocs name namespace c in
    (status_code (is_ready_answer answer), c')

abbrev pub namespace_env_var_name : String
namespace_env_var_name = "NAMESPACE"

-- What `main` of readinessProbe/main.go comes to: an exit with a code, or the server for a
-- resource.
pub data ProbeStart : Type 0 where
  exits : ℕ → ProbeStart
  serves : (name namespace : String) → ProbeStart

-- `has_client` tells whether `client.New` succeeds.
unfoldable pub probe_main : (has_client : Bool) → (String → Option String) → ProbeStart
probe_main has_client variables =
    if has_client
    then elim (variables namespace_env_var_name) [
      | none ↦ exits 2
      | some namespace ↦ serves "managedocs" namespace
    ]
    else exits 1

abbrev pub AllReady : Result (Object Kind.managed_ocs) → Type 0
AllReady answer =
    (obj : Object Kind.managed_ocs) × (answer ≡ ok obj)
    × (obj.body.status.components
        ≡ record { storage_cluster = ready; prometheus = ready; alertmanager = ready })

ready_answer :
    (a : Result (Object Kind.managed_ocs)) → status_code (is_ready_answer a) ≡ 200 → AllReady a
unfolding is_ready_answer status_code
ready_answer (ok obj) h = (obj, refl, ground arith)
ready_answer (err e) h = ground arith
ready_answer panic h = ground arith

answer_ready :
    (a : Result (Object Kind.managed_ocs)) → AllReady a → status_code (is_ready_answer a) ≡ 200
unfolding is_ready_answer status_code
answer_ready a (obj, e, r) = rw e (ground arith)

-- The probe answers 200 exactly if the resource is there and its three components are ready.
pub handle_ready :
    (E : Env) (name namespace : String) (c : E.Cluster)
    → ((handle E name namespace c).0 ≡ 200) ↔ AllReady (E.get Kind.managed_ocs name namespace c).0
unfolding handle
handle_ready E name namespace c = (ready_answer _, answer_ready _)
