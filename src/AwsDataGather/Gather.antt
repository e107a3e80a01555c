-- ===== src/AwsDataGather/Gather.antt =====
-- `gatherAndSaveData`, the start of `main` and its endless loop. The API server's client, which
-- controller-runtime brings, and the network are parameters.
use ocs_osd_deployer.Base.{
  ℕ, zero, suc, ◌+◌, String, Bool, true, false, Option, none, some, [], ◌≡◌, ◌⊎◌, if◌then◌else◌,
  inl, inr,
}
use ocs_osd_deployer.Base.Dict.{Dict, lookup}
use ocs_osd_deployer.Kube.Exec.{Error, ok}
use ocs_osd_deployer.Kube.Object.{Kind, Object, ObjectMeta}
use ocs_osd_deployer.Kube.Env.{Env}
use ocs_osd_deployer.Utils.Imds.{
  Http, FetchError, fetched, fetch_failed, imds_server, imds_config_map_name, imds_fetch_ipv4_cidr,
}
use ocs_osd_deployer.Utils.PodName.{deployment_name}
use ocs_osd_deployer.Controllers.Init.{new_object}
use ocs_osd_deployer.AwsDataGather.{mutate_data}
use ocs_osd_deployer.AwsDataGather.Backoff.{next}

-- The client of the program: reading a deployment by name and namespace, and `ctrl.CreateOrUpdate`
-- of a config map with a function that does not fail. `none` is the nil error.
pub record Client (E : Env) : Type 0 where
  pub get_deployment : String → String → E.Cluster → (Error ⊎ ObjectMeta) × E.Cluster
  pub create_or_update :
      Object Kind.config_map
      → (Object Kind.config_map → Object Kind.config_map)
      → E.Cluster
      → Option Error × E.Cluster

-- What is documented of it: without an error, the object under the key is what the function made of
-- the one that was there, or of the new one.
abbrev pub SavesMutated : (E : Env) → Client E → Type 0
SavesMutated E client =
    (obj : Object Kind.config_map) (mutate : Object Kind.config_map → Object Kind.config_map)
    (c : E.Cluster)
    → (client.create_or_update obj mutate c).0 ≡ none
    → (existing : Object Kind.config_map) × ((E.get Kind.config_map obj.metadata.name
          obj.metadata.namespace (client.create_or_update obj mutate c).1).0
        ≡ ok (mutate existing))

pub data GatherError : Type 0 where
  cidr_failed : FetchError → GatherError
  config_map_failed : Error → GatherError

-- The result of `CreateOrUpdate`, wrapped.
unfoldable pub saved : Option Error → Option GatherError
saved none = none
saved (some e) = some (config_map_failed e)

abbrev pub is_nil : Option GatherError → Bool
is_nil none = true
is_nil (some e) = false

-- The reasons to leave `main` before the loop, each with exit code 1.
pub data StartError : Type 0 where
  no_namespace no_pod_name no_client : StartError
  bad_pod_name : String → StartError
  no_deployment : Error → StartError

-- The last step of the start: the deployment, or the exit if it cannot be read.
unfoldable pub found_or_exit :
    {C : Type 0} → (Error ⊎ ObjectMeta) × C → (StartError ⊎ ObjectMeta) × C
found_or_exit (inl e, c) = (inl (no_deployment e), c)
found_or_exit (inr deployment, c) = (inr deployment, c)

module _ (E : Env) (client : Client E) (http : Http) where
  -- All that is outside of the program.
  pub record Outside : Type 0 where
    pub net : http.Net
    pub cluster : E.Cluster

  unfoldable pub save_data : ObjectMeta → String → Outside → Option GatherError × Outside
  unfolding saved
  save_data deployment cidr o =
      let config_map =
        new_object {k = Kind.config_map} imds_config_map_name deployment.namespace [] in
      let (error, c) = client.create_or_update config_map (mutate_data deployment cidr) o.cluster in
      (saved error, record o { cluster = c })

  unfoldable pub gather_and_save_data : String → ObjectMeta → Outside → Option GatherError × Outside
  unfolding save_data
  gather_and_save_data server deployment o =
      let (result, net) = imds_fetch_ipv4_cidr http server o.net in
      let o' = record o { net = net } in
      elim result [
        | fetch_failed e ↦ (some (cidr_failed e), o')
        | fetched cidr ↦ save_data deployment cidr o'
      ]

  -- The start of `main`; `has_client` tells whether `client.New` succeeds.
  unfoldable pub set_up :
      (variables : Dict String) (has_client : Bool)
      → E.Cluster
      → (StartError ⊎ ObjectMeta) × E.Cluster
  unfolding found_or_exit
  set_up variables has_client c = elim (lookup "NAMESPACE" variables) [
    | none ↦ (inl no_namespace, c)
    | some namespace ↦ elim (lookup "POD_NAME" variables) [
      | none ↦ (inl no_pod_name, c)
      | some pod_name ↦ elim (deployment_name pod_name) [
        | none ↦ (inl (bad_pod_name pod_name), c)
        | some name ↦
            if has_client
            then found_or_exit (client.get_deployment name namespace c)
            else (inl no_client, c)
      ]
    ]
  ]

  -- The variables of the loop, and the seconds that have passed since its start.
  pub record Gatherer : Type 0 where
    pub outside : Outside
    pub backoff : ℕ
    pub elapsed : ℕ

  -- `lasts` are the seconds that an attempt takes, for which the program sets no limit: `http.Get`
  -- has no timeout. `wait` is what happens outside in that many seconds of sleep.
  module _ (deployment : ObjectMeta) (lasts : Outside → ℕ) (wait : ℕ → Outside → Outside) where
    -- Whether the attempt of the coming round succeeds.
    unfoldable pub succeeds : Gatherer → Bool
    succeeds s = is_nil (gather_and_save_data imds_server deployment s.outside).0

    -- One pass of the loop's body: an attempt, and the sleep after it.
    unfoldable pub round : Gatherer → Gatherer
    unfolding succeeds
    round s =
        let (sleep, backoff) = next (succeeds s) s.backoff in
        record {
          outside = wait sleep (gather_and_save_data imds_server deployment s.outside).1;
          backoff = backoff;
          elapsed = s.elapsed + (lasts s.outside + sleep);
        }

    -- The loop, cut after a number of rounds.
    unfoldable pub rounds : ℕ → Gatherer → Gatherer
    rounds zero s = s
    rounds (suc n) s = rounds n (round s)
