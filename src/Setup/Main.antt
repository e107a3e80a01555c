-- ===== src/Setup/Main.antt =====
-- `mapCRDAvailability` and the steps of `main` up to the start of the manager. The manager and the
-- clients are those of controller-runtime, and parameters; flags, log and schemes are left out.
pub mod Availability
pub mod Started
pub mod Handover
use ocs_osd_deployer.Base.{
  String, Bool, true, false, not, ◌||◌, Option, none, some, List, [], ◌∷◌, str_eq, if◌then◌else◌,
}
use ocs_osd_deployer.Base.Dict.{Dict, insert, get_text}
use ocs_osd_deployer.Kube.Exec.{Error, is_not_found, Result, ok, err, panic}
use ocs_osd_deployer.Kube.Env.{Env}
use ocs_osd_deployer.Controllers.State.{Config, egress_firewall_crd, egress_network_policy_crd}
use ocs_osd_deployer.Setup.{read_env_vars, config_of, ensure_managed_ocs}

-- `client.New` is called twice: for the unrestricted client of the controller, and for the one that
-- reads the resource definitions. `get_crd` gives the UID of a resource definition.
pub record Platform (E : Env) : Type 0 where
  pub has_unrestricted_client : Bool
  pub has_crd_client : Bool
  pub new_manager : (namespace : String) → Option Error
  pub get_crd : (name : String) → E.Cluster → Result String × E.Cluster
  pub set_up_with_manager : Config → Option Error

-- The definitions that `main` asks for.
abbrev pub crd_names : List String
crd_names = egress_firewall_crd ∷ egress_network_policy_crd ∷ []

-- Where `main` exits, with code 1.
pub data Failure : Type 0 where
  no_variables no_client no_crds not_ensured : Failure
  no_manager no_controller : Error → Failure

-- `main` exits, panics, or hands over to the manager.
pub data Outcome : Type 0 where
  exited : Failure → Outcome
  panicked : Outcome
  started : Config → Outcome

-- The UID that is left in the new object: a definition that is not there leaves it empty.
abbrev pub uid_found : Result String → Option String
uid_found (ok uid) = some uid
uid_found (err e) = if is_not_found e then some "" else none
uid_found panic = none

module _ (E : Env) (p : Platform E) where
  -- The loop over the names; `none` is the exit.
  unfoldable pub map_crds : List String → Dict Bool → E.Cluster → Option (Dict Bool) × E.Cluster
  unfolding insert
  map_crds [] exist c = (some exist, c)
  map_crds (name ∷ names) exist c =
      let (answer, c') = p.get_crd name c in
      elim (uid_found answer) [
        | none ↦ (none, c')
        | some uid ↦ map_crds names (insert name (not (str_eq uid "")) exist) c'
      ]

  unfoldable pub map_crd_availability : List String → E.Cluster → Option (Dict Bool) × E.Cluster
  unfolding map_crds
  map_crd_availability names c = if p.has_crd_client then map_crds names [] c else (none, c)

  -- The result of `ensureManagedOCS`.
  abbrev pub after_ensure : Config → Result (Unit {0}) → Outcome
  after_ensure r (ok _) = started r
  after_ensure r (err e) = exited not_ensured
  after_ensure r panic = panicked

  -- The controller is set up, and the resource is created.
  unfoldable pub run_controller : Dict String → Config → E.Cluster → Outcome × E.Cluster
  run_controller vars r c = elim (p.set_up_with_manager r) [
    | some e ↦ (exited (no_controller e), c)
    | none ↦ let (ensured, c') = ensure_managed_ocs E vars c in (after_ensure r ensured, c')
  ]

  abbrev pub with_crds : Dict String → Option (Dict Bool) → E.Cluster → Outcome × E.Cluster
  with_crds vars none c = (exited no_crds, c)
  with_crds vars (some crds) c = run_controller vars (config_of vars crds) c

  -- The unrestricted client, and after it the map of the two definitions that the controller asks
  -- for; the program exits where either call of `client.New` fails.
  unfoldable pub with_manager : Dict String → E.Cluster → Outcome × E.Cluster
  with_manager vars c =
      let (crds, c') = map_crd_availability crd_names c in
      if p.has_unrestricted_client then with_crds vars crds c' else (exited no_client, c)

  unfoldable pub main : (String → Option String) → E.Cluster → Outcome × E.Cluster
  main env c = elim (read_env_vars env) [
    | none ↦ (exited no_variables, c)
    | some vars ↦ elim (p.new_manager (get_text "NAMESPACE" vars)) [
      | some e ↦ (exited (no_manager e), c)
      | none ↦ with_manager vars c
    ]
  ]
