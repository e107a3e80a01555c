-- ===== src/Kube/Env.antt =====
-- What the program calls and this repository does not implement: the API server behind the
-- controller-runtime client, and functions of other packages.
use ocs_osd_deployer.Base.{ℕ, String, Bool, Option, List}
use ocs_osd_deployer.Base.Dict.{Dict}
use ocs_osd_deployer.Kube.Exec.{Result}
use ocs_osd_deployer.Kube.Storage.{Quantity, ResourceRequirements}
use ocs_osd_deployer.Kube.Monitoring.{RelabelConfig}
use ocs_osd_deployer.Kube.Object.{Kind, Object, ObjectMeta}

-- `Cluster` is the state of all that is outside. Each call may change it, so that other clients may
-- act between two calls.
pub record Env : Type 1 where
  pub Cluster : Type 0
  -- `client.Get`, by name and namespace
  pub get : (k : Kind) → String → String → Cluster → Result (Object k) × Cluster
  -- `client.List`, in a namespace or in all, with a limit or without
  pub list : (k : Kind) → Option String → Option ℕ → Cluster → Result (List (Object k)) × Cluster
  -- the writing calls give the object as the server returns it
  pub create : (k : Kind) → Object k → Cluster → Result (Object k) × Cluster
  pub update : (k : Kind) → Object k → Cluster → Result (Object k) × Cluster
  pub update_status : (k : Kind) → Object k → Cluster → Result (Object k) × Cluster
  pub delete : (k : Kind) → Object k → Cluster → Result (Unit {0}) × Cluster
  -- `ctrl.SetControllerReference(owner, object)`
  pub set_controller_reference : ObjectMeta → ObjectMeta → Result ObjectMeta
  -- `equality.Semantic.DeepEqual`
  pub same_object : (k : Kind) → Object k → Object k → Bool
  pub same_requirements : ResourceRequirements → ResourceRequirements → Bool
  -- `resource.ParseQuantity`, and whether `Sign()` is -1
  pub parse_quantity : String → Option Quantity
  pub is_negative : Quantity → Bool
  -- `url.Parse` and `Hostname`; `none` is the error of `Parse`
  pub hostname : String → Option String
  -- `ioutil.ReadFile`
  pub read_file : String → Result String
  -- `yaml.Marshal` and `json.Marshal` of the values that the program passes
  pub yaml_relabel_configs : List RelabelConfig → Result String
  pub yaml_requirements : List (String × ResourceRequirements) → Result String
  pub json_texts : Dict String → Result String
