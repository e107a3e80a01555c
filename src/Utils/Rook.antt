-- ===== src/Utils/Rook.antt =====
-- MarshalRookResourceRequirements of utils/rook.go. Each element of the list is written with its
-- name and the texts of its quantities; the YAML encoder is a parameter, and its error a panic.
use ocs_osd_deployer.Base.{String, List, map}
use ocs_osd_deployer.Kube.Exec.{Result, ok, err, panic}
use ocs_osd_deployer.Kube.Storage.{ResourceRequirements}
use ocs_osd_deployer.Kube.Env.{Env}
use ocs_osd_deployer.Utils.Resources.{get_resource_requirements}

-- A list of containers with the requirements that the table has for them.
abbrev pub requirements_of : List String → List (String × ResourceRequirements)
requirements_of names = map (λ name. (name, get_resource_requirements name)) names

unfoldable pub marshal_rook_resource_requirements :
    Env → List (String × ResourceRequirements) → Result String
marshal_rook_resource_requirements E requirements = elim (E.yaml_requirements requirements) [
  | ok text ↦ ok text
  | err e ↦ panic
  | panic ↦ panic
]
