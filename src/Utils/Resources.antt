-- ===== src/Utils/Resources.antt =====
-- The table of utils/resources.go and its lookup.
use ocs_osd_deployer.Base.{String, ◌≡◌, refl, Bool, true, false, List, [], ◌∷◌, some, none}
use ocs_osd_deployer.Base.Lists.{all}
use ocs_osd_deployer.Base.Dict.{Dict, lookup}
use ocs_osd_deployer.Kube.Storage.{Quantity, ResourceRequirements}

-- `resource.MustParse`
abbrev pub must_parse : String → Quantity
must_parse text = record { text = text }

abbrev cpu_memory : String → String → Dict Quantity
cpu_memory cpu memory = ("cpu", must_parse cpu) ∷ ("memory", must_parse memory) ∷ []

-- Every entry of the table has limits that equal its requests.
abbrev entry : String → String → ResourceRequirements
entry cpu memory = record { limits = cpu_memory cpu memory; requests = cpu_memory cpu memory }

unfoldable pub resource_requirements : Dict ResourceRequirements
resource_requirements =
    ("mds", entry "1500m" "8Gi")
    ∷ ("mgr", entry "1000m" "3Gi")
    ∷ ("mon", entry "1000m" "2Gi")
    ∷ ("sds", entry "1650m" "6Gi")
    ∷ ("prometheus", entry "400m" "250Mi")
    ∷ ("alertmanager", entry "100m" "200Mi")
    ∷ ("ocs-operator", entry "200m" "800Mi")
    ∷ ("rook-ceph-operator", entry "300m" "250Mi")
    ∷ ("ocs-metrics-exporter", entry "60m" "75Mi")
    ∷ ("crashcollector", entry "50m" "80Mi")
    ∷ ("csi-provisioner", entry "15m" "85Mi")
    ∷ ("csi-resizer", entry "10m" "55Mi")
    ∷ ("csi-attacher", entry "10m" "45Mi")
    ∷ ("csi-snapshotter", entry "10m" "35Mi")
    ∷ ("csi-rbdplugin", entry "25m" "270Mi")
    ∷ ("liveness-prometheus", entry "10m" "30Mi")
    ∷ ("driver-registrar", entry "10m" "25Mi")
    ∷ ("csi-cephfsplugin", entry "20m" "160Mi")
    ∷ ("kube-rbac-proxy", entry "50m" "30Mi")
    ∷ []

abbrev no_requirements : ResourceRequirements
no_requirements = record { limits = []; requests = [] }

-- The code panics on a name that is not in the table; it asks for literal names only, all of which
-- are there (`requested_names-resource_requirements`), so the other result is never seen.
unfoldable pub get_resource_requirements : String → ResourceRequirements
unfolding resource_requirements lookup
get_resource_requirements name = elim (lookup name resource_requirements) [
  | some r ↦ r
  | none ↦ no_requirements
]

abbrev requested_names : List String
requested_names =
    "mds" ∷ "mgr" ∷ "mon" ∷ "sds" ∷ "prometheus" ∷ "alertmanager" ∷ "crashcollector"
    ∷ "kube-rbac-proxy" ∷ "ocs-operator" ∷ "rook-ceph-operator" ∷ "ocs-metrics-exporter"
    ∷ "csi-provisioner" ∷ "csi-resizer" ∷ "csi-attacher" ∷ "csi-snapshotter" ∷ "csi-rbdplugin"
    ∷ "liveness-prometheus" ∷ "driver-registrar" ∷ "csi-cephfsplugin" ∷ []

abbrev is_listed : String → Bool
is_listed name = elim (lookup name resource_requirements) [ none ↦ false | some _ ↦ true ]

-- The table has every name that the program asks for.
requested_names-resource_requirements : all is_listed requested_names ≡ true
unfolding resource_requirements lookup
requested_names-resource_requirements = refl
