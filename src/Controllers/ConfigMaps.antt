-- ===== src/Controllers/ConfigMaps.antt =====
-- The methods that reconcile a secret or a config map: the onboarding validation key, the KMS
-- connection details, the alert relabel configuration, the proxy's configuration and Rook's.
use ocs_osd_deployer.Base.{String, ◌<>◌, List, [], ◌∷◌, str_eq, if◌then◌else◌}
use ocs_osd_deployer.Base.Dict.{Dict, insert, get_text}
use ocs_osd_deployer.Base.Text.{trim_space}
use ocs_osd_deployer.Kube.Exec.{Result, ok, err, panic, pure, lift, wrap, when, ◌>>=◌, ◌>>◌}
use ocs_osd_deployer.Kube.Monitoring.{RelabelConfig}
use ocs_osd_deployer.Kube.Object.{Kind}
use ocs_osd_deployer.Kube.Env.{Env}
use ocs_osd_deployer.Utils.Rook.{requirements_of, marshal_rook_resource_requirements}
use ocs_osd_deployer.Controllers.State.{
  Slot, provider_deployment_type, consumer_deployment_type, rook_config_map_name,
  csi_kms_config_map_name,
}
use ocs_osd_deployer.Controllers.Actions.{M, asks, assign, get, update, own, CreateOrUpdate}
use ocs_osd_deployer.Controllers.Slots
use ocs_osd_deployer.Controllers.Init.{new_object}

abbrev pub onboarding_validation_key : String
onboarding_validation_key = "onboarding-validation-key"

-- The text of the key, between the lines that mark a public key.
unfoldable pub public_key_text : Dict String → String
unfolding trim_space get_text
public_key_text params =
    "-----BEGIN PUBLIC KEY-----\n"
    <> (trim_space (get_text onboarding_validation_key params) <> "\n-----END PUBLIC KEY-----")

unfoldable pub alert_relabel_config : String → List RelabelConfig
alert_relabel_config namespace =
    (record {
      source_labels = "namespace" ∷ [];
      target_label = "alertnamespace";
      regex = "";
      replacement = "";
      action = "";
    })
    ∷ (record {
      source_labels = [];
      target_label = "namespace";
      regex = "";
      replacement = namespace;
      action = "";
    })
    ∷ []

abbrev pub kms_details : Dict String
kms_details =
    ("encryptionKMSType", "aws-sts-metadata") ∷ ("secretName", "ceph-csi-aws-credentials") ∷ []

-- The JSON text of templates/prometheuskuberbacproxyconfig.go: two paths that may be read.
abbrev pub kube_rbac_proxy_config : Dict String
kube_rbac_proxy_config =
    (
      "config-file.json",
      "{\"authorization\":{\"static\":[{\"path\":\"/metrics\",\"resourceRequest\":false,\"verb\":\"get\"},{\"path\":\"/federate\",\"resourceRequest\":false,\"verb\":\"get\"}]}}",
    )
    ∷ []

abbrev pub rbd_provisioner : List String
rbd_provisioner =
    "csi-provisioner" ∷ "csi-resizer" ∷ "csi-attacher" ∷ "csi-snapshotter" ∷ "csi-rbdplugin"
    ∷ "liveness-prometheus" ∷ []

abbrev pub rbd_plugin : List String
rbd_plugin = "driver-registrar" ∷ "csi-rbdplugin" ∷ "liveness-prometheus" ∷ []

abbrev pub cephfs_provisioner : List String
cephfs_provisioner =
    "csi-provisioner" ∷ "csi-resizer" ∷ "csi-attacher" ∷ "csi-snapshotter" ∷ "csi-cephfsplugin"
    ∷ "liveness-prometheus" ∷ []

abbrev pub cephfs_plugin : List String
cephfs_plugin = "driver-registrar" ∷ "csi-cephfsplugin" ∷ "liveness-prometheus" ∷ []

module _ (E : Env) where
  abbrev marshal : List String → M E String
  marshal names = lift (marshal_rook_resource_requirements E (requirements_of names))

  -- The data of Rook's config map with the entries that the deployment type asks for.
  unfoldable pub rook_data : String → Dict String → M E (Dict String)
  unfolding insert marshal_rook_resource_requirements
  rook_data deployment_type data_map =
      if str_eq deployment_type provider_deployment_type
      then pure
          (insert "ROOK_CSI_ENABLE_RBD" "false" (insert "ROOK_CSI_ENABLE_CEPHFS" "false" data_map))
      else do
        provisioner ← marshal rbd_provisioner
        let d1 = insert "CSI_RBD_PROVISIONER_RESOURCE" provisioner data_map
        plugin ← marshal rbd_plugin
        let d2 = insert "CSI_RBD_PLUGIN_RESOURCE" plugin d1
        fs_provisioner ← marshal cephfs_provisioner
        let d3 = insert "CSI_CEPHFS_PROVISIONER_RESOURCE" fs_provisioner d2
        fs_plugin ← marshal cephfs_plugin
        pure (insert "CSI_CEPHFS_PLUGIN_RESOURCE" fs_plugin d3)

  unfoldable pub reconcile_rook_ceph_operator_config : M E (Unit {0})
  reconcile_rook_ceph_operator_config = do
    namespace ← asks E (λ r. r.namespace)
    deployment_type ← asks E (λ r. r.config.deployment_type)
    map ←
        wrap "Failed to get Rook ConfigMap: "
          (get E (new_object {k = Kind.config_map} rook_config_map_name namespace []))
    data_map ← rook_data deployment_type map.body
    let clone = record map { body = data_map }
    if E.same_object Kind.config_map map clone
        then pure tt
        else (wrap "Failed to update Rook ConfigMap: " (update E clone) >> pure tt)

  -- A write to the data of a secret or of a config map that is a field of the reconciler.
  unfoldable pub set_secret : Slot Kind.secret → Dict String → M E (Unit {0})
  set_secret slot new = do obj ← asks E slot.read; assign E (slot.write (record obj { body = new }))

  unfoldable pub set_config_map : Slot Kind.config_map → Dict String → M E (Unit {0})
  set_config_map slot new = do
    obj ← asks E slot.read
    assign E (slot.write (record obj { body = new }))

  unfoldable pub mutate_onboarding_validation_secret : M E (Unit {0})
  unfolding set_secret public_key_text
  mutate_onboarding_validation_secret = do
    own E Slots.onboarding_validation_key_secret
    params ← asks E (λ r. r.addon_params)
    set_secret Slots.onboarding_validation_key_secret (("key", public_key_text params) ∷ [])

  -- `utils.ToJsonOrDie` panics where the encoder fails.
  unfoldable pub to_json_or_die : Dict String → Result String
  to_json_or_die value = elim (E.json_texts value) [
    | ok text ↦ ok text
    | err e ↦ panic
    | panic ↦ panic
  ]

  unfoldable pub mutate_csi_kms : M E (Unit {0})
  unfolding set_config_map to_json_or_die
  mutate_csi_kms = do
    own E Slots.csi_kms_connection_details_config_map
    text ← lift (to_json_or_die kms_details)
    set_config_map Slots.csi_kms_connection_details_config_map
        (("aws-sts-metadata-test", text) ∷ [])

  unfoldable pub mutate_alert_relabel_config : M E (Unit {0})
  unfolding set_secret alert_relabel_config
  mutate_alert_relabel_config = do
    own E Slots.alert_relabel_config_secret
    namespace ← asks E (λ r. r.namespace)
    config ←
        wrap "Unable to encode alert relabel conifg: "
          (lift (E.yaml_relabel_configs (alert_relabel_config namespace)))
    set_secret Slots.alert_relabel_config_secret (("alertrelabelconfig.yaml", config) ∷ [])

  unfoldable pub mutate_kube_rbac : M E (Unit {0})
  unfolding set_config_map
  mutate_kube_rbac = do
    own E Slots.prometheus_kube_rbac_config_map
    set_config_map Slots.prometheus_kube_rbac_config_map kube_rbac_proxy_config

  module _ (create_or_update : CreateOrUpdate E) where
    unfoldable pub reconcile_onboarding_validation_secret : M E (Unit {0})
    reconcile_onboarding_validation_secret = do
      deployment_type ← asks E (λ r. r.config.deployment_type)
      when (str_eq deployment_type provider_deployment_type) (
          wrap "Failed to update onboardingValidationKeySecret: " (
            create_or_update Kind.secret Slots.onboarding_validation_key_secret
              mutate_onboarding_validation_secret))

    unfoldable pub reconcile_csi_kms_connection_details_config_map : M E (Unit {0})
    reconcile_csi_kms_connection_details_config_map = do
      deployment_type ← asks E (λ r. r.config.deployment_type)
      when (str_eq deployment_type consumer_deployment_type) (
          wrap ("Failed to create or update " <> (csi_kms_config_map_name <> " config map: ")) (
            create_or_update Kind.config_map Slots.csi_kms_connection_details_config_map
              mutate_csi_kms))

    unfoldable pub reconcile_alert_relabel_config_secret : M E (Unit {0})
    reconcile_alert_relabel_config_secret =
        wrap "Unable to create/update AlertRelabelConfigSecret: " (
          create_or_update Kind.secret Slots.alert_relabel_config_secret
            mutate_alert_relabel_config)

    unfoldable pub reconcile_prometheus_kube_rbac_config_map : M E (Unit {0})
    reconcile_prometheus_kube_rbac_config_map =
        wrap "unable to create kubeRBACConfig config map: "
          (create_or_update Kind.config_map Slots.prometheus_kube_rbac_config_map mutate_kube_rbac)
