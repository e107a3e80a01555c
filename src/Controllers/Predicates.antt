-- ===== src/Controllers/Predicates.antt =====
-- The predicates of `SetupWithManager`, which decide the events that start a run. The builder calls
-- that register them are those of another project.
use ocs_osd_deployer.Base.{
  String, ◌<>◌, Bool, true, false, not, ◌||◌, none, some, str_eq, starts_with, if◌then◌else◌,
}
use ocs_osd_deployer.Base.Dict.{Dict, lookup, get_text}
use ocs_osd_deployer.Kube.Object.{Kind, Object, ObjectMeta}
use ocs_osd_deployer.Utils.Imds.{imds_config_map_name}
use ocs_osd_deployer.Controllers.State.{
  Config, rook_config_map_name, csi_kms_config_map_name, mon_label_key, mon_label_value,
  prometheus_name, alertmanager_name, ocs_operator_name, odf_olm_package_name,
}

unfoldable pub secret_predicate : Config → ObjectMeta → Bool
secret_predicate r client =
    str_eq client.name r.addon_param_secret_name
    || str_eq client.name r.pagerduty_secret_name
    || str_eq client.name r.dead_mans_snitch_secret_name
    || str_eq client.name r.smtp_secret_name
    || str_eq client.name r.rhobs_secret_name

abbrev has_key : String → Dict String → Bool
has_key key labels = elim (lookup key labels) [ none ↦ false | some _ ↦ true ]

-- The addon's config map counts only with its label, also where it bears another watched name.
unfoldable pub config_map_predicate : Config → ObjectMeta → Bool
unfolding lookup
config_map_predicate r client =
    if str_eq client.name r.addon_config_map_name
    then has_key r.addon_config_map_delete_label_key client.labels
    else str_eq client.name rook_config_map_name
      || str_eq client.name imds_config_map_name
      || str_eq client.name csi_kms_config_map_name

-- For monitors: what does not bear the label yet.
unfoldable pub mon_resources_predicate : ObjectMeta → Bool
unfolding get_text
mon_resources_predicate client = not (str_eq (get_text mon_label_key client.labels) mon_label_value)

-- The same test for rules.
unfoldable pub prometheus_rules_predicate : ObjectMeta → Bool
unfolding get_text
prometheus_rules_predicate client =
    not (str_eq (get_text mon_label_key client.labels) mon_label_value)

unfoldable pub mon_stateful_set_predicate : ObjectMeta → Bool
mon_stateful_set_predicate client =
    str_eq client.name ("prometheus-" <> prometheus_name)
    || str_eq client.name ("alertmanager-" <> alertmanager_name)

unfoldable pub csv_predicate : ObjectMeta → Bool
csv_predicate client = starts_with client.name ocs_operator_name

unfoldable pub sub_predicate : Object Kind.subscription → Bool
sub_predicate client = not (str_eq client.body.package_name odf_olm_package_name)
