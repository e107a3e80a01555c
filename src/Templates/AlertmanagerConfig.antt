-- ===== src/Templates/AlertmanagerConfig.antt =====
-- templates/alertmanagerconfig.go.
use ocs_osd_deployer.Base.{String, ◌<>◌, false, none, some, List, [], ◌∷◌}
use ocs_osd_deployer.Base.Text.{join}
use ocs_osd_deployer.Kube.Monitoring.{Route, Receiver, AlertmanagerConfigSpec}
use ocs_osd_deployer.Templates.Prometheus.{alerts}

-- The same fifteen alerts as those of templates/prometheus.go.
abbrev pub pagerduty_alerts : List String
pagerduty_alerts = alerts

abbrev pub smtp_alerts : List String
smtp_alerts =
    "CephClusterNearFull" ∷ "CephClusterCriticallyFull" ∷ "CephClusterReadOnly"
    ∷ "PersistentVolumeUsageNearFull" ∷ "PersistentVolumeUsageCritical" ∷ []

-- "^%s$"
unfoldable pub get_regex_matcher : List String → String
unfolding join
get_regex_matcher alerts = "^" <> (join "$|^" alerts <> "$")

abbrev route : String → String → String → String → Route
route repeat value match_type receiver = record {
  group_by = "alertname" ∷ [];
  group_wait = "30s";
  group_interval = "5m";
  repeat_interval = repeat;
  matchers = (record { name = "alertname"; value = value; match_type = match_type }) ∷ [];
  receiver = receiver;
}

abbrev bare : String → Receiver
bare name = record {
  name = name;
  pager_duty_configs = [];
  webhook_configs = [];
  email_configs = [];
}

unfoldable pub alertmanager_config_template : AlertmanagerConfigSpec
alertmanager_config_template = record {
  receiver = "null";
  routes =
      route "12h" (get_regex_matcher smtp_alerts) "=~" "SendGrid"
      ∷ route "12h" (get_regex_matcher pagerduty_alerts) "=~" "pagerduty"
      ∷ route "5m" "DeadMansSnitch" "=" "DeadMansSnitch"
      ∷ [];
  receivers =
      bare "null"
      ∷ (record (bare "pagerduty") {
        pager_duty_configs =
            (record {
              service_key = record { name = ""; key = "" };
              details = (record { key = ""; value = "" }) ∷ [];
            })
            ∷ [];
      })
      ∷ (record (bare "DeadMansSnitch") { webhook_configs = (record { url = none }) ∷ [] })
      ∷ (record (bare "SendGrid") {
        email_configs =
            (record {
              send_resolved = some false;
              smarthost = "";
              sender = "";
              recipients = "";
              auth_username = "";
              auth_password = record { name = ""; key = "" };
              html = "";
              headers =
                  (record {
                    key = "subject";
                    value =
                        "OpenShift Data Foundation Managed Service notification, Action required on your managed OpenShift cluster!";
                  })
                  ∷ [];
            })
            ∷ [];
      })
      ∷ [];
}
