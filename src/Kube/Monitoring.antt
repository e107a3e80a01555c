-- ===== src/Kube/Monitoring.antt =====
-- The fields of the monitoring resources that the program and its templates set.
use ocs_osd_deployer.Base.{String, Bool, Option, List}
use ocs_osd_deployer.Base.Dict.{Dict}
use ocs_osd_deployer.Base.Int.{ℤ}
use ocs_osd_deployer.Kube.Storage.{ResourceRequirements, LabelSelector}
use ocs_osd_deployer.Kube.Workload.{Container, Volume}

pub record SecretKeySelector : Type 0 where
  pub name : String
  pub key : String

pub record KeyValue : Type 0 where
  pub key : String
  pub value : String

pub record AlertmanagerEndpoint : Type 0 where
  pub namespace : String
  pub name : String
  pub port : String

pub record RelabelConfig : Type 0 where
  pub source_labels : List String
  pub target_label : String
  pub regex : String
  pub replacement : String
  pub action : String

pub record OAuth2 : Type 0 where
  pub client_secret : SecretKeySelector
  pub client_id : SecretKeySelector
  pub token_url : String
  pub endpoint_params : Dict String

pub record RemoteWrite : Type 0 where
  pub url : String
  pub oauth2 : OAuth2
  pub write_relabel_configs : List RelabelConfig

pub record PrometheusSpec : Type 0 where
  pub replicas : Option ℤ
  pub external_labels : Dict String
  pub service_account_name : String
  pub service_monitor_selector : LabelSelector
  pub pod_monitor_selector : LabelSelector
  pub rule_selector : LabelSelector
  pub enable_admin_api : Bool
  pub alertmanagers : List AlertmanagerEndpoint
  pub resources : ResourceRequirements
  pub listen_local : Bool
  pub containers : List Container
  pub volumes : List Volume
  pub remote_write : List RemoteWrite
  pub additional_alert_relabel_configs : Option SecretKeySelector

pub record AlertmanagerSpec : Type 0 where
  pub replicas : Option ℤ
  pub resources : ResourceRequirements
  pub config_selector : Option LabelSelector

pub record Matcher : Type 0 where
  pub name : String
  pub value : String
  pub match_type : String

pub record Route : Type 0 where
  pub group_by : List String
  pub group_wait : String
  pub group_interval : String
  pub repeat_interval : String
  pub matchers : List Matcher
  pub receiver : String

pub record PagerDutyConfig : Type 0 where
  pub service_key : SecretKeySelector
  pub details : List KeyValue

pub record WebhookConfig : Type 0 where
  pub url : Option String

pub record EmailConfig : Type 0 where
  pub send_resolved : Option Bool
  pub smarthost : String
  pub sender : String
  pub recipients : String
  pub auth_username : String
  pub auth_password : SecretKeySelector
  pub html : String
  pub headers : List KeyValue

pub record Receiver : Type 0 where
  pub name : String
  pub pager_duty_configs : List PagerDutyConfig
  pub webhook_configs : List WebhookConfig
  pub email_configs : List EmailConfig

-- The routes are kept as the values whose JSON the resource holds.
pub record AlertmanagerConfigSpec : Type 0 where
  pub receiver : String
  pub routes : List Route
  pub receivers : List Receiver

pub record Rule : Type 0 where
  pub alert : String
  pub expr : String
  pub labels : Dict String

pub record RuleGroup : Type 0 where
  pub name : String
  pub rules : List Rule

pub record Endpoint : Type 0 where
  pub port : String
  pub path : String
  pub scheme : String
  pub scrape_timeout : String
  pub interval : String
  pub honor_labels : Bool
  pub metric_relabel_configs : List RelabelConfig
  pub relabel_configs : List RelabelConfig
  pub insecure_skip_verify : Bool
  pub params : Dict (List String)
  pub bearer_token_file : String

pub record ServiceMonitorSpec : Type 0 where
  pub endpoints : List Endpoint
  pub match_names : List String
  pub selector : LabelSelector
