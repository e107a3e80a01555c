-- ===== src/Controllers/Alerts.antt =====
-- `reconcileAlertmanagerConfig`: the addresses for notifications, the SMTP settings and the
-- receivers.
pub mod Addresses
pub mod Receivers
use ocs_osd_deployer.Base.{
  ℕ, zero, suc, String, ◌<>◌, Option, none, some, List, [], ◌∷◌, ◌++◌, str_eq, if◌then◌else◌,
}
use ocs_osd_deployer.Base.Lists.{length}
use ocs_osd_deployer.Base.Dict.{Dict, lookup, get_text}
use ocs_osd_deployer.Base.Text.{decimal, join}
use ocs_osd_deployer.Kube.Exec.{Result, ok, panic, pure, lift, wrap, ◌>>=◌, ◌>>◌}
use ocs_osd_deployer.Kube.Monitoring.{WebhookConfig, EmailConfig, Receiver, AlertmanagerConfigSpec}
use ocs_osd_deployer.Kube.Object.{Kind, add_label}
use ocs_osd_deployer.Kube.Env.{Env}
use ocs_osd_deployer.Templates.AlertmanagerConfig.{alertmanager_config_template}
use ocs_osd_deployer.Controllers.State.{Reconciler, mon_label_key, mon_label_value}
use ocs_osd_deployer.Controllers.Actions.{M, asks, assign, refresh, own, CreateOrUpdate}
use ocs_osd_deployer.Controllers.Slots
use ocs_osd_deployer.Controllers.Egress.{require_text, refresh_new_secret}

-- `fmt.Sprintf("%s-%v", notificationEmailKeyPrefix, i)`
unfoldable pub alerting_address_key : ℕ → String
alerting_address_key i = "notification-email-" <> decimal i

-- The `for` loop from the index `i` on; `none` means that the fuel ran out.
unfoldable pub address_loop : (fuel i : ℕ) → Dict String → List String → Option (List String)
address_loop zero i params addresses = none
address_loop (suc fuel) i params addresses = elim (lookup (alerting_address_key i) params) [
  | none ↦ some addresses
  | some address ↦
      address_loop fuel (suc i) params
        (if str_eq address "" then addresses else addresses ++ (address ∷ []))
]

-- A parameter more than there are entries is missing, so one round more than that is enough.
unfoldable pub alerting_addresses : Dict String → Option (List String)
alerting_addresses params = address_loop (suc (length params)) 0 params []

pub record Smtp : Type 0 where
  pub host : String
  pub port : String
  pub username : String
  pub password : String

-- The values that go into the receivers.
pub record ReceiverValues : Type 0 where
  pub pagerduty_secret_name : String
  pub sop_endpoint : String
  pub dms_url : String
  pub addresses : List String
  pub smtp : Smtp
  pub smtp_secret_name : String
  pub alert_smtp_from : String
  pub html : String

-- Element 0 of a list is changed; there is a panic if it is missing: `none`.
abbrev change_first : {A : Type 0} → (A → A) → List A → Option (List A)
change_first f [] = none
change_first f (x ∷ xs) = some (f x ∷ xs)

unfoldable pub pager_duty : ReceiverValues → Receiver → Option Receiver
pager_duty v receiver = elim receiver.pager_duty_configs [
  | [] ↦ none
  | config ∷ configs ↦ elim config.details [
    | [] ↦ none
    | _ ∷ details ↦ some (record receiver {
      pager_duty_configs =
          (record config {
            service_key = record { name = v.pagerduty_secret_name; key = "PAGERDUTY_KEY" };
            details = (record { key = "SOP"; value = v.sop_endpoint }) ∷ details;
          })
          ∷ configs;
    })
  ]
]

abbrev with_url : String → WebhookConfig → WebhookConfig
with_url url config = record config { url = some url }

abbrev with_email : ReceiverValues → EmailConfig → EmailConfig
with_email v config = record config {
  smarthost = v.smtp.host <> (":" <> v.smtp.port);
  auth_username = v.smtp.username;
  auth_password = record { name = v.smtp_secret_name; key = "password" };
  sender = v.alert_smtp_from;
  recipients = join ", " v.addresses;
  html = v.html;
}

unfoldable pub send_grid : ReceiverValues → Receiver → Option Receiver
unfolding join
send_grid v receiver = elim v.addresses [
  | [] ↦ some (record receiver { email_configs = [] })
  | _ ∷ _ ↦ elim (change_first (with_email v) receiver.email_configs) [
    | none ↦ none
    | some configs ↦ some (record receiver { email_configs = configs })
  ]
]

abbrev dead_mans_snitch : ReceiverValues → Receiver → Option Receiver
dead_mans_snitch v receiver = elim (change_first (with_url v.dms_url) receiver.webhook_configs) [
  | none ↦ none
  | some configs ↦ some (record receiver { webhook_configs = configs })
]

-- The `switch` on the receiver's name.
unfoldable pub fill_receiver : ReceiverValues → Receiver → Option Receiver
unfolding pager_duty send_grid
fill_receiver v receiver =
    if str_eq receiver.name "pagerduty"
    then pager_duty v receiver
    else if str_eq receiver.name "DeadMansSnitch"
    then dead_mans_snitch v receiver
    else if str_eq receiver.name "SendGrid"
    then send_grid v receiver
    else some receiver

-- The loop over the receivers.
unfoldable pub fill_receivers : ReceiverValues → List Receiver → Option (List Receiver)
unfolding fill_receiver
fill_receivers v [] = some []
fill_receivers v (receiver ∷ receivers) =
    let rest = fill_receivers v receivers in
    elim (fill_receiver v receiver) [
      | none ↦ none
      | some new ↦ elim rest [ none ↦ none | some news ↦ some (new ∷ news) ]
    ]

-- A pointer or index that is not there.
abbrev or_panic : {A : Type 0} → Option A → Result A
or_panic none = panic
or_panic (some a) = ok a

unfoldable pub desired_alertmanager_config : ReceiverValues → Result AlertmanagerConfigSpec
unfolding fill_receivers alertmanager_config_template
desired_alertmanager_config v = elim (fill_receivers v alertmanager_config_template.receivers) [
  | none ↦ panic
  | some receivers ↦ ok (record alertmanager_config_template { receivers = receivers })
]

module _ (E : Env) where
  unfoldable pub read_smtp : M E Smtp
  read_smtp = do
    refresh_new_secret E Slots.smtp_secret "Unable to get SMTP secret: "
    smtp ← asks E (λ r. r.smtp_secret.body)
    host ← require_text E (get_text "host" smtp) "smtp secret does not contain a host entry"
    port ← require_text E (get_text "port" smtp) "smtp secret does not contain a port entry"
    username ←
        require_text E (get_text "username" smtp) "smtp secret does not contain a username entry"
    password ←
        require_text E (get_text "password" smtp) "smtp secret does not contain a password entry"
    pure (record { host = host; port = port; username = username; password = password })

  -- All that is read before the template is filled in.
  unfoldable pub read_receiver_values : M E ReceiverValues
  unfolding read_smtp alerting_addresses
  read_receiver_values = do
    config ← asks E (λ r. r.config)
    wrap "Unable to get pagerduty secret: " (refresh E Slots.pagerduty_secret)
    pagerduty ← asks E (λ r. r.pagerduty_secret.body)
    require_text E (get_text "PAGERDUTY_KEY" pagerduty)
        "Pagerduty secret does not contain a PAGERDUTY_KEY entry"
    refresh_new_secret E Slots.dead_mans_snitch_secret "Unable to get DeadMan's Snitch secret: "
    dms ← asks E (λ r. r.dead_mans_snitch_secret.body)
    dms_url ←
        require_text E (get_text "SNITCH_URL" dms)
          "DeadMan's Snitch secret does not contain a SNITCH_URL entry"
    found ← asks E (λ r. alerting_addresses r.addon_params)
    addresses ← lift (or_panic found)
    smtp ← read_smtp
    html ←
        wrap "unable to read customernotification.html file: "
          (lift (E.read_file config.customer_notification_html_path))
    pure (record {
      pagerduty_secret_name = config.pagerduty_secret_name;
      sop_endpoint = config.sop_endpoint;
      dms_url = dms_url;
      addresses = addresses;
      smtp = smtp;
      smtp_secret_name = config.smtp_secret_name;
      alert_smtp_from = config.alert_smtp_from;
      html = html;
    })

  abbrev pub with_alertmanager_config : AlertmanagerConfigSpec → Reconciler → Reconciler
  with_alertmanager_config spec r = record r {
    alertmanager_config =
        add_label (record r.alertmanager_config { body = spec }) mon_label_key mon_label_value;
  }

  unfoldable pub mutate_alertmanager_config : M E (Unit {0})
  mutate_alertmanager_config = do
    own E Slots.alertmanager_config
    values ← read_receiver_values
    spec ← lift (desired_alertmanager_config values)
    assign E (with_alertmanager_config spec)

  unfoldable pub reconcile_alertmanager_config : CreateOrUpdate E → M E (Unit {0})
  reconcile_alertmanager_config create_or_update =
      create_or_update Kind.alertmanager_config Slots.alertmanager_config mutate_alertmanager_config
