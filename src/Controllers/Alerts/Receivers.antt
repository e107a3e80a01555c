-- ===== src/Controllers/Alerts/Receivers.antt =====
-- The receivers that `reconcileAlertmanagerConfig` writes.
use ocs_osd_deployer.Base.{String, ◌<>◌, ◌≡◌, refl, false, some, List, [], ◌∷◌, map}
use ocs_osd_deployer.Base.Text.{join}
use ocs_osd_deployer.Kube.Exec.{Result, ok, err, panic}
use ocs_osd_deployer.Kube.Monitoring.{
  PagerDutyConfig, WebhookConfig, EmailConfig, Receiver, AlertmanagerConfigSpec,
}
use ocs_osd_deployer.Controllers.Alerts.{ReceiverValues, desired_alertmanager_config}

-- A receiver of this name with these settings alone.
abbrev receiver_of :
    String → List PagerDutyConfig → List WebhookConfig → List EmailConfig → Receiver
receiver_of name pagers webhooks emails = record {
  name = name;
  pager_duty_configs = pagers;
  webhook_configs = webhooks;
  email_configs = emails;
}

abbrev pub pager_of : ReceiverValues → PagerDutyConfig
pager_of v = record {
  service_key = record { name = v.pagerduty_secret_name; key = "PAGERDUTY_KEY" };
  details = (record { key = "SOP"; value = v.sop_endpoint }) ∷ [];
}

abbrev pub email_to : ReceiverValues → List String → EmailConfig
email_to v addresses = record {
  send_resolved = some false;
  smarthost = v.smtp.host <> (":" <> v.smtp.port);
  sender = v.alert_smtp_from;
  recipients = join ", " addresses;
  auth_username = v.smtp.username;
  auth_password = record { name = v.smtp_secret_name; key = "password" };
  html = v.html;
  headers =
      (record {
        key = "subject";
        value =
            "OpenShift Data Foundation Managed Service notification, Action required on your managed OpenShift cluster!";
      })
      ∷ [];
}

-- One mail to all the addresses, or none if there is no address.
abbrev pub mails : ReceiverValues → List String → List EmailConfig
mails v [] = []
mails v (address ∷ addresses) = email_to v (address ∷ addresses) ∷ []

-- The result is a specification with four receivers: one that is silent, PagerDuty, the snitch and
-- mail, each with its own settings alone; its routes go to the last three.
abbrev pub Sends : ReceiverValues → Result AlertmanagerConfigSpec → Type 0
Sends v (ok spec) =
    (spec.receivers
      ≡ receiver_of "null" [] [] []
        ∷ receiver_of "pagerduty" (pager_of v ∷ []) [] []
        ∷ receiver_of "DeadMansSnitch" [] ((record { url = some v.dms_url }) ∷ []) []
        ∷ receiver_of "SendGrid" [] [] (mails v v.addresses)
        ∷ [])
    × (spec.receiver ≡ "null")
    × (map (λ route. route.receiver) spec.routes ≡ "SendGrid" ∷ "pagerduty" ∷ "DeadMansSnitch" ∷ [])
Sends v (err e) = ⊥
Sends v panic = ⊥

module _ (v : ReceiverValues) where
  desired-Sends :
      (addresses : List String) → v.addresses ≡ addresses → Sends v (desired_alertmanager_config v)
  unfolding desired_alertmanager_config
  desired-Sends [] e = rw e (refl, refl, refl)
  desired-Sends (address ∷ addresses) e = rw e (refl, refl, refl)

  -- Filling the template in neither fails nor panics. In the result PagerDuty has the key of its
  -- secret and the SOP endpoint as a detail; the snitch has its URL; mail goes to all the
  -- addresses in one message, or to nobody if there is none, with the server and its port, the user, the
  -- password's secret, the sender and the text that were read. The three routes go to these, and
  -- the default receiver is one without any settings.
  pub desired_alertmanager_config-Sends : Sends v (desired_alertmanager_config v)
  desired_alertmanager_config-Sends = desired-Sends v.addresses refl
