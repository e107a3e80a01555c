-- ===== src/Setup/Main/Handover.antt =====
-- When `main` hands over to the manager, said of the environment, the platform and the API server
-- alone.
use ocs_osd_deployer.Base.{
  String, ◌<>◌, ◌≡◌, ◌↔◌, refl, sym, ◌∙◌, true, false, Bool, not, str_eq, Option, none, arith, [],
  ◌∷◌,
}
use ocs_osd_deployer.Base.Dict.{Dict, get_text, lookup}
use ocs_osd_deployer.Api.{new_managed_ocs}
use ocs_osd_deployer.Kube.Exec.{
  Result, ok, err, panic, Error, is_not_found, is_already_exists, not_found, already_exists,
}
use ocs_osd_deployer.Kube.Object.{Kind, Object, new_meta}
use ocs_osd_deployer.Kube.Env.{Env}
use ocs_osd_deployer.Controllers.State.{Config, egress_firewall_crd, egress_network_policy_crd}
use ocs_osd_deployer.Setup.{config_of, ensured, ensure_managed_ocs}
use ocs_osd_deployer.Setup.Main.{
  Platform, crd_names, uid_found, started, main, map_crd_availability,
}
use ocs_osd_deployer.Setup.Main.Availability.{
  is_answered, is_there, availability, IsAnswered, map_crd_availability-cluster,
}
use ocs_osd_deployer.Setup.Main.Started.{IsStarted, main-IsStarted}
use ocs_osd_deployer.Setup.Environment.{
  Variables, AreSet, values, read_env_vars-AreSet, AreSet-read_env_vars,
}

-- The answer on a resource definition gives it, or says that it is missing.
abbrev pub IsAnswer : Result String → Type 0
IsAnswer (ok uid) = Unit
IsAnswer (err e) = e ≡ not_found
IsAnswer panic = ⊥

-- It gives one with a UID.
abbrev pub gives : Result String → Bool
gives (ok uid) = not (str_eq uid "")
gives (err e) = false
gives panic = false

-- The resource is created, or there already.
abbrev pub IsCreated : Result (Object Kind.managed_ocs) → Type 0
IsCreated (ok obj) = Unit
IsCreated (err e) = e ≡ already_exists
IsCreated panic = ⊥

abbrev pub wanted_config : Variables → (String → Result String) → Config
wanted_config v answers = record {
  addon_param_secret_name = "addon-" <> (v.addon_name <> "-parameters");
  addon_config_map_name = v.addon_name;
  addon_config_map_delete_label_key = "api.openshift.com/addon-" <> (v.addon_name <> "-delete");
  pagerduty_secret_name = v.addon_name <> "-pagerduty";
  dead_mans_snitch_secret_name = v.addon_name <> "-deadmanssnitch";
  smtp_secret_name = v.addon_name <> "-smtp";
  sop_endpoint = v.sop_endpoint;
  alert_smtp_from = v.alert_smtp_from;
  customer_notification_html_path = "templates/customernotification.html";
  deployment_type = v.deployment_type;
  rhobs_secret_name = v.addon_name <> "-prom-remote-write";
  rhobs_endpoint = v.rhobs_endpoint;
  rhsso_token_endpoint = v.rhsso_token_endpoint;
  available_crds =
      (egress_firewall_crd, gives (answers egress_firewall_crd))
      ∷ (egress_network_policy_crd, gives (answers egress_network_policy_crd))
      ∷ [];
}

-- In the namespace, with the finalizer.
abbrev pub wanted_managed_ocs : String → Object Kind.managed_ocs
wanted_managed_ocs namespace = record {
  metadata = record (new_meta "managedocs" namespace) {
    finalizers = "managedocs.ocs.openshift.io" ∷ [];
  };
  body = new_managed_ocs;
}

module _ (E : Env) (p : Platform E) where
  -- The cluster after the two questions on resource definitions.
  abbrev pub asked : E.Cluster → E.Cluster
  asked c = (p.get_crd egress_network_policy_crd (p.get_crd egress_firewall_crd c).1).1

  abbrev pub IsReady : (String → Result String) → Variables → E.Cluster → Config → Type 0
  IsReady answers v c r =
      (p.new_manager v.namespace ≡ none)
      × (p.has_unrestricted_client ≡ true)
      × (p.has_crd_client ≡ true)
      × IsAnswer (answers egress_firewall_crd)
      × IsAnswer (answers egress_network_policy_crd)
      × (r ≡ wanted_config v answers)
      × (p.set_up_with_manager r ≡ none)
      × IsCreated (E.create Kind.managed_ocs (wanted_managed_ocs v.namespace) (asked c)).0

not_found-eq : (e : Error) → is_not_found e ≡ true → e ≡ not_found
not_found-eq e h = ground arith

already_exists-eq : (e : Error) → is_already_exists e ≡ true → e ≡ already_exists
already_exists-eq e h = ground arith

IsAnswer-of : (a : Result String) → is_answered (uid_found a) ≡ true → IsAnswer a
IsAnswer-of (ok uid) h = tt
IsAnswer-of (err e) h = ground arith
IsAnswer-of panic h = absurd cc

is_answered-of : (a : Result String) → IsAnswer a → is_answered (uid_found a) ≡ true
is_answered-of (ok uid) h = refl
is_answered-of (err e) h = rw h refl
is_answered-of panic h = absurd h

gives-is_there : (a : Result String) → is_there (uid_found a) ≡ gives a
gives-is_there (ok uid) = refl
gives-is_there (err e) = ground arith
gives-is_there panic = refl

IsCreated-of : (a : Result (Object Kind.managed_ocs)) → ensured a ≡ ok tt → IsCreated a
unfolding ensured
IsCreated-of (ok obj) h = tt
IsCreated-of (err e) h = ground arith
IsCreated-of panic h = absurd cc

ensured-of : (a : Result (Object Kind.managed_ocs)) → IsCreated a → ensured a ≡ ok tt
unfolding ensured
ensured-of (ok obj) h = refl
ensured-of (err e) h = rw h refl
ensured-of panic h = absurd h

config_of-values :
    (v : Variables) (answers : String → Result String)
    → config_of (values v) (availability answers) ≡ wanted_config v answers
unfolding config_of get_text lookup
config_of-values v answers =
    rw
      (
        gives-is_there (answers egress_firewall_crd),
        gives-is_there (answers egress_network_policy_crd),
      )
      refl

namespace-of : (v : Variables) → get_text "NAMESPACE" (values v) ≡ v.namespace
unfolding get_text lookup
namespace-of v = refl

module _ (E : Env) (p : Platform E) (answers : String → Result String)
    (steady : (name : String) (c : E.Cluster) → (p.get_crd name c).0 ≡ answers name) where
  ensure-values :
      (v : Variables) (c : E.Cluster)
      → p.has_crd_client ≡ true
      → IsAnswered answers
      → (ensure_managed_ocs E (values v) (map_crd_availability E p crd_names c).1).0
        ≡ ensured (E.create Kind.managed_ocs (wanted_managed_ocs v.namespace) (asked E p c)).0
  unfolding ensure_managed_ocs get_text lookup
  ensure-values v c has answered =
      rw (map_crd_availability-cluster E p answers steady c has answered) refl

  IsStarted-IsReady :
      (v : Variables) (c : E.Cluster) (r : Config)
      → IsStarted E p answers (values v) c r
      → IsReady E p answers v c r
  IsStarted-IsReady v c r (managed, has, has_crd, answered, fields, set_up, created) = (
    rw (namespace-of v) at managed,
    has,
    has_crd,
    IsAnswer-of _ answered.0,
    IsAnswer-of _ answered.1,
    fields ∙ config_of-values v answers,
    set_up,
    IsCreated-of _ (sym (ensure-values v c has_crd answered) ∙ created),
  )

  IsReady-IsStarted :
      (v : Variables) (c : E.Cluster) (r : Config)
      → IsReady E p answers v c r
      → IsStarted E p answers (values v) c r
  IsReady-IsStarted v c r (managed, has, has_crd, one, two, fields, set_up, created) =
      let answered : IsAnswered answers = (is_answered-of _ one, is_answered-of _ two) in
      (
        rw (namespace-of v) managed,
        has,
        has_crd,
        answered,
        fields ∙ sym (config_of-values v answers),
        set_up,
        ensure-values v c has_crd answered ∙ ensured-of _ created,
      )

  same_vars :
      (vars vars' : Dict String) (c : E.Cluster) (r : Config)
      → vars ≡ vars'
      → IsStarted E p answers vars c r
      → IsStarted E p answers vars' c r
  same_vars vars vars' c r e is = rw (← e) is

  -- If the answers on resource definitions stay the same, `main` hands over to the manager with
  -- some fields exactly if all seven variables are set, the manager and both clients can be made,
  -- each of the two definitions is found or answered to be missing, the fields are those made of
  -- the variables and of which definitions are there, the controller can be set up with them, and
  -- the creation of the resource, with its finalizer and in the given namespace, succeeds or is
  -- answered with the error that it exists already.
  pub main-started_iff :
      (env : String → Option String) (c : E.Cluster) (r : Config)
      → ((main E p env c).0 ≡ started r)
        ↔ ((v : Variables) × AreSet env v × IsReady E p answers v c r)
  main-started_iff env c r = (
    (λ h.
        let (vars, e, is) = (main-IsStarted E p answers steady env c r).0 h in
        let (v, set, same) = read_env_vars-AreSet env vars e in
        (v, set, IsStarted-IsReady v c r (same_vars vars (values v) c r same is))),
    (λ (v, set, ready).
        (main-IsStarted E p answers steady env c r).1
          (values v, AreSet-read_env_vars env v set, IsReady-IsStarted v c r ready)),
  )
