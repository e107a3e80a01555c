-- ===== src/Tests/Start.antt =====
-- A start of the program with all variables set and one of the two resource definitions.
use ocs_osd_deployer.Base.{
  [], ◌∷◌, String, Bool, true, false, ◌≡◌, ◌↔◌, refl, Option, none, some, str_eq, if◌then◌else◌,
}
use ocs_osd_deployer.Base.Dict.{Dict, insert}
use ocs_osd_deployer.Kube.Exec
use ocs_osd_deployer.Kube.Exec.{Result, ok, err}
use ocs_osd_deployer.Controllers.State.{egress_firewall_crd, egress_network_policy_crd}
use ocs_osd_deployer.Setup.{read_vars, read_env_vars, config_of, ensured, ensure_managed_ocs}
use ocs_osd_deployer.Setup.Main.{
  Platform, started, map_crds, map_crd_availability, run_controller, with_manager, main,
}
use ocs_osd_deployer.Setup.Environment.{Variables, AreSet}
use ocs_osd_deployer.Setup.Main.Handover.{IsReady, main-started_iff}
use ocs_osd_deployer.Tests.Scene.{env}

abbrev answers : String → Result String
answers name = if str_eq name egress_firewall_crd then ok "5" else err Exec.not_found

abbrev platform : Platform env
platform = record {
  has_unrestricted_client = true;
  has_crd_client = true;
  new_manager = λ namespace. none;
  get_crd = λ name c. (answers name, c);
  set_up_with_manager = λ r. none;
}

abbrev variables : String → Option String
variables name = some "converged"

abbrev vars : Dict String
vars =
    ("NAMESPACE", "converged")
    ∷ ("ADDON_NAME", "converged")
    ∷ ("SOP_ENDPOINT", "converged")
    ∷ ("ALERT_SMTP_FROM_ADDR", "converged")
    ∷ ("DEPLOYMENT_TYPE", "converged")
    ∷ ("RHOBS_ENDPOINT", "converged")
    ∷ ("RH_SSO_TOKEN_ENDPOINT", "converged")
    ∷ []

abbrev crds : Dict Bool
crds = (egress_firewall_crd, true) ∷ (egress_network_policy_crd, false) ∷ []

main-runs : (main env platform variables 0).0 ≡ started (config_of vars crds)
unfolding main read_env_vars read_vars insert with_manager map_crd_availability map_crds
    run_controller ensure_managed_ocs ensured
main-runs = refl

main-started_iff_example : ((main env platform variables 0).0 ≡ started (config_of vars crds)) ↔ (
    (v : Variables) × AreSet variables v × IsReady env platform answers v 0 (config_of vars crds))
main-started_iff_example =
    main-started_iff env platform answers (λ name c. refl) variables 0 (config_of vars crds)
