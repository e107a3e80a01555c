-- ===== src/Setup/Main/Started.antt =====
-- When `main` hands over to the manager, and with which fields.
use ocs_osd_deployer.Base.{
  String, ◌≡◌, ◌↔◌, refl, true, false, Bool, if◌then◌else◌, Option, none, some, Option-cases, inl,
  inr,
}
use ocs_osd_deployer.Base.Dict.{Dict, get_text}
use ocs_osd_deployer.Kube.Exec.{Result, ok, err, panic}
use ocs_osd_deployer.Kube.Env.{Env}
use ocs_osd_deployer.Controllers.State.{Config}
use ocs_osd_deployer.Setup.{read_env_vars, config_of, ensure_managed_ocs}
use ocs_osd_deployer.Setup.Main.{
  Platform, crd_names, Failure, Outcome, exited, started, after_ensure, run_controller, with_crds,
  with_manager, main, map_crd_availability,
}
use ocs_osd_deployer.Setup.Main.Availability.{IsAnswered, availability, map_crd_availability_iff}

module _ (E : Env) (p : Platform E) where
  after_ensure-started :
      (r r' : Config) (answer : Result (Unit {0}))
      → after_ensure E p r answer ≡ started r'
      → (r' ≡ r) × (answer ≡ ok tt)
  after_ensure-started r r' (ok done) h = (cc, refl)
  after_ensure-started r r' (err e) h = absurd cc
  after_ensure-started r r' panic h = absurd cc

  run_controller-started :
      (vars : Dict String) (r r' : Config) (c : E.Cluster)
      → (run_controller E p vars r c).0 ≡ started r'
      → (r' ≡ r) × (p.set_up_with_manager r ≡ none) × ((ensure_managed_ocs E vars c).0 ≡ ok tt)
  unfolding run_controller
  run_controller-started vars r r' c h = elim (Option-cases (p.set_up_with_manager r)) [
    | inl e ↦
        let (same, created) = after_ensure-started r r' _ (rw (run_controller, e) at h) in
        (same, e, created)
    | inr (error, e) ↦ let h' = rw (run_controller, e) at h in absurd cc
  ]

  run_controller-starts :
      (vars : Dict String) (r : Config) (c : E.Cluster)
      → p.set_up_with_manager r ≡ none
      → (ensure_managed_ocs E vars c).0 ≡ ok tt
      → (run_controller E p vars r c).0 ≡ started r
  unfolding run_controller
  run_controller-starts vars r c e h = rw (run_controller, e, h) refl

  if-started :
      (b : Bool) (r : Config) (failure : Failure) (m : Outcome × E.Cluster) (c : E.Cluster)
      → (if b then m else (exited failure, c)).0 ≡ started r
      → (b ≡ true) × (m.0 ≡ started r)
  if-started true r failure m c h = (refl, h)
  if-started false r failure m c h = absurd cc

  if-starts :
      (b : Bool) (r : Config) (failure : Failure) (m : Outcome × E.Cluster) (c : E.Cluster)
      → b ≡ true
      → m.0 ≡ started r
      → (if b then m else (exited failure, c)).0 ≡ started r
  if-starts b r failure m c e h = rw e h

  with_crds-started :
      (vars : Dict String) (r : Config) (o : Option (Dict Bool)) (c : E.Cluster)
      → (with_crds E p vars o c).0 ≡ started r
      → (crds : Dict Bool) × (o ≡ some crds)
        × (r ≡ config_of vars crds)
        × (p.set_up_with_manager (config_of vars crds) ≡ none)
        × ((ensure_managed_ocs E vars c).0 ≡ ok tt)
  with_crds-started vars r none c h = absurd cc
  with_crds-started vars r (some crds) c h =
      let (fields, set_up, created) = run_controller-started vars (config_of vars crds) r c h in
      (crds, refl, fields, set_up, created)

  with_crds-starts :
      (vars : Dict String) (r : Config) (o : Option (Dict Bool)) (crds : Dict Bool) (c : E.Cluster)
      → o ≡ some crds
      → r ≡ config_of vars crds
      → p.set_up_with_manager r ≡ none
      → (ensure_managed_ocs E vars c).0 ≡ ok tt
      → (with_crds E p vars o c).0 ≡ started r
  with_crds-starts vars r o crds c found fields set_up created =
      rw (found, ← fields) (run_controller-starts vars r c set_up created)

  -- After the variables: a manager, both clients, the answers on both definitions, the controller,
  -- and the resource.
  abbrev pub IsStarted : (String → Result String) → Dict String → E.Cluster → Config → Type 0
  IsStarted answers vars c r =
      (p.new_manager (get_text "NAMESPACE" vars) ≡ none)
      × (p.has_unrestricted_client ≡ true)
      × (p.has_crd_client ≡ true)
      × IsAnswered answers
      × (r ≡ config_of vars (availability answers))
      × (p.set_up_with_manager r ≡ none)
      × ((ensure_managed_ocs E vars (map_crd_availability E p crd_names c).1).0 ≡ ok tt)

  module _ (answers : String → Result String)
      (steady : (name : String) (c : E.Cluster) → (p.get_crd name c).0 ≡ answers name) where
    with_manager-started :
        (vars : Dict String) (r : Config) (c : E.Cluster)
        → p.new_manager (get_text "NAMESPACE" vars) ≡ none
        → (with_manager E p vars c).0 ≡ started r
        → IsStarted answers vars c r
    unfolding with_manager
    with_manager-started vars r c managed h =
        let (has, h') = if-started p.has_unrestricted_client r _ _ c h in
        let (crds, found, fields, set_up, created) = with_crds-started vars r _ _ h' in
        let (has_crd, answered, same) =
          (map_crd_availability_iff E p answers steady c crds).0 found in
        (managed, has, has_crd, answered, rw (← same) fields, rw fields set_up, created)

    with_manager-starts :
        (vars : Dict String) (r : Config) (c : E.Cluster)
        → IsStarted answers vars c r
        → (with_manager E p vars c).0 ≡ started r
    unfolding with_manager
    with_manager-starts vars r c (managed, has, has_crd, answered, fields, set_up, created) =
        let found =
          (map_crd_availability_iff E p answers steady c (availability answers)).1
            (has_crd, answered, refl) in
        if-starts p.has_unrestricted_client r _ _ c has
          (with_crds-starts vars r _ (availability answers) _ found fields set_up created)

    -- The same for the whole of `main`, in the words of the code's own parts.
    pub main-IsStarted :
        (env : String → Option String) (c : E.Cluster) (r : Config)
        → ((main E p env c).0 ≡ started r)
          ↔ ((vars : Dict String) × (read_env_vars env ≡ some vars) × IsStarted answers vars c r)
    unfolding main
    main-IsStarted env c r = (
      (λ h. elim (Option-cases (read_env_vars env)) [
        | inl e ↦ let h' = rw (main, e) at h in absurd cc
        | inr (vars, e) ↦ elim (Option-cases (p.new_manager (get_text "NAMESPACE" vars))) [
          | inl f ↦ (vars, e, with_manager-started vars r c f (rw (main, e, f) at h))
          | inr (error, f) ↦ let h' = rw (main, e, f) at h in absurd cc
        ]
      ]),
      (λ (vars, e, is).
          let managed : p.new_manager (get_text "NAMESPACE" vars) ≡ none = is.0 in
          rw (main, e, managed) (with_manager-starts vars r c is)),
    )
