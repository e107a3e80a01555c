-- ===== src/Controllers/Prometheus/Remote.antt =====
-- When Prometheus writes to the remote endpoint.
use ocs_osd_deployer.Base.{
  String, ◌≡◌, ◌≢◌, refl, ◌⊎◌, inl, inr, some, List, [], eq_iff, str_eq, Bool-cases, Option-cases,
  if◌then◌else◌, ap, ◌∙◌, sym,
}
use ocs_osd_deployer.Base.Dict.{lookup}
use ocs_osd_deployer.Kube.Exec.{Result, ok, err, panic, attempt, continue, ◌>>=◌, ◌>>◌}
use ocs_osd_deployer.Kube.Keeps.{Keeps, keeps_rules, Keeps-bind, Keeps-attempt}
use ocs_osd_deployer.Kube.Succeeds.{bind-eq-ok}
use ocs_osd_deployer.Kube.Monitoring.{RemoteWrite}
use ocs_osd_deployer.Kube.Object.{Kind, Object}
use ocs_osd_deployer.Kube.Env.{Env}
use ocs_osd_deployer.Controllers.State.{Config, World, converged_deployment_type}
use ocs_osd_deployer.Controllers.Actions.{
  M, asks, assign, call, get, refresh, or_raise, ignore_not_found,
}
use ocs_osd_deployer.Controllers.Slots
use ocs_osd_deployer.Controllers.Prometheus.{
  rhobs_id_key, rhobs_secret_key, rhobs_audience_key, fill_remote_write, require_entry,
  use_rhobs_secret, with_remote_write, set_remote_write,
}

module _ (E : Env) where
  -- The first remote write is filled in, from a secret that has all three entries.
  abbrev pub Sends : Config → List RemoteWrite → World E → Type 0
  Sends config writes w =
      let secret = w.reconciler.rhobs_remote_write_config_secret in
      (id : String) × (text : String) × (audience : String) × (lookup rhobs_id_key secret.body
        ≡ some id)
      × (lookup rhobs_secret_key secret.body ≡ some text)
      × (lookup rhobs_audience_key secret.body ≡ some audience)
      × (w.reconciler.prometheus.body.remote_write ≡ fill_remote_write config audience writes)

  use_rhobs_secret-Sends :
      (w : World E)
      → (use_rhobs_secret E w).0 ≡ ok tt
      → ((use_rhobs_secret E w).1.reconciler.rhobs_remote_write_config_secret
          ≡ w.reconciler.rhobs_remote_write_config_secret)
        × Sends w.reconciler.config w.reconciler.prometheus.body.remote_write
            (use_rhobs_secret E w).1
  unfolding use_rhobs_secret asks assign require_entry or_raise ◌>>=◌
  use_rhobs_secret-Sends w h =
      let values = w.reconciler.rhobs_remote_write_config_secret.body in
      elim (Option-cases (lookup rhobs_id_key values)) [
        | inl e ↦ let h' = rw (e, continue) at h in absurd cc
        | inr (id, e) ↦ elim (Option-cases (lookup rhobs_secret_key values)) [
          | inl f ↦ let h' = rw (e, continue, f) at h in absurd cc
          | inr (text, f) ↦ elim (Option-cases (lookup rhobs_audience_key values)) [
            | inl g ↦ let h' = rw (e, continue, f, g) at h in absurd cc
            | inr (audience, g) ↦ rw (e, continue, f, g) (refl, (id, text, audience, e, f, g, refl))
          ]
        ]
      ]

  -- Reading the secret leaves Prometheus and the configuration alone.
  abbrev IsSameBut : World E → World E → Type 0
  IsSameBut before w =
      (w.reconciler.prometheus ≡ before.reconciler.prometheus)
      × (w.reconciler.config ≡ before.reconciler.config)

  refresh-Keeps :
      (before : World E)
      → Keeps (IsSameBut before) (refresh E Slots.rhobs_remote_write_config_secret)
  unfolding refresh get call asks assign
  refresh-Keeps before =
      Keeps-bind _ _ (record { at = λ s h. h })
        (λ obj. Keeps-bind _ _ (record { at = λ s h. h }) (λ found. record { at = λ s h. h }))

  ignore-Keeps :
      (before : World E) (r : Result (Unit {0})) → Keeps (IsSameBut before) (ignore_not_found E r)
  unfolding ignore_not_found
  ignore-Keeps before (ok u) = search keeps_rules
  ignore-Keeps before (err e) = search keeps_rules
  ignore-Keeps before panic = search keeps_rules

  -- The rest, once the secret was looked for.
  abbrev decide : M E (Unit {0})
  decide = do
    uid ← asks E (λ r. r.rhobs_remote_write_config_secret.metadata.uid)
    if str_eq uid "" then assign E (with_remote_write []) else use_rhobs_secret E

  abbrev pub IsDecided : Config → List RemoteWrite → World E → Type 0
  IsDecided config writes w =
      let uid = w.reconciler.rhobs_remote_write_config_secret.metadata.uid in
      ((uid ≡ "") × (w.reconciler.prometheus.body.remote_write ≡ []))
      ⊎ ((uid ≢ "") × Sends config writes w)

  decide-IsDecided :
      (w : World E)
      → (decide w).0 ≡ ok tt
      → IsDecided w.reconciler.config w.reconciler.prometheus.body.remote_write (decide w).1
  unfolding asks assign ◌>>=◌
  decide-IsDecided w h =
      let uid = w.reconciler.rhobs_remote_write_config_secret.metadata.uid in
      elim (Bool-cases (str_eq uid "")) [
        | inl e ↦ rw e (inl ((eq_iff uid "").0 e, refl))
        | inr e ↦
            let (same, sends) = use_rhobs_secret-Sends w (rw e at h) in
            let same_uid = ap (λ (o : Object Kind.secret). o.metadata.uid) same in
            rw e (inr ((λ empty. let is = (eq_iff uid "").1 (sym same_uid ∙ empty) in cc), sends))
      ]

  pub IsDecided-same :
      (c c' : Config) (writes writes' : List RemoteWrite) (w : World E)
      → c' ≡ c
      → writes' ≡ writes
      → IsDecided c' writes' w
      → IsDecided c writes w
  IsDecided-same c c' writes writes' w same_config same_writes d =
      rw (← same_config, ← same_writes) d

  abbrev read_and_decide : M E (Unit {0})
  read_and_decide = do
    found ← attempt (refresh E Slots.rhobs_remote_write_config_secret)
    ignore_not_found E found
    decide

  read_and_decide-IsDecided :
      (w : World E)
      → (read_and_decide w).0 ≡ ok tt
      → IsDecided w.reconciler.config w.reconciler.prometheus.body.remote_write
          (read_and_decide w).1
  read_and_decide-IsDecided w h =
      let read = attempt (refresh E Slots.rhobs_remote_write_config_secret) in
      let (found, _, p) =
        bind-eq-ok read (λ found. ignore_not_found E found >>= λ _. decide) w tt h in
      let h1 = rw p at h in
      let (_, _, q) = bind-eq-ok (ignore_not_found E found) (λ _. decide) (read w).1 tt h1 in
      let looked = (ignore_not_found E found (read w).1).1 in
      let same =
        (ignore-Keeps w found).at (read w).1
          ((Keeps-attempt _ (refresh-Keeps w)).at w (refl, refl)) in
      rw (p, q)
        (IsDecided-same _ looked.reconciler.config _ looked.reconciler.prometheus.body.remote_write
          (decide looked).1 same.1 (ap (λ (o : Object Kind.prometheus). o.body.remote_write) same.0)
          (decide-IsDecided looked (rw q at h1)))

  -- If the remote write is set up without an error, then either it is off, and the deployment is
  -- converged or the secret for it, as the reconciler holds it then, has no UID; or the deployment
  -- is another one, the secret has a UID and all three entries, and the first remote write of the
  -- specification is filled in from the configuration, the references to the secret and its
  -- audience.
  pub set_remote_write-IsDecided :
      (w : World E)
      → (set_remote_write E w).0 ≡ ok tt
      → ((w.reconciler.config.deployment_type ≡ converged_deployment_type)
          × ((set_remote_write E w).1.reconciler.prometheus.body.remote_write ≡ []))
        ⊎ ((w.reconciler.config.deployment_type ≢ converged_deployment_type)
            × IsDecided w.reconciler.config w.reconciler.prometheus.body.remote_write
                (set_remote_write E w).1)
  unfolding set_remote_write asks assign ◌>>=◌
  set_remote_write-IsDecided w h =
      let type = w.reconciler.config.deployment_type in
      elim (Bool-cases (str_eq type converged_deployment_type)) [
        | inl c ↦ inl ((eq_iff type converged_deployment_type).0 c, rw (set_remote_write, c) refl)
        | inr c ↦ inr (
          (λ is. let converged = (eq_iff type converged_deployment_type).1 is in cc),
          rw (set_remote_write, c) (read_and_decide-IsDecided w (rw (set_remote_write, c) at h)),
        )
      ]
