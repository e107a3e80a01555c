-- ===== src/Controllers/Prometheus/Fixed.antt =====
-- What the setup of the remote write leaves alone.
use ocs_osd_deployer.Base.{String, ◌≡◌, ◌∙◌, Option, none, some, []}
use ocs_osd_deployer.Kube.Exec.{Error, Result, ok, err, panic}
use ocs_osd_deployer.Kube.Keeps.{Keeps, keeps_rules}
use ocs_osd_deployer.Kube.Monitoring.{PrometheusSpec}
use ocs_osd_deployer.Kube.Env.{Env}
use ocs_osd_deployer.Controllers.State.{Config, Reconciler, World}
use ocs_osd_deployer.Controllers.Actions.{
  M, asks, assign, call, get, refresh, or_raise, ignore_not_found,
}
use ocs_osd_deployer.Controllers.Prometheus.{set_remote_write, use_rhobs_secret, require_entry}

-- The specification but for the remote writes, the namespace and the configuration.
abbrev pub Local : Type 0
Local = PrometheusSpec × String × Config

abbrev pub local : Reconciler → Local
local r = (record r.prometheus.body { remote_write = [] }, r.namespace, r.config)

module _ (E : Env) where
  -- The remote write is set up without a change of the rest.
  abbrev pub Fixed : Local → {A : Type 0} → M E A → Type 0
  Fixed v m = Keeps (λ (s : World E). local s.reconciler ≡ v) m

  module _ (v : Local) where
    Fixed-call : {A : Type 0} (f : E.Cluster → Result A × E.Cluster) → Fixed v (call E f)
    unfolding call
    Fixed-call f = record { at = λ s h. h }

    Fixed-asks : {A : Type 0} (f : Reconciler → A) → Fixed v (asks E f)
    unfolding asks
    Fixed-asks f = record { at = λ s h. h }

    Fixed-or_raise : {A : Type 0} (o : Option A) (e : Error) → Fixed v (or_raise o e)
    unfolding or_raise
    Fixed-or_raise none e = search keeps_rules
    Fixed-or_raise (some a) e = search keeps_rules

    Fixed-assign :
        (f : Reconciler → Reconciler)
        → ((r : Reconciler) → local (f r) ≡ local r)
        → Fixed v (assign E f)
    unfolding assign
    Fixed-assign f same = record { at = λ s h. same s.reconciler ∙ h }

    Fixed-ignore_not_found : (r : Result (Unit {0})) → Fixed v (ignore_not_found E r)
    unfolding ignore_not_found
    Fixed-ignore_not_found (ok u) = search keeps_rules
    Fixed-ignore_not_found (err e) = search keeps_rules
    Fixed-ignore_not_found panic = search keeps_rules

    pub Fixed-set_remote_write : Fixed v (set_remote_write E)
    unfolding set_remote_write use_rhobs_secret require_entry refresh get
    Fixed-set_remote_write =
        search
          (
            keeps_rules, Fixed-call, Fixed-asks, Fixed-or_raise, Fixed-assign,
            Fixed-ignore_not_found,
          )
          depth 40
