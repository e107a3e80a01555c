-- ===== src/Controllers/Prometheus/Found.antt =====
-- What `reconcilePrometheus` finds in the cluster: the answers that a run is given, in its order.
use mathlib.Core.List.{Memᴰ}
use ocs_osd_deployer.Base.{
  String, ◌≡◌, refl, ap, ◌∙◌, sym, true, Option, none, some, List, [], ◌∷◌, starts_with, Bool-cases,
  inl, inr, arith,
}
use ocs_osd_deployer.Kube.Exec
use ocs_osd_deployer.Kube.Exec.{
  Error, Exec, Result, ok, err, panic, wrap, wrap_result, continue, ◌>>=◌, lift, pure, raise,
}
use ocs_osd_deployer.Kube.Succeeds.{bind_steps}
use ocs_osd_deployer.Kube.Object.{Kind, Object}
use ocs_osd_deployer.Kube.Env.{Env}
use ocs_osd_deployer.Controllers.State.{World}
use ocs_osd_deployer.Controllers.Actions.{or_raise, asks, assign, own, list, call}
use ocs_osd_deployer.Controllers.Slots
use ocs_osd_deployer.Controllers.Operators.{find_csv, get_csv_by_prefix}

pub wrap_result-eq-ok :
    {A : Type 0} (text : String) (r : Result A) {a : A} → wrap_result text r ≡ ok a → r ≡ ok a
unfolding wrap_result
wrap_result-eq-ok text (ok x) h = h
wrap_result-eq-ok text (err e) h = absurd cc
wrap_result-eq-ok text panic h = absurd cc

find_csv-mem :
    (csvs : List (Object Kind.cluster_service_version)) (prefix : String)
    (csv : Object Kind.cluster_service_version)
    → find_csv csvs prefix ≡ some csv
    → Memᴰ csv csvs × (starts_with csv.metadata.name prefix ≡ true)
find_csv-mem [] prefix csv h = absurd cc
find_csv-mem (c ∷ cs) prefix csv h = elim (Bool-cases (starts_with c.metadata.name prefix)) [
  | inl e ↦
      let same = ap (λ o. elim o [ some y ↦ y | none ↦ c ]) (rw (find_csv, e) at h) in
      (
        Memᴰ.head (sym same),
        ap (λ (o : Object Kind.cluster_service_version). starts_with o.metadata.name prefix)
              (sym same)
            ∙ e,
      )
  | inr e ↦ let (m, s) = find_csv-mem cs prefix csv (rw (find_csv, e) at h) in (Memᴰ.tail m, s)
]

or_raise-same :
    {S A : Type 0} (o : Option A) (e : Error) (s : S) {a : A}
    → (or_raise o e s).0 ≡ ok a
    → (o ≡ some a) × ((or_raise o e s).1 ≡ s)
unfolding or_raise pure raise
or_raise-same (some x) e s h = (cc, refl)
or_raise-same none e s h = absurd cc

module _ (E : Env) (w : World E) where
  abbrev pub listed : Result (List (Object Kind.cluster_service_version)) × E.Cluster
  listed = E.list Kind.cluster_service_version (some w.reconciler.namespace) none w.cluster

  -- The one that is got is in the answer to the list.
  pub get_csv_by_prefix-listed :
      (prefix : String) (csv : Object Kind.cluster_service_version)
      → (get_csv_by_prefix E prefix w).0 ≡ ok csv
      → (csvs : List (Object Kind.cluster_service_version)) × (listed.0 ≡ ok csvs)
        × Memᴰ csv csvs
        × (starts_with csv.metadata.name prefix ≡ true)
        × ((get_csv_by_prefix E prefix w).1.cluster ≡ listed.1)
  unfolding get_csv_by_prefix list call asks wrap ◌>>=◌ continue
  get_csv_by_prefix-listed prefix csv h =
      let (csvs, e, p, h1) =
        bind_steps (wrap "unable to list csv resources: " (list E Kind.cluster_service_version))
          (λ csvs. or_raise (find_csv csvs prefix) Exec.not_found) w csv h in
      let (f, same) = or_raise-same (find_csv csvs prefix) Exec.not_found _ h1 in
      let (m, s) = find_csv-mem csvs prefix csv f in
      (
        csvs,
        wrap_result-eq-ok _ _ e,
        m,
        s,
        ap (λ r. r.1.cluster) p ∙ ap (λ (s : World E). s.cluster) same,
      )

  -- Owning the resource asks nothing of the cluster.
  pub own_prometheus-same :
      ((own E Slots.prometheus w).1.cluster ≡ w.cluster)
      × ((own E Slots.prometheus w).1.reconciler.namespace ≡ w.reconciler.namespace)
  unfolding own asks assign lift ◌>>=◌ continue
  own_prometheus-same = ground arith
