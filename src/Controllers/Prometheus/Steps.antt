-- ===== src/Controllers/Prometheus/Steps.antt =====
-- What the function that `reconcilePrometheus` passes to `CreateOrUpdate` reads, step by step.
use mathlib.Core.List.{Memᴰ}
use ocs_osd_deployer.Base.{
  List, String, ◌≡◌, refl, sym, ap, ◌∙◌, true, Option, none, some, starts_with,
}
use ocs_osd_deployer.Kube.Exec.{ok, wrap, pure, crash, ◌>>=◌}
use ocs_osd_deployer.Kube.Succeeds.{bind_steps}
use ocs_osd_deployer.Kube.Object.{Kind, Object}
use ocs_osd_deployer.Kube.Env.{Env}
use ocs_osd_deployer.Controllers.State.{World, deployer_csv_prefix}
use ocs_osd_deployer.Controllers.Actions.{asks, assign, call, get, own}
use ocs_osd_deployer.Controllers.Slots
use ocs_osd_deployer.Controllers.Init.{new_object}
use ocs_osd_deployer.Controllers.Operators.{get_csv_by_prefix}
use ocs_osd_deployer.Controllers.Prometheus.Image.{IsManagerImage, kube_rbac_image-IsManagerImage}
use ocs_osd_deployer.Controllers.Prometheus.Found.{
  wrap_result-eq-ok, listed, get_csv_by_prefix-listed, own_prometheus-same,
}
use ocs_osd_deployer.Controllers.Prometheus.{
  kube_rbac_image, desired_prometheus, with_prometheus, label_prometheus, image_or_crash,
  set_remote_write, mutate_prometheus,
}

module _ (E : Env) where
  -- What a run from `w` on reads for the specification. The list of cluster service versions is its
  -- first call, and among them is one of the deployer, whose manager has this image for its proxy;
  -- the version of the cluster is what the next call finds.
  abbrev pub HasRead :
      World E → Object Kind.cluster_service_version → String → Object Kind.cluster_version → Type 0
  HasRead w csv image version =
      (csvs : List (Object Kind.cluster_service_version)) × ((listed E w).0 ≡ ok csvs)
      × Memᴰ csv csvs
      × (starts_with csv.metadata.name "ocs-osd-deployer" ≡ true)
      × IsManagerImage csv.body image
      × ((E.get Kind.cluster_version "version" "" (listed E w).1).0 ≡ ok version)

  -- The state from which the remote write is set up.
  abbrev pub Prepared : World E → World E → Type 0
  Prepared w s =
      (csv : Object Kind.cluster_service_version) × (image : String) × (version : Object
        Kind.cluster_version)
      × HasRead w csv image version
      × (s.reconciler.prometheus.body
          ≡ desired_prometheus image version.body s.reconciler.namespace)

  listed-same :
      (s w : World E)
      → s.cluster ≡ w.cluster
      → s.reconciler.namespace ≡ w.reconciler.namespace
      → listed E s ≡ listed E w
  listed-same s w e f = rw (e, f) refl

  image_or_crash-same : (o : Option String) (s : World E) → (image_or_crash E o s).1 ≡ s
  unfolding image_or_crash pure crash ◌>>=◌
  image_or_crash-same (some x) s = refl
  image_or_crash-same none s = refl

  image_or_crash-eq-ok :
      (o : Option String) (s : World E) {image : String}
      → (image_or_crash E o s).0 ≡ ok image
      → o ≡ some image
  unfolding image_or_crash pure crash ◌>>=◌
  image_or_crash-eq-ok (some x) s h = ap some (cc)
  image_or_crash-eq-ok none s h = absurd cc

  HasRead-after :
      (w s : World E)
      → (s.cluster ≡ w.cluster) × (s.reconciler.namespace ≡ w.reconciler.namespace)
      → (csv : Object Kind.cluster_service_version) (image : String)
        (version : Object Kind.cluster_version)
      → (get_csv_by_prefix E deployer_csv_prefix s).0 ≡ ok csv
      → (let found = (get_csv_by_prefix E deployer_csv_prefix s).1 in
          let o = kube_rbac_image csv.body in
          (image_or_crash E o found).0 ≡ ok image
          → (E.get Kind.cluster_version "version" "" (image_or_crash E o found).1.cluster).0
            ≡ ok version
          → HasRead w csv image version)
  HasRead-after w s (still, same_namespace) csv image version e e' e'' =
      let found = (get_csv_by_prefix E deployer_csv_prefix s).1 in
      let o = kube_rbac_image csv.body in
      let (csvs, listing, member, starts, next) =
        get_csv_by_prefix-listed E s deployer_csv_prefix csv e in
      let answer = listed-same s w still same_namespace in
      let then_cluster =
        ap (λ (s : World E). s.cluster) (image_or_crash-same o found)
        ∙ (next ∙ ap (λ x. x.1) answer) in
      (
        csvs,
        sym (ap (λ x. x.0) answer) ∙ listing,
        member,
        starts,
        kube_rbac_image-IsManagerImage csv.body image (image_or_crash-eq-ok o found e'),
        sym (ap (λ c. (E.get Kind.cluster_version "version" "" c).0) then_cluster) ∙ e'',
      )

  pub mutate_prometheus-steps :
      (w : World E)
      → (mutate_prometheus E w).0 ≡ ok tt
      → (s : World E) × Prepared w s × (mutate_prometheus E w ≡ set_remote_write E s)
  unfolding mutate_prometheus wrap asks assign get call
  mutate_prometheus-steps w h =
      let (_, _, p1, h1) = bind_steps (own E Slots.prometheus) _ w tt h in
      let s1 = (own E Slots.prometheus w).1 in
      let (_, _, p2, h2) = bind_steps (assign E (label_prometheus E)) _ s1 tt h1 in
      let s2 = (assign E (label_prometheus E) s1).1 in
      let (csv, e3, p3, h3) =
        bind_steps
          (wrap "Unable to set image for kube-rbac-proxy container: "
            (get_csv_by_prefix E deployer_csv_prefix))
          _ s2 tt h2 in
      let s3 = (get_csv_by_prefix E deployer_csv_prefix s2).1 in
      let (image, e4, p4, h4) =
        bind_steps (image_or_crash E (kube_rbac_image csv.body)) _ s3 tt h3 in
      let s4 = (image_or_crash E (kube_rbac_image csv.body) s3).1 in
      let cluster_version = new_object {k = Kind.cluster_version} "version" "" "" in
      let (version, e5, p5, h5) = bind_steps (get E cluster_version) _ s4 tt h4 in
      let s5 = (get E cluster_version s4).1 in
      let (namespace, e6, p6, h6) = bind_steps (asks E (λ r. r.namespace)) _ s5 tt h5 in
      let set = with_prometheus (desired_prometheus image version.body namespace) in
      let (_, _, p7, _) = bind_steps (assign E set) _ s5 tt h6 in
      let same : s5.reconciler.namespace ≡ namespace = cc (e6) in
      (
        (assign E set s5).1,
        (
          csv,
          image,
          version,
          HasRead-after w s2 (own_prometheus-same E w) csv image version (wrap_result-eq-ok _ _ e3)
              e4 e5,
          rw same refl,
        ),
        p1 ∙ (p2 ∙ (p3 ∙ (p4 ∙ (p5 ∙ (p6 ∙ p7))))),
      )
