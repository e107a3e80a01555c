-- ===== src/Controllers/StorageCluster/Kinds.antt =====
-- The functions for the three deployment types, against what is meant.
use ocs_osd_deployer.Base.{
  String, ◌<>◌, ◌≡◌, inl, inr, sym, ap, ◌∙◌, false, some, List, eq_iff, str_eq, Bool-cases,
  Option-cases,
}
use ocs_osd_deployer.Base.Dict.{Dict, get_text}
use ocs_osd_deployer.Base.Int.{ℤ}
use ocs_osd_deployer.Kube.Storage.{Quantity, StorageDeviceSet, StorageClusterSpec}
use ocs_osd_deployer.Kube.Exec.{ok}
use ocs_osd_deployer.Kube.Env.{Env}
use ocs_osd_deployer.Templates.StorageClusters.{
  converged_storage_cluster_template, provider_storage_cluster_template,
  consumer_storage_cluster_template,
}
use ocs_osd_deployer.Controllers.State.{
  consumer_deployment_type, converged_deployment_type, provider_deployment_type, storage_size_key,
  storage_unit_key,
}
use ocs_osd_deployer.Controllers.StorageCluster.Count.{device_set_count, provider_device_set_count}
use ocs_osd_deployer.Controllers.StorageCluster.{
  ◌then_try◌, current_count, apply_mcg, size_of, with_count, onboarding_ticket_key,
  storage_provider_endpoint_key, requested_capacity, desired_converged_storage_cluster,
  desired_provider_storage_cluster, desired_consumer_storage_cluster, desired_storage_cluster,
}
use ocs_osd_deployer.Controllers.StorageCluster.Desired.{then_try-eq-ok, or_message-eq-ok}
use ocs_osd_deployer.Controllers.StorageCluster.Meaning.{
  IsConverged, IsProvider, IsExternal, IsConsumer, IsMeant,
}
use ocs_osd_deployer.Controllers.StorageCluster.Shape.{
  IsLarger-device_set_count, Covers-provider_device_set_count, HasGateway, apply_mcg-HasGateway,
  with_count-IsSized, converged-recounted, provider-recounted, converged-HasCount,
  provider-HasCount, gateways_off,
}

module _ (params : Dict String) (current : List StorageDeviceSet) (out : StorageClusterSpec) where
  pub desired-IsConverged :
      desired_converged_storage_cluster params current ≡ ok out
      → IsConverged params (current_count current) out × HasGateway params out
  unfolding desired_converged_storage_cluster
  desired-IsConverged h =
      let template = converged_storage_cluster_template in
      let count = λ (n : ℤ). device_set_count n (current_count current) in
      let (n, e, h1) =
        then_try-eq-ok (size_of params)
          (λ size. with_count template (count size) then_try apply_mcg params) h in
      let (sized, gateway) =
        with_count-IsSized params out template (count n) (converged-recounted (count n))
          (converged-HasCount (count n)) gateways_off.0 h1 in
      (
        (
          n,
          count n,
          or_message-eq-ok _ _ e,
          IsLarger-device_set_count n (current_count current),
          sized,
        ),
        gateway,
      )

  pub desired-IsProvider :
      desired_provider_storage_cluster params current ≡ ok out
      → IsProvider params (current_count current) out × HasGateway params out
  unfolding desired_provider_storage_cluster
  desired-IsProvider h =
      let template = provider_storage_cluster_template in
      let sets = λ (n : ℤ). provider_device_set_count n in
      let count = λ (n : ℤ). device_set_count (sets n) (current_count current) in
      let (n, e, h1) =
        then_try-eq-ok (size_of params)
          (λ size. with_count template (count size) then_try apply_mcg params) h in
      let (sized, gateway) =
        with_count-IsSized params out template (count n) (provider-recounted (count n))
          (provider-HasCount (count n)) gateways_off.1 h1 in
      (
        (
          n,
          sets n,
          count n,
          or_message-eq-ok _ _ e,
          Covers-provider_device_set_count n,
          IsLarger-device_set_count (sets n) (current_count current),
          sized,
        ),
        gateway,
      )

-- The template for a consumer, filled in.
abbrev filled : Dict String → Quantity → StorageClusterSpec
filled params capacity = record consumer_storage_cluster_template {
  external_storage = record consumer_storage_cluster_template.external_storage {
    onboarding_ticket = get_text onboarding_ticket_key params;
    storage_provider_endpoint = get_text storage_provider_endpoint_key params;
    requested_capacity = some capacity;
  };
}

filled-IsExternal :
    (params : Dict String) (capacity : Quantity) (out : StorageClusterSpec)
    → out ≡ record (filled params capacity) { multi_cloud_gateway = out.multi_cloud_gateway }
    → IsExternal params capacity out
unfolding consumer_storage_cluster_template
filled-IsExternal params capacity out e =
    let external = ap (λ (s : StorageClusterSpec). s.external_storage) e in
    (
      external,
      ap (λ (s : StorageClusterSpec). s.storage_device_sets) e,
      e
          ∙ ap
              (λ x. record consumer_storage_cluster_template {
                external_storage = x;
                multi_cloud_gateway = out.multi_cloud_gateway;
              })
              (sym external),
    )

module _ (E : Env) where
  requested_capacity-eq-ok :
      (text : String) {q : Quantity}
      → requested_capacity E text ≡ ok q
      → (E.parse_quantity text ≡ some q) × (E.is_negative q ≡ false)
  unfolding requested_capacity
  requested_capacity-eq-ok text {q} h = elim (Option-cases (E.parse_quantity text)) [
    | inl e ↦ let h' = rw (requested_capacity, e) at h in absurd cc
    | inr (p, e) ↦ elim (Bool-cases (E.is_negative p)) [
      | inl f ↦ let h' = rw (requested_capacity, e, f) at h in absurd cc
      | inr f ↦
          let same : p ≡ q = (let h' = rw (requested_capacity, e, f) at h in cc) in
          (e ∙ ap some same, rw (← same) f)
    ]
  ]

  module _ (params : Dict String) (out : StorageClusterSpec) where
    pub desired-IsConsumer :
        desired_consumer_storage_cluster E params ≡ ok out
        → IsConsumer E params out × HasGateway params out
    unfolding desired_consumer_storage_cluster
    desired-IsConsumer h =
        let text = get_text storage_size_key params <> get_text storage_unit_key params in
        let (q, e, h1) =
          then_try-eq-ok (requested_capacity E text) (λ q. apply_mcg params (filled params q)) h in
        let (parsed, positive) = requested_capacity-eq-ok text e in
        let (same, gateway) = apply_mcg-HasGateway params out (filled params q) gateways_off.2 h1 in
        ((q, parsed, positive, filled-IsExternal params q out same), gateway)

    -- Whatever the deployment type is, a desired storage cluster is what is meant for it.
    pub desired-IsMeant :
        (current : List StorageDeviceSet) (deployment_type : String)
        → desired_storage_cluster E deployment_type params current ≡ ok out
        → IsMeant E deployment_type params (current_count current) out × HasGateway params out
    unfolding desired_storage_cluster
    desired-IsMeant current t h = elim (Bool-cases (str_eq t converged_deployment_type)) [
      | inl c ↦
          let (meant, gateway) =
            desired-IsConverged params current out (rw (desired_storage_cluster, c) at h) in
          (inl ((eq_iff t converged_deployment_type).0 c, meant), gateway)
      | inr c ↦ elim (Bool-cases (str_eq t consumer_deployment_type)) [
        | inl d ↦
            let (meant, gateway) = desired-IsConsumer (rw (desired_storage_cluster, c, d) at h) in
            (inr (inr ((eq_iff t consumer_deployment_type).0 d, meant)), gateway)
        | inr d ↦ elim (Bool-cases (str_eq t provider_deployment_type)) [
          | inl f ↦
              let (meant, gateway) =
                desired-IsProvider params current out
                  (rw (desired_storage_cluster, c, d, f) at h) in
              (inr (inl ((eq_iff t provider_deployment_type).0 f, meant)), gateway)
          | inr f ↦ let h' = rw (desired_storage_cluster, c, d, f) at h in absurd cc
        ]
      ]
    ]
