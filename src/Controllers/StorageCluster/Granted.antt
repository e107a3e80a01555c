-- ===== src/Controllers/StorageCluster/Granted.antt =====
-- Valid requests for a storage cluster.
use ocs_osd_deployer.Base.{
  ℕ, ◌+◌, ◌*◌, ◌^◌, ◌≤◌, ◌<◌, String, ◌<>◌, ◌≡◌, refl, Bool, true, false, some, none, List, inl,
  inr, ◌∙◌, sym, ap, Option, arith,
}
use ocs_osd_deployer.Base.Dict.{Dict, get_text}
use ocs_osd_deployer.Base.Int.{ℤ, pos}
use ocs_osd_deployer.Base.Text.{atoi, parse_bool}
use ocs_osd_deployer.Kube.Storage.{Quantity, StorageDeviceSet, StorageClusterSpec}
use ocs_osd_deployer.Kube.Exec.{ok, err, panic, Result}
use ocs_osd_deployer.Kube.Env.{Env}
use ocs_osd_deployer.Templates.StorageClusters.{
  converged_storage_cluster_template, provider_storage_cluster_template,
  consumer_storage_cluster_template,
}
use ocs_osd_deployer.Controllers.StorageCluster.Meaning.{
  HasCount, Covers, IsLarger, IsSized, IsExternal, AsksForGateway,
}
use ocs_osd_deployer.Controllers.StorageCluster.Shape.{current_count_lem}
use ocs_osd_deployer.Controllers.StorageCluster.Kinds.{
  desired-IsConverged, desired-IsProvider, desired-IsConsumer,
}
use ocs_osd_deployer.Controllers.StorageCluster.{
  current_count, enable_mcg_text, apply_mcg, with_count, requested_capacity,
  desired_converged_storage_cluster, desired_provider_storage_cluster,
  desired_consumer_storage_cluster, desired_storage_cluster,
}

-- The code reads the flag that the parameters ask for.
pub enable_mcg_text-AsksForGateway :
    (params : Dict String) (enabled : Bool)
    → AsksForGateway params enabled
    → parse_bool (enable_mcg_text params) ≡ some enabled
unfolding parse_bool
enable_mcg_text-AsksForGateway params enabled (inl (missing, off)) =
    rw (missing, enable_mcg_text, off) refl
enable_mcg_text-AsksForGateway params enabled (inr (text, given, read)) =
    rw (given, enable_mcg_text) read

-- A text that is read in two ways is read in one.
pub same_some : {A : Type 0} {o : Option A} {a b : A} → o ≡ some a → o ≡ some b → a ≡ b
same_some {a} e f = ap (λ o. elim o [ some x ↦ x | none ↦ a ]) (sym e ∙ f)

abbrev IsOk : Result StorageClusterSpec → Type 0
IsOk (ok out) = Unit
IsOk (err e) = ⊥
IsOk panic = ⊥

result-IsOk : (r : Result StorageClusterSpec) → IsOk r → (out : StorageClusterSpec) × (r ≡ ok out)
result-IsOk (ok out) h = (out, refl)
result-IsOk (err e) h = absurd h
result-IsOk panic h = absurd h

Covers-below :
    (n : ℕ) (sets : ℤ)
    → n < 2 ^ 53
    → Covers (pos n) sets
    → (c : ℕ) × (sets ≡ pos c) × (n ≤ 4 * c) × (4 * c < n + 4)
Covers-below n sets small (inl large) = absurd (omega arith)
Covers-below n sets small (inr is) = is

Covers-small :
    (n : ℕ) (size sets : ℤ)
    → n < 2 ^ 53
    → size ≡ pos n
    → Covers size sets
    → (c : ℕ) × (sets ≡ pos c) × (n ≤ 4 * c) × (4 * c < n + 4)
Covers-small n size sets small same covers = Covers-below n sets small (rw same at covers)

IsLarger-same : (a a' b b' c : ℤ) → a' ≡ a → b' ≡ b → IsLarger a' b' c → IsLarger a b c
IsLarger-same a a' b b' c e f larger = rw (← e, ← f) larger

IsExternal-same :
    (params : Dict String) (q q' : Quantity) (out : StorageClusterSpec)
    → q' ≡ q
    → IsExternal params q' out
    → IsExternal params q out
IsExternal-same params q q' out e external = rw (← e) external

module _ (params : Dict String) (current : List StorageDeviceSet) where
  converged-IsOk :
      (n : ℤ) (enabled : Bool)
      → atoi (get_text "size" params) ≡ some n
      → parse_bool (enable_mcg_text params) ≡ some enabled
      → IsOk (desired_converged_storage_cluster params current)
  unfolding desired_converged_storage_cluster with_count apply_mcg
      converged_storage_cluster_template
  converged-IsOk n true h k = rw (h, k) tt
  converged-IsOk n false h k = rw (h, k) tt

  provider-IsOk :
      (n : ℤ) (enabled : Bool)
      → atoi (get_text "size" params) ≡ some n
      → parse_bool (enable_mcg_text params) ≡ some enabled
      → IsOk (desired_provider_storage_cluster params current)
  unfolding desired_provider_storage_cluster with_count apply_mcg provider_storage_cluster_template
  provider-IsOk n true h k = rw (h, k) tt
  provider-IsOk n false h k = rw (h, k) tt

module _ (E : Env) (params : Dict String) where
  consumer-IsOk :
      (q : Quantity) (enabled : Bool)
      → E.parse_quantity (get_text "size" params <> get_text "unit" params) ≡ some q
      → E.is_negative q ≡ false
      → parse_bool (enable_mcg_text params) ≡ some enabled
      → IsOk (desired_consumer_storage_cluster E params)
  unfolding desired_consumer_storage_cluster apply_mcg requested_capacity
      consumer_storage_cluster_template
  consumer-IsOk q true h s k = rw (desired_consumer_storage_cluster, requested_capacity, h, s, k) tt
  consumer-IsOk q false h s k =
      rw (desired_consumer_storage_cluster, requested_capacity, h, s, k) tt

module _ (E : Env) (params : Dict String) (current : List StorageDeviceSet) where
  -- For a converged cluster, a size that is a number and a gateway setting that is missing or can
  -- be read give the template with one change but for the gateway: its device set has the larger of
  -- the requested count and the count of the device set that is there.
  pub converged_granted :
      (n had : ℤ) (enabled : Bool)
      → HasCount current had
      → AsksForGateway params enabled
      → atoi (get_text "size" params) ≡ some n
      → (out : StorageClusterSpec) × (count : ℤ) × (desired_storage_cluster E "converged" params
            current
          ≡ ok out)
        × IsLarger n had count
        × IsSized converged_storage_cluster_template count out
  unfolding desired_storage_cluster
  converged_granted n had enabled there asks size =
      let flag = enable_mcg_text-AsksForGateway params enabled asks in
      let (out, e) = result-IsOk _ (converged-IsOk params current n enabled size flag) in
      let ((n', count, size', larger, sized), _) = desired-IsConverged params current out e in
      (
        out,
        count,
        e,
        IsLarger-same n n' had (current_count current) count (same_some size' size)
            (current_count_lem current had there) larger,
        sized,
      )

  -- For a provider, a size of `n` TiB below 2^53 and such a gateway setting give its template,
  -- again with the gateway left open, in which the device set has the larger of two counts: the
  -- least number of sets of 4 TiB that holds `n` TiB, and the count that is there.
  pub provider_granted :
      (n : ℕ) (had : ℤ) (enabled : Bool)
      → n < 2 ^ 53
      → HasCount current had
      → AsksForGateway params enabled
      → atoi (get_text "size" params) ≡ some (pos n)
      → (out : StorageClusterSpec) × (sets : ℕ) × (count : ℤ) × (desired_storage_cluster E
            "provider" params current
          ≡ ok out)
        × (n ≤ 4 * sets)
        × (4 * sets < n + 4)
        × IsLarger (pos sets) had count
        × IsSized provider_storage_cluster_template count out
  unfolding desired_storage_cluster
  provider_granted n had enabled small there asks size =
      let flag = enable_mcg_text-AsksForGateway params enabled asks in
      let (out, e) = result-IsOk _ (provider-IsOk params current (pos n) enabled size flag) in
      let ((n', sets', count, size', covers, larger, sized), _) =
        desired-IsProvider params current out e in
      let (sets, is, lower, upper) = Covers-small n n' sets' small (same_some size' size) covers in
      (
        out,
        sets,
        count,
        e,
        lower,
        upper,
        IsLarger-same (pos sets) sets' had (current_count current) count is
            (current_count_lem current had there) larger,
        sized,
      )

  -- For a consumer, a size and unit that form a quantity which is not negative, and such a gateway
  -- setting, give an external cluster: it is enabled, of the kind ocs, with this capacity, the
  -- ticket and the endpoint of the parameters and no device sets, and otherwise the template, with
  -- the gateway left open.
  pub consumer_granted :
      (q : Quantity) (enabled : Bool)
      → AsksForGateway params enabled
      → E.parse_quantity (get_text "size" params <> get_text "unit" params) ≡ some q
      → E.is_negative q ≡ false
      → (out : StorageClusterSpec) × (desired_storage_cluster E "consumer" params current ≡ ok out)
        × IsExternal params q out
  unfolding desired_storage_cluster
  consumer_granted q enabled asks parsed positive =
      let flag = enable_mcg_text-AsksForGateway params enabled asks in
      let (out, e) = result-IsOk _ (consumer-IsOk E params q enabled parsed positive flag) in
      let ((q', parsed', _, external), _) = desired-IsConsumer E params out e in
      (out, e, IsExternal-same params q q' out (same_some parsed' parsed) external)
